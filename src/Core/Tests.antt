-- ===== src/Core/Tests.antt =====
-- The theorems of the sessions at a concrete application.
use audio_sync.Base.{ℕ, [], ◌∷◌, ◌≡◌, refl, false, true, none, some, arith}
use audio_sync.Base.Int.{pos, negsuc}
use audio_sync.Fifo.{Fifo}
use audio_sync.Player.OpenSl.{success}
use audio_sync.Player.Init.{Audio, no_mark}
use audio_sync.Core.{
  sender, receiver, Session, Core, deref, start, stop_services, deinit_audio, is_running,
  is_sending, current_presentation_time,
}
use audio_sync.Core.Lifecycle.{stop_services_lem, deinit_audio_lem, start_lem}

abbrev playing : Session
playing = record { kind = receiver; is_running = true; has_threads = true; freed = false }

abbrev one_session : Core
one_session = record {
  sessions = λ i. playing;
  next = 1;
  audio_session = some 0;
  device_latency = negsuc 0;
}

one_session-alive : deref one_session 0 ≡ some playing
unfolding deref
one_session-alive = refl

-- A player in use; its queue has no frames.
abbrev used_fifo : Fifo ℕ
used_fifo = record {
  frame_count = 4;
  frame_count_p2 = 4;
  fudge_factor = 0;
  frame_size = 2;
  buffer = 0 ∷ 0 ∷ 0 ∷ 0 ∷ [];
  front = 0;
  rear = 0;
}

abbrev used_audio : Audio ℕ
used_audio = record {
  device = record {
    calls = [];
    engine_object = true;
    output_mix_object = true;
    player_object = true;
    player_play = true;
  };
  global_samples_per_sec = 48000;
  stream = record { frames_per_buffer = 2; samples_per_sec = 44100; num_channels = 1 };
  rate_permille = pos 1000;
  buffered_frames = 0;
  playback = record {
    fifo = used_fifo;
    marks = [];
    last_mark = no_mark;
    queued_frames = 0;
    temp_buffers = λ i. 0;
    temp_ix = 0;
    sync_time = pos 0;
    accuracy = 0;
    is_playing = false;
    enable_jumps = false;
    started = pos 0;
    drop = pos 0;
    diff = pos 0;
  };
  fifo_buffer = true;
  system_time_offset = pos 0;
  device_latency = pos 0;
}

stop_services_lem_example :
    (c' : Core) × (audio' : Audio ℕ) × (stop_services (λ calls c. success) one_session used_audio
      ≡ some (c', audio'))
    × (is_running c' ≡ some false)
    × (is_sending c' ≡ some false)
    × (current_presentation_time (λ s. 5000) c' ≡ some (negsuc 0))
    × (audio'.device.player_object ≡ false)
stop_services_lem_example =
    stop_services_lem (λ calls c. success) (λ calls c. refl) one_session used_audio (λ s. 5000) 0
      playing refl one_session-alive

deinit_audio_lem_example :
    (c' : Core) × (audio' : Audio ℕ) × (deinit_audio (λ calls c. success) one_session used_audio
      ≡ some (c', audio'))
    × (audio'.device.player_object ≡ false)
    × (audio'.device.output_mix_object ≡ false)
    × (audio'.device.engine_object ≡ false)
    × (is_running c' ≡ none)
    × (stop_services (λ calls c. success) c' audio' ≡ none)
deinit_audio_lem_example =
    deinit_audio_lem (λ calls c. success) (λ calls c. refl) one_session used_audio 0 playing refl
      one_session-alive

start_lem_example :
    (is_running (start sender one_session) ≡ some true)
    × (is_sending (start sender one_session) ≡ some true)
    × (deref (start sender one_session) 0 ≡ some playing)
    × ((start sender one_session).audio_session ≡ some 1)
start_lem_example = start_lem sender one_session 0 playing refl one_session-alive (omega arith)
