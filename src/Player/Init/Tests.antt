-- ===== src/Player/Init/Tests.antt =====
-- The start of a stream at concrete inputs.
use audio_sync.Base.{ℕ, ◌≡◌, refl, inl, false, some, [], ◌∷◌, arith}
use audio_sync.Base.Int.{pos}
use audio_sync.Fifo.{Fifo}
use audio_sync.Player.OpenSl.{success, check_error}
use audio_sync.Player.Device.Lawful.{IsLawful, unopened}
use audio_sync.Player.Callback.{FrameBytes, Tick}
use audio_sync.Player.Callback.Waits.{copies}
use audio_sync.Player.Callback.Ready.{IsGood}
use audio_sync.Player.Device.Protocol.{follow_all}
use audio_sync.Player.Init.{Audio, no_mark, init_playback}
use audio_sync.Player.Init.Fresh.{IsFresh, init_playback_lem}

-- One frame a second, so that five minutes are 300 frames.
abbrev unset : Fifo ℕ
unset = record {
  frame_count = 0;
  frame_count_p2 = 0;
  fudge_factor = 0;
  frame_size = 0;
  buffer = [];
  front = 0;
  rear = 0;
}

abbrev unset_audio : Audio ℕ
unset_audio = record {
  device = unopened;
  global_samples_per_sec = 48000;
  stream = record { frames_per_buffer = 2; samples_per_sec = 44100; num_channels = 1 };
  rate_permille = pos 1000;
  buffered_frames = 9;
  playback = record {
    fifo = unset;
    marks = no_mark ∷ [];
    last_mark = no_mark;
    queued_frames = 7;
    temp_buffers = λ i. 0;
    temp_ix = 0;
    sync_time = pos 5;
    accuracy = 0;
    is_playing = false;
    enable_jumps = false;
    started = pos 0;
    drop = pos 0;
    diff = pos 0;
  };
  fifo_buffer = false;
  system_time_offset = pos 0;
  device_latency = pos 0;
}

abbrev samples : FrameBytes ℕ
samples = record { blend = λ a b. a; silent = 0; half_silent = λ n. 0; noise = 257 }

abbrev first_tick : Tick
first_tick = record { now = pos 1000; coarse_accuracy = 2000000; result = success }

slow-IsGood :
    IsGood (record { frames_per_buffer = 2; samples_per_sec = 1; num_channels = 2 }) first_tick
unfolding check_error
slow-IsGood = record { log = []; ok = refl; coarse = omega arith }

unopened-IsLawful : IsLawful false false unopened
unfolding follow_all
unopened-IsLawful = record {
  follows = refl;
  engine_object = refl;
  output_mix_object = refl;
  player_object = refl;
  player_play = refl;
}

init_playback_lem_example :
    (s' : Audio ℕ) × (init_playback samples
        (λ calls c. success)
        (λ frames size. some (copies 300 0))
        first_tick
        1
        2
        unset_audio
      ≡ some (some (257 ∷ 257 ∷ []), s'))
    × IsFresh samples (λ calls c. success) s'
init_playback_lem_example =
    init_playback_lem samples (λ calls c. success) (copies 300 0) first_tick 1 2 false unset_audio
      (λ calls c. refl) unopened-IsLawful refl (omega arith)
      (record { channels = omega arith; rate = omega arith; fits = omega arith }) slow-IsGood
      (inl refl)
