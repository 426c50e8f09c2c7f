-- ===== src/Player/Init.antt =====
-- The static variables of app/src/main/jni/audioplayer.cpp as a whole, and the functions that set
-- them up, set one of them or read one of them.
pub mod Fresh
pub mod Stopped
mod Tests
use audio_sync.Base.{
  ℕ, ◌+◌, ◌*◌, ◌%◌, ◌^◌, Bool, true, false, Option, none, some, List, [], ◌∷◌, ◌>>=◌,
}
use audio_sync.Base.Int.{ℤ, pos, ◌+ℤ◌}
use audio_sync.Fifo.{Fifo, init, deinit}
use audio_sync.Player.Enqueue.{Mark}
use audio_sync.Player.OpenSl.{SlResult}
use audio_sync.Player.Device.{SlCall, Device, open_device, play_device, stop_player, cleanup_device}
use audio_sync.Player.Callback.{Stream, FrameBytes, Playback, Tick, Output}
use audio_sync.Player.Callback.Play.{callback}

-- `stream` has `global_framesPerBuffers`, `current_samplesPerSec` and `current_numChannels`;
-- `fifo_buffer` says that `fifoBuffer` is not NULL.
pub record Audio (A : Type 0) : Type 0 where
  pub device : Device
  pub global_samples_per_sec : ℕ
  pub stream : Stream
  pub rate_permille : ℤ
  pub buffered_frames : ℕ
  pub playback : Playback A
  pub fifo_buffer : Bool
  pub system_time_offset : ℤ
  pub device_latency : ℤ

abbrev pub no_mark : Mark
no_mark = record { frame_count = 0; playback_time = pos 0 }

-- The loop that pops the marks, until there is none.
abbrev pub pop_all : List Mark → List Mark
pop_all [] = []
pop_all (m ∷ marks) = pop_all marks

-- Five minutes, as a `uint32_t`.
abbrev pub queue_frames : ℕ → ℕ
queue_frames rate = rate * 60 * 5 % 2 ^ 32

module _ {A : Type 0} where
  -- `audioplayer_initGlobal`.
  unfoldable pub init_global : ℕ → ℕ → Audio A → Audio A
  init_global samples_per_sec frames_per_buffer s = record s {
    global_samples_per_sec = samples_per_sec;
    stream = record s.stream { frames_per_buffer = frames_per_buffer };
  }

  -- The reset at the start of `audioplayer_initPlayback`, with the loop that empties the marks.
  unfoldable pub reset_playback : Playback A → Playback A
  reset_playback p = record p {
    marks = pop_all p.marks;
    last_mark = no_mark;
    queued_frames = 0;
    sync_time = pos 0;
    is_playing = false;
    enable_jumps = false;
    started = pos 0;
    drop = pos 0;
    diff = pos 0;
  }

  unfoldable pub reset : ℕ → ℕ → Audio A → Audio A
  unfolding reset_playback
  reset rate channels s = record s {
    stream = record s.stream { samples_per_sec = rate; num_channels = channels };
    rate_permille = pos 1000;
    buffered_frames = 0;
    playback = reset_playback s.playback;
  }

  -- `realloc` gives the memory for so many frames of so many bytes, or NULL; its caller does not
  -- look.
  unfoldable pub init_fifo : (ℕ → ℕ → Option (List A)) → ℕ → ℕ → Audio A → Option (Audio A)
  init_fifo realloc rate channels s =
      init (queue_frames rate) (channels * 2) (realloc (queue_frames rate) (channels * 2)) >>= λ g.
      some (record s { playback = record s.playback { fifo = g }; fifo_buffer = true })

  -- `audioplayer_initPlayback`; the first callback happens at `t`.
  unfoldable pub init_playback :
      FrameBytes A
      → (List SlCall → SlCall → SlResult)
      → (ℕ → ℕ → Option (List A))
      → Tick
      → ℕ
      → ℕ
      → Audio A
      → Option (Output A × Audio A)
  unfolding reset init_fifo
  init_playback bytes answer realloc t rate channels s =
      open_device answer s.global_samples_per_sec rate channels s.device >>= λ opened.
      init_fifo realloc rate channels (record (reset rate channels s) { device = opened }) >>= λ s2.
      play_device answer s2.device >>= λ played.
      callback bytes s2.stream t s2.playback >>= λ (output, p).
      some (output, record s2 { device = played; playback = p })

  -- `audioplayer_setSystemTimeOffset` and `audioplayer_setDeviceLatency`.
  unfoldable pub set_system_time_offset : ℤ → Audio A → Audio A
  set_system_time_offset offset s = record s { system_time_offset = offset }

  unfoldable pub set_device_latency : ℤ → Audio A → Audio A
  set_device_latency latency s = record s { device_latency = latency }

  -- The `nowUs` of the callback, from `audiosync_coarseTimeUs`.
  abbrev pub callback_now : ℤ → Audio A → ℤ
  callback_now coarse_time s = coarse_time +ℤ s.system_time_offset +ℤ s.device_latency

  -- `audioplayer_currentPlaybackTimeUs`.
  abbrev pub current_playback_time : Audio A → ℤ
  current_playback_time s = s.playback.last_mark.playback_time

  -- `audioplayer_stopPlayback`.
  unfoldable pub stop_playback : (List SlCall → SlCall → SlResult) → Audio A → Option (Audio A)
  stop_playback answer s = stop_player answer s.device >>= λ d.
      some (record s { device = d; playback = record s.playback { fifo = deinit s.playback.fifo } })

  -- `audioplayer_cleanup`; its first step is `audioplayer_stopPlayback`.
  unfoldable pub cleanup_audio : (List SlCall → SlCall → SlResult) → Audio A → Option (Audio A)
  cleanup_audio answer s = cleanup_device answer s.device >>= λ d. some (record s {
    device = d;
    playback = record s.playback { fifo = deinit s.playback.fifo };
    fifo_buffer = false;
  })
