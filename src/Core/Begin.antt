-- ===== src/Core/Begin.antt =====
-- `initAudio`, `startStreamingAsset`, `startStreamingUri` and `startReceiving` of
-- app/src/main/jni/AudioCore.cpp. Texts and assets of Java are given by what the NDK makes of them.
use audio_sync.Base.{ℕ, ◌%◌, ◌^◌, Option, none, some}
use audio_sync.Base.Int.{ℤ, pos, negsuc}
use audio_sync.Sender.{to_uint32}
use audio_sync.Sender.Network.{Started, start_streaming}
use audio_sync.Player.Init.{Audio, init_global}
use audio_sync.Core.{Core, sender, start}

-- What SIGUSR1 does: it ends the process, or the thread by `thread_exit_handler`. jthread sends it to
-- kill a thread.
pub data Handler : Type 0 where
  ends_process : Handler
  ends_thread : Handler

unfoldable pub init_audio : {A : Type 0} → ℤ → ℤ → Audio A × Handler → Audio A × Handler
unfolding to_uint32 init_global
init_audio samples_per_sec frames_per_buffer (s, _) =
    (init_global (to_uint32 samples_per_sec) (to_uint32 frames_per_buffer) s, ends_thread)

-- The cast of a `jint` to `uint16_t`.
abbrev pub to_port : ℤ → ℕ
to_port portbase = to_uint32 portbase % 2 ^ 16

-- An asset that was opened has a file descriptor, an offset and a size; `none` is the assertion.
-- `created` is what `Create` of the session returns.
unfoldable pub start_streaming_asset :
    {E : Type 0}
    → (ℕ → ℕ → ℕ → Option E)
    → ℤ
    → ℤ
    → Option (ℤ × ℕ × ℕ)
    → Core
    → Option (Option (Started E) × Core)
unfolding start start_streaming
start_streaming_asset create_extractor created portbase none c = some (none, c)
start_streaming_asset create_extractor created portbase (some (pos fd, offset, size)) c = some (
  some (start_streaming created (to_port portbase) (create_extractor fd offset size)),
  start sender c,
)
start_streaming_asset create_extractor created portbase (some (negsuc fd, offset, size)) c = none
