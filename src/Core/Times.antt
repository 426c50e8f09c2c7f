-- ===== src/Core/Times.antt =====
-- `CurrentPlaybackTimeUs` of the two kinds of sessions, in app/src/main/jni/SenderSession.cpp and
-- ReceiverSession.cpp, as AudioCore.cpp calls it.
use audio_sync.Base.Int.{ℤ}
use audio_sync.AppPacket.{ClockReading}
use audio_sync.Sender.{current_playback_time_us}
use audio_sync.Player.Init.{Audio, current_playback_time}
use audio_sync.Core.{Kind, sender, receiver}

-- The receiver's is the player's.
unfoldable pub receiver_playback_time_us : {A : Type 0} → Audio A → ℤ
receiver_playback_time_us s = current_playback_time s

-- The virtual call: the clock and `playbackStartUs` for a sender, the player for a receiver.
unfoldable pub playback_time_us : {A : Type 0} → Kind → ClockReading → ℤ → Audio A → ℤ
unfolding receiver_playback_time_us
playback_time_us sender now start s = current_playback_time_us now start
playback_time_us receiver now start s = receiver_playback_time_us s
