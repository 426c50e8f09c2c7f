-- ===== src/Core.antt =====
-- app/src/main/jni/AudioCore.cpp and AudioStreamSession.h: the session that the application starts,
-- asks and stops through the JNI interface.
pub mod Lifecycle
pub mod Destinations
pub mod Begin
pub mod Times
mod Tests
use audio_sync.Base.{
  ℕ, zero, suc, ◌+◌, ◌*◌, ◌/◌, Bool, true, false, not, ◌&&◌, Option, none, some, List, ◌==◌,
  if◌then◌else◌, ◌>>=◌,
}
use audio_sync.Base.Int.{ℤ, pos, negsuc}
use audio_sync.Player.OpenSl.{SlResult}
use audio_sync.Player.Device.{SlCall}
use audio_sync.Player.Init.{Audio, stop_playback, cleanup_audio}

pub data Kind : Type 0 where
  sender : Kind
  receiver : Kind

-- An `AudioStreamSession` in memory; a session that was deleted stays as freed memory.
pub record Session : Type 0 where
  pub kind : Kind
  pub is_running : Bool
  pub has_threads : Bool
  pub freed : Bool

-- The sessions that were ever made, the number of the next one, the pointer `audioSession`, and
-- the latency that the player was given.
pub record Core : Type 0 where
  pub sessions : ℕ → Session
  pub next : ℕ
  pub audio_session : Option ℕ
  pub device_latency : ℤ

-- `IsSender`.
abbrev pub is_sender : Session → Bool
is_sender s = elim s.kind [ sender ↦ true | receiver ↦ false ]

-- `Stop` waits for both threads.
abbrev pub stop : Session → Session
stop s =
    if s.is_running
    then record { kind = s.kind; is_running = false; has_threads = false; freed = s.freed }
    else s

abbrev pub free : Session → Session
free s = record {
  kind = s.kind;
  is_running = s.is_running;
  has_threads = s.has_threads;
  freed = true;
}

abbrev pub put_session : Core → ℕ → Session → Core
put_session c i s = record {
  sessions = λ j. if j == i then s else c.sessions j;
  next = c.next;
  audio_session = c.audio_session;
  device_latency = c.device_latency;
}

-- The session that a pointer points to; `none` is an access to freed memory.
unfoldable pub deref : Core → ℕ → Option Session
deref c i = if (c.sessions i).freed then none else some (c.sessions i)

-- `startStreamingAsset`, `startStreamingUri` and `startReceiving`, once their session is made.
unfoldable pub start : Kind → Core → Core
start kind c = record {
  sessions = λ j.
      if j == c.next
      then record { kind = kind; is_running = true; has_threads = true; freed = false }
      else c.sessions j;
  next = c.next + 1;
  audio_session = some c.next;
  device_latency = c.device_latency;
}

-- What the session answers, or the default without one.
unfoldable pub ask {ℓ} : {B : Type ℓ} → Option ℕ → Core → B → (Session → B) → Option B
ask none c default answer = some default
ask (some i) c default answer = deref c i >>= λ s. some (answer s)

-- What is done to the session, if there is one.
unfoldable pub change : Option ℕ → Core → (Session → Session) → Option Core
change none c act = some c
change (some i) c act = deref c i >>= λ s. some (put_session c i (act s))

-- `answer` is that of OpenSL ES; `none` is as well the exit of the player's `_checkerror`.
module _ {A : Type 0} (answer : List SlCall → SlCall → SlResult) where
  pub stop_services : Core → Audio A → Option (Core × Audio A)
  stop_services c s = do
    c' ← change c.audio_session c stop
    s' ← stop_playback answer s
    some (c', s')

  -- The pointer is not reset.
  pub deinit_audio : Core → Audio A → Option (Core × Audio A)
  deinit_audio c s = do
    c' ← change c.audio_session c (λ session. free (stop session))
    s' ← cleanup_audio answer s
    some (c', s')

pub is_running : Core → Option Bool
is_running c = ask c.audio_session c false (λ s. s.is_running)

pub is_sending : Core → Option Bool
is_sending c = ask c.audio_session c false (λ s. is_sender s && s.is_running)

-- Milliseconds; -1 when nothing runs. The time in microseconds is that of the session's
-- `CurrentPlaybackTimeUs`, which is not negative.
pub current_presentation_time : (Session → ℕ) → Core → Option ℤ
current_presentation_time time_us c =
    ask c.audio_session c (negsuc 0)
      (λ s. if s.is_running then pos (time_us s / 1000) else negsuc 0)

-- `pauseSending` looks at the session, and does nothing.
pub pause_sending : Core → Option Core
pause_sending c = ask c.audio_session c c (λ _. c)

unfoldable pub set_device_latency : ℤ → Core → Core
set_device_latency (negsuc _) c = c
set_device_latency (pos ms) c = record {
  sessions = c.sessions;
  next = c.next;
  audio_session = c.audio_session;
  device_latency = pos (ms * 1000);
}
