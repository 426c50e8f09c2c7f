-- ===== src/Player/Device.antt =====
-- The OpenSL ES objects of app/src/main/jni/audioplayer.cpp: how they are created, used and destroyed.
-- OpenSL ES is not part of the repository: `answer` is the result that it gives to a call after the
-- calls that were made before.
pub mod Protocol
pub mod Lawful
pub mod Turns
mod Tests
use Prim.Native.String.{String}
use audio_sync.Base.{
  ℕ, ◌+◌, ◌*◌, ◌%◌, ◌^◌, Bool, true, false, Option, none, some, List, [], ◌∷◌, ◌++◌, ◌>>=◌, leb,
  ltb, ◌==◌, if◌then◌else◌,
}
use audio_sync.Player.OpenSl.{SlResult, check_error}

-- The objects and the interfaces that the code asks for.
pub data SlObject : Type 0 where
  engine : SlObject
  output_mix : SlObject
  player : SlObject

pub data SlInterface : Type 0 where
  engine_itf : SlInterface
  play : SlInterface
  buffer_queue : SlInterface
  playback_rate : SlInterface

pub data PlayState : Type 0 where
  stopped : PlayState
  playing : PlayState

-- The calls. A player is created for so many channels, and for a sample rate in millihertz.
pub data SlCall : Type 0 where
  create_engine : SlCall
  create_output_mix : SlCall
  create_audio_player : (channels : ℕ) → ℕ → SlCall
  realize : SlObject → SlCall
  get_interface : SlObject → SlInterface → SlCall
  register_callback : SlCall
  set_rate : ℕ → SlCall
  set_play_state : PlayState → SlCall
  destroy : SlObject → SlCall

-- The calls that were made, and whether `engineObject`, `outputMixObject`, `playerObject` and
-- `playerPlay` are not NULL.
pub record Device : Type 0 where
  pub calls : List SlCall
  pub engine_object : Bool
  pub output_mix_object : Bool
  pub player_object : Bool
  pub player_play : Bool

-- What the application calls: `audioplayer_initPlayback`, `audioplayer_stopPlayback` and
-- `audioplayer_cleanup`.
pub data Api : Type 0 where
  start : (global_rate rate channels : ℕ) → Api
  stop : Api
  cleanup : Api

abbrev pub made : SlCall → Device → Device
made c d = record d { calls = d.calls ++ c ∷ [] }

-- The channels of the player, of which there are no more than two.
abbrev pub player_channels : ℕ → ℕ
player_channels channels = if leb 2 channels then 2 else channels

-- `_cleanupBufferQueueAudioPlayer`.
unfoldable pub cleanup_player : Device → Device
cleanup_player d =
    if d.player_object
    then record (made (destroy player) d) { player_object = false; player_play = false }
    else d

-- The two parts of `audioplayer_cleanup`.
unfoldable pub destroy_mix : Device → Device
destroy_mix d =
    if d.output_mix_object
    then record (made (destroy output_mix) d) { output_mix_object = false }
    else d

unfoldable pub destroy_engine : Device → Device
destroy_engine d =
    if d.engine_object then record (made (destroy engine) d) { engine_object = false } else d

module _ (answer : List SlCall → SlCall → SlResult) where
  -- A call whose result goes to `_checkerror`.
  unfoldable pub sl : String → SlCall → Device → Option Device
  sl f c d = check_error (answer d.calls c) f >>= λ logged. some (made c d)

  -- `_createEngine`.
  unfoldable pub create_engine_objects : Device → Option Device
  unfolding sl
  create_engine_objects d0 = do
    d1 ← sl "_createEngine" create_engine d0
    d2 ← sl "_createEngine" (realize engine) (record d1 { engine_object = true })
    d3 ← sl "_createEngine" (get_interface engine engine_itf) d2
    d4 ← sl "_createEngine" create_output_mix d3
    sl "_createEngine" (realize output_mix) (record d4 { output_mix_object = true })

  -- `_createBufferQueueAudioPlayer`.
  unfoldable pub create_buffer_queue_player : ℕ → ℕ → Device → Option Device
  unfolding sl
  create_buffer_queue_player rate channels d0 = do
    let f : String = "_createBufferQueueAudioPlayer"
    d1 ← sl f (create_audio_player (player_channels channels) (rate * 1000 % 2 ^ 32)) d0
    d2 ← sl f (realize player) (record d1 { player_object = true })
    d3 ← sl f (get_interface player play) d2
    d4 ← sl f (get_interface player buffer_queue) (record d3 { player_play = true })
    d5 ← sl f (get_interface player playback_rate) d4
    sl f register_callback d5

  -- The calls of `audioplayer_initPlayback` up to the frame queue; `global_rate` is
  -- `global_samplesPerSec`. The result of `SetRate` is not looked at.
  unfoldable pub open_player : ℕ → ℕ → ℕ → Device → Option Device
  unfolding create_buffer_queue_player
  open_player global_rate rate channels d1 = do
    d2 ← create_buffer_queue_player rate channels d1
    some (if global_rate == rate then d2 else made (set_rate 1000) d2)

  unfoldable pub open_device : ℕ → ℕ → ℕ → Device → Option Device
  unfolding create_engine_objects open_player
  open_device global_rate rate channels d =
      (if d.engine_object then some d else create_engine_objects d)
      >>= open_player global_rate rate channels

  -- The call behind the frame queue.
  unfoldable pub play_device : Device → Option Device
  unfolding sl
  play_device d = sl "audioplayer_initPlayback" (set_play_state playing) d

  -- `audioplayer_stopPlayback`, as far as the device goes.
  unfoldable pub stop_player : Device → Option Device
  unfolding sl cleanup_player
  stop_player d =
      (if d.player_play then sl "audioplayer_stopPlayback" (set_play_state stopped) d else some d)
      >>= λ d1. some (cleanup_player d1)

  -- `audioplayer_cleanup`, as far as the device goes.
  unfoldable pub cleanup_device : Device → Option Device
  unfolding stop_player destroy_mix destroy_engine
  cleanup_device d = stop_player d >>= λ d1. some (destroy_engine (destroy_mix d1))

  -- The calls of the application.
  unfoldable pub device_step : Api → Device → Option Device
  unfolding open_device play_device stop_player cleanup_device
  device_step (start global_rate rate channels) d =
      open_device global_rate rate channels d >>= play_device
  device_step stop d = stop_player d
  device_step cleanup d = cleanup_device d

  unfoldable pub device_steps : List Api → Device → Option Device
  unfolding device_step
  device_steps [] d = some d
  device_steps (a ∷ apis) d = device_step a d >>= device_steps apis
