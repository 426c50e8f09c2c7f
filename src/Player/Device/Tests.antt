-- ===== src/Player/Device/Tests.antt =====
-- The theorems on the OpenSL ES objects at concrete inputs.
use audio_sync.Base.{◌≡◌, refl, some, List, [], ◌∷◌, ◌++◌}
use audio_sync.Player.OpenSl.{success}
use audio_sync.Player.Device.{Device, Api, start, stop, cleanup, device_steps}
use audio_sync.Player.Device.Protocol.{follow_all}
use audio_sync.Player.Device.Lawful.{nothing, unopened}
use audio_sync.Player.Device.Turns.{device_steps-follow}

-- Two streams, and a clean-up between them.
abbrev apis : List Api
apis = start 48000 44100 6 ∷ stop ∷ cleanup ∷ start 48000 48000 1 ∷ []

device_steps-follow_example :
    (d : Device) × (device_steps (λ calls c. success) (apis ++ cleanup ∷ []) unopened ≡ some d)
    × (follow_all d.calls nothing ≡ some nothing)
device_steps-follow_example =
    device_steps-follow (λ calls c. success) (λ calls c. refl) apis (refl, (refl, tt))
