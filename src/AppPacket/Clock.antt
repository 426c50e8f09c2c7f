-- ===== src/AppPacket/Clock.antt =====
-- The clock functions of app/src/main/jni/apppacket.c.
use audio_sync.Base.{ℕ, ◌+◌, ◌*◌, ◌^◌, ◌≤◌, ◌<◌, ◌≡◌, ◌⊎◌, some, arith}
use audio_sync.AppPacket.{time_us}

-- Of two readings with fewer than 10 ^ 9 nanoseconds the later one is not the smaller number; the
-- number is the time in whole microseconds; and it fits into an `int64_t`, for the seconds of
-- the next 292,000 years.
pub time_us_lem :
    (sec nsec sec' nsec' : ℕ)
    → sec < 9223372036854
    → nsec < 1000000000
    → nsec' < 1000000000
    → (sec < sec') ⊎ ((sec ≡ sec') × (nsec ≤ nsec'))
    → (time_us (some (sec, nsec)) ≤ time_us (some (sec', nsec')))
      × (1000 * time_us (some (sec, nsec)) ≤ sec * 1000000000 + nsec)
      × (sec * 1000000000 + nsec < 1000 * (time_us (some (sec, nsec)) + 1))
      × (time_us (some (sec, nsec)) < 2 ^ 63)
unfolding time_us
time_us_lem sec nsec sec' nsec' early h h' order = omega arith
