-- ===== src/Player/Control.antt =====
-- app/src/main/jni/audioplayer.cpp: what the player does outside of the audio callback, to start
-- the playback (`audioplayer_syncPlayback`) and to adjust its rate (`audioplayer_monitorPlayback`).
use audio_sync.Base.{
  ℕ, ◌+◌, ◌*◌, ◌/◌, Bool, true, false, not, ◌&&◌, List, [], ◌∷◌, ◌==◌, if◌then◌else◌,
}
use audio_sync.Base.Int.{ℤ, pos, negsuc, ◌-ℤ◌, pos_part, neg_part, ltb_ℤ}
use audio_sync.AppPacket.{second_micro}

abbrev pub is_zero : ℤ → Bool
is_zero (pos n) = n == 0
is_zero (negsuc n) = false

-- `current_syncSystemTimeUs` after `audioplayer_syncPlayback`; 0 says that there was none. The call of
-- `audioplayer_monitorPlayback` at its end leaves it alone.
unfoldable pub sync_playback : ℤ → ℤ × ℕ → ℤ
sync_playback sync_time (system, playback) =
    if is_zero sync_time then system -ℤ pos playback else sync_time

-- The calls that a receiver makes, one after the other.
unfoldable pub sync_all : ℤ → List (ℤ × ℕ) → ℤ
unfolding sync_playback
sync_all sync_time [] = sync_time
sync_all sync_time (call ∷ calls) = sync_all (sync_playback sync_time call) calls

-- The static variables of `audioplayer_monitorPlayback`, and the variables of the player that it
-- sets.
pub record Monitor : Type 0 where
  pub last_print : ℤ
  pub last_diff : ℤ
  pub last_adjustment : ℤ
  pub listen_time : ℤ
  pub enable_jumps : Bool
  pub rate_permille : ℤ

-- Division by 2, `labs`, and the test of two integers.
abbrev pub half : ℤ → ℤ
half (pos n) = pos (n / 2)
half (negsuc n) = pos 0 -ℤ pos ((n + 1) / 2)

abbrev pub labs : ℤ → ℤ
labs n = pos (pos_part n + neg_part n)

abbrev pub equal_ℤ : ℤ → ℤ → Bool
equal_ℤ a b = pos_part a == pos_part b && neg_part a == neg_part b

unfoldable pub clamp_rate : ℤ → ℤ
clamp_rate rate =
    let low = if ltb_ℤ rate (pos 500) then pos 500 else rate in
    if ltb_ℤ (pos 2000) low then pos 2000 else low

-- What a call reads: `current_isPlaying`, the monotonic clock, and `current_diff`.
pub record Reading : Type 0 where
  pub is_playing : Bool
  pub now : ℤ
  pub diff : ℤ

-- `rate_offset` is the computation of `offset` in floating point from `lastDiff - diff` and `wait`.
module _ (rate_offset : ℤ → ℤ → ℤ) where
  -- The branch that adjusts the rate and enables jumps.
  unfoldable pub adjust_rate : ℤ → Reading → Monitor → Monitor
  unfolding clamp_rate
  adjust_rate wait r m =
      let offset = rate_offset (m.last_diff -ℤ r.diff) wait in
      let new_rate = clamp_rate (m.rate_permille -ℤ half offset) in
      record {
        last_print = m.last_print;
        last_diff = r.diff;
        last_adjustment = r.now;
        listen_time = pos (5 * second_micro);
        enable_jumps = true;
        rate_permille = if ltb_ℤ (labs offset) (pos 2) then m.rate_permille else new_rate;
      }

  unfoldable pub disable_jumps : Reading → Monitor → Monitor
  disable_jumps r m = record {
    last_print = m.last_print;
    last_diff = r.diff;
    last_adjustment = r.now;
    listen_time = m.listen_time;
    enable_jumps = false;
    rate_permille = m.rate_permille;
  }

  -- The first call of a playback.
  unfoldable pub first_print : Reading → Monitor → Monitor
  first_print r m = record {
    last_print = r.now;
    last_diff = r.diff;
    last_adjustment = r.now;
    listen_time = pos (2 * second_micro);
    enable_jumps = m.enable_jumps;
    rate_permille = m.rate_permille;
  }

  abbrev pub set_print : ℤ → Monitor → Monitor
  set_print time m = record {
    last_print = time;
    last_diff = m.last_diff;
    last_adjustment = m.last_adjustment;
    listen_time = m.listen_time;
    enable_jumps = m.enable_jumps;
    rate_permille = m.rate_permille;
  }

  -- The calls after the first one.
  unfoldable pub monitor_on : Reading → Monitor → Monitor
  unfolding adjust_rate disable_jumps
  monitor_on r m0 =
      let late = ltb_ℤ (pos (5 * second_micro)) (r.now -ℤ m0.last_print) in
      let m = if late then set_print r.now m0 else m0 in
      let wait = r.now -ℤ m.last_adjustment in
      if not m.enable_jumps && ltb_ℤ m.listen_time wait
      then adjust_rate wait r m
      else if m.enable_jumps && (ltb_ℤ (labs m.last_diff) wait && not (equal_ℤ m.last_diff r.diff))
      then disable_jumps r m
      else m

  unfoldable pub monitor_playback : Reading → Monitor → Monitor
  unfolding monitor_on first_print
  monitor_playback r m =
      if r.is_playing
      then if is_zero m.last_print then first_print r m else monitor_on r m
      else set_print (pos 0) m

  unfoldable pub monitor_all : List Reading → Monitor → Monitor
  unfolding monitor_playback
  monitor_all [] m = m
  monitor_all (r ∷ readings) m = monitor_all readings (monitor_playback r m)
