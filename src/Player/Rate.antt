-- ===== src/Player/Rate.antt =====
-- The start of the playback, and the bounds of its rate.
use audio_sync.Base.{
  ℕ, ◌*◌, ◌≡◌, refl, Bool, true, false, not, ◌&&◌, List, [], ◌∷◌, arith, if◌then◌else◌, Bool-cases,
  inl, inr,
}
use audio_sync.Base.Int.{ℤ, pos, ◌-ℤ◌, ◌≤ℤ◌, ltb_ℤ}
use audio_sync.AppPacket.{second_micro}
use audio_sync.Player.Control.{
  is_zero, sync_playback, sync_all, Monitor, Reading, half, labs, equal_ℤ, clamp_rate, adjust_rate,
  disable_jumps, first_print, set_print, monitor_on, monitor_playback, monitor_all,
}

sync_once :
    (sync_time : ℤ) (calls : List (ℤ × ℕ))
    → is_zero sync_time ≡ false
    → sync_all sync_time calls ≡ sync_time
unfolding sync_all sync_playback
sync_once sync_time [] set = refl
sync_once sync_time ((system, playback) ∷ calls) set =
    rw (set, sync_all) (sync_once sync_time calls set)

-- If the first synchronisation gives a time that is not 0, it alone determines when the playback
-- starts, whatever comes after it.
pub sync_all_lem :
    (system : ℤ) (playback : ℕ) (calls : List (ℤ × ℕ))
    → is_zero (system -ℤ pos playback) ≡ false
    → sync_all (pos 0) ((system, playback) ∷ calls) ≡ system -ℤ pos playback
unfolding sync_all sync_playback
sync_all_lem system playback calls set = sync_once (system -ℤ pos playback) calls set

-- The rate stays between half and double speed.
unfoldable pub RateBounded : Monitor → Type 0
RateBounded m = (pos 500 ≤ℤ m.rate_permille) × (m.rate_permille ≤ℤ pos 2000)

clamp_rate_bounds : (rate : ℤ) → (pos 500 ≤ℤ clamp_rate rate) × (clamp_rate rate ≤ℤ pos 2000)
unfolding clamp_rate
clamp_rate_bounds rate = ground arith

module _ (rate_offset : ℤ → ℤ → ℤ) where
  adjust_rate_bounds :
      (wait : ℤ) (r : Reading) (m : Monitor)
      → RateBounded m
      → RateBounded (adjust_rate rate_offset wait r m)
  unfolding RateBounded adjust_rate
  adjust_rate_bounds wait r m h =
      elim (Bool-cases (ltb_ℤ (labs (rate_offset (m.last_diff -ℤ r.diff) wait)) (pos 2))) [
        | inl small ↦ rw small h
        | inr large ↦
            rw large (
              clamp_rate_bounds
                (m.rate_permille -ℤ half (rate_offset (m.last_diff -ℤ r.diff) wait)))
      ]

  -- The two branches behind the print of the time.
  adjusted_bounds :
      (adjusts disables : Bool) (wait : ℤ) (r : Reading) (m : Monitor)
      → RateBounded m
      → RateBounded (
          if adjusts
          then adjust_rate rate_offset wait r m
          else if disables
          then disable_jumps rate_offset r m
          else m)
  unfolding RateBounded disable_jumps
  adjusted_bounds true disables wait r m h = adjust_rate_bounds wait r m h
  adjusted_bounds false true wait r m h = h
  adjusted_bounds false false wait r m h = h

  monitor_on_bounds :
      (r : Reading) (m : Monitor) → RateBounded m → RateBounded (monitor_on rate_offset r m)
  unfolding RateBounded monitor_on
  monitor_on_bounds r m h = go (ltb_ℤ (pos (5 * second_micro)) (r.now -ℤ m.last_print))
    where
      continue : Monitor → Monitor
      continue n =
          if not n.enable_jumps && ltb_ℤ n.listen_time (r.now -ℤ n.last_adjustment)
          then adjust_rate rate_offset (r.now -ℤ n.last_adjustment) r n
          else if n.enable_jumps
              && (ltb_ℤ (labs n.last_diff) (r.now -ℤ n.last_adjustment)
                  && not (equal_ℤ n.last_diff r.diff))
          then disable_jumps rate_offset r n
          else n

      bounded : (n : Monitor) → RateBounded n → RateBounded (continue n)
      bounded n k =
          adjusted_bounds (not n.enable_jumps && ltb_ℤ n.listen_time (r.now -ℤ n.last_adjustment))
            (n.enable_jumps
              && (ltb_ℤ (labs n.last_diff) (r.now -ℤ n.last_adjustment)
                  && not (equal_ℤ n.last_diff r.diff)))
            (r.now -ℤ n.last_adjustment) r n k

      go :
          (late : Bool) → RateBounded (continue (if late then set_print rate_offset r.now m else m))
      go true = bounded (set_print rate_offset r.now m) h
      go false = bounded m h

  monitor_playback_bounds :
      (r : Reading) (m : Monitor) → RateBounded m → RateBounded (monitor_playback rate_offset r m)
  unfolding RateBounded monitor_playback first_print
  monitor_playback_bounds r m h = elim (Bool-cases r.is_playing) [
    | inl playing ↦ elim (Bool-cases (is_zero m.last_print)) [
      | inl first ↦ simp (playing, first) h
      | inr later ↦ simp (playing, later) (monitor_on_bounds r m h)
    ]
    | inr silent ↦ simp silent h
  ]

  -- From a rate between half and double speed, whatever the floating-point computation gives, and
  -- whatever the clocks and the callback say: the rate stays between half and double speed.
  pub monitor_all_bounds :
      (readings : List Reading) (m : Monitor)
      → RateBounded m
      → RateBounded (monitor_all rate_offset readings m)
  unfolding monitor_all
  monitor_all_bounds [] m h = h
  monitor_all_bounds (r ∷ readings) m h =
      monitor_all_bounds readings (monitor_playback rate_offset r m) (monitor_playback_bounds r m h)
