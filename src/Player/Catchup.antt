-- ===== src/Player/Catchup.antt =====
-- What the buffer queue callback has in its buffer after it dropped frames.
use audio_sync.Base.{
  ℕ, zero, suc, ◌+◌, ◌-◌, ◌*◌, ◌/◌, ◌≤◌, ◌<◌, ◌≡◌, refl, ap, ◌∙◌, false, some, List, [], ◌∷◌, arith,
  ◌==◌, Bool-cases, inl, inr, length, get_elem?,
}
use native.Mathlib.Nat.{le-div_iff_mul-le, div-mul-le_self}
use audio_sync.Base.Word.{div_unique}
use audio_sync.Player.{Memory, Stretching, stretch_from, stretch}
use audio_sync.Player.Kept.{goes, kept, to_go, next_frame}
use audio_sync.Player.Stretch.{
  dropped, moved, from_drops, from_moves, counted, placed, counter_goes,
}

none_to_go :
    (modulus total q r frame : ℕ)
    → r < modulus
    → frame ≡ modulus * q + r
    → total * modulus ≤ frame
    → to_go total q r ≡ 0
none_to_go modulus total q r frame bound e enough = zero_left total q r (within bound)
  where
    within : r < modulus → total ≤ q
    within h = omega (
      arith,
      (le-div_iff_mul-le {k = modulus} {x = total} {y = frame} (omega (arith, h))).1 enough,
      ap (λ n. n / modulus) e ∙ div_unique modulus q r h,
    )

    zero_left : (t a b : ℕ) → t ≤ a → to_go t a b ≡ 0
    zero_left t a zero h = omega arith
    zero_left t a (suc b) h = omega arith

get_elem?-some : (xs : List ℕ) (i : ℕ) → i < length xs → (k : ℕ) × (get_elem? xs i ≡ some k)
get_elem?-some [] i h = absurd (omega arith)
get_elem?-some (x ∷ xs) zero h = (x, refl)
get_elem?-some (x ∷ xs) (suc i) h = get_elem?-some xs i (omega arith)

not_zero : (n : ℕ) → 0 < n → (n == 0) ≡ false
not_zero n h = ground arith

module _ {A : Type 0} (blend : A → A → A) where
  -- All are gone in the end, and each frame that stays has its place.
  ended :
      (modulus total remaining q r frame : ℕ) (s : Stretching A)
      → r < modulus
      → frame ≡ modulus * q + r
      → s.drop ≡ to_go total q r
      → total * modulus ≤ frame + remaining
      → ((stretch_from blend modulus remaining frame s).drop ≡ 0)
        × ((stretch_from blend modulus remaining frame s).n_frame
            ≡ s.n_frame + length (kept modulus total remaining frame))
  unfolding stretch_from kept
  ended modulus total zero q r frame s bound e counter enough =
      (counter ∙ none_to_go modulus total q r frame bound e (omega (arith, enough)), omega arith)
  ended modulus total (suc remaining) q r frame s bound e counter enough =
      let next = next_frame modulus total q r frame bound e in
      elim (Bool-cases (goes modulus total frame)) [
        | inl go ↦
            rw
              (
                from_drops blend modulus remaining frame s
                    (counter_goes blend modulus total q r frame s bound e counter ∙ go),
                go,
              )
              (ended modulus total remaining next.0 next.1 (frame + 1) (dropped blend frame s)
                next.2 next.3 (ap (λ n. n - 1) counter ∙ rw go at next.4) (omega (arith, enough)))
        | inr stay ↦
            let rest =
              ended modulus total remaining next.0 next.1 (frame + 1) (moved blend frame s) next.2
                next.3 (counter ∙ rw stay at next.4) (omega (arith, enough)) in
            rw
              (
                from_moves blend modulus remaining frame s
                    (counter_goes blend modulus total q r frame s bound e counter ∙ stay),
                stay,
              )
              (rest.0, rest.1 ∙ omega arith)
      ]

  -- For 0 < drop ≤ frame_count: exactly `drop` frames are taken out, those whose numbers are the
  -- first multiples of frame_count / drop. The others stand at the start of the buffer, unchanged,
  -- all of them and in their order; the means of neighbouring frames are all written over.
  pub stretch_lem :
      (memory : Memory A) (frame_count drop i : ℕ)
      → 0 < drop
      → drop ≤ frame_count
      → i < frame_count - drop
      → (s : Stretching A) × (k : ℕ) × (stretch blend memory frame_count drop ≡ some s)
        × (s.drop ≡ 0)
        × (s.n_frame ≡ frame_count - drop)
        × (length (kept (frame_count / drop) drop frame_count 0) ≡ frame_count - drop)
        × (get_elem? (kept (frame_count / drop) drop frame_count 0) i ≡ some k)
        × (s.memory i ≡ memory k)
  unfolding stretch
  stretch_lem memory frame_count drop i some_drop enough inside =
      let modulus = frame_count / drop in
      let start : Stretching A = record { memory = memory; n_frame = 0; drop = drop } in
      let positive : 0 < modulus = omega (
        arith,
        (le-div_iff_mul-le {k = drop} {x = 1} {y = frame_count} some_drop).1 (omega arith),
      ) in
      let fits : drop * modulus ≤ 0 + frame_count =
        omega (arith, div-mul-le_self frame_count drop) in
      let counts =
        ended modulus drop frame_count 0 0 0 start positive (omega arith) (omega arith) fits in
      let total = counted blend modulus frame_count 0 start in
      let stays : length (kept modulus drop frame_count 0) ≡ frame_count - drop =
        omega (arith, counts.0, counts.1, total) in
      let (k, found) =
        get_elem?-some (kept modulus drop frame_count 0) i (omega (arith, stays, inside)) in
      (
        stretch_from blend modulus frame_count 0 start,
        k,
        rw (not_zero drop some_drop) refl,
        counts.0,
        omega (arith, counts.0, total),
        stays,
        found,
        ap (stretch_from blend modulus frame_count 0 start).memory (omega arith)
            ∙ placed blend memory modulus drop frame_count 0 0 0 i k start positive (omega arith)
                (omega arith) (omega arith) (λ j le. refl) found,
      )
