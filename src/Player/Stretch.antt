-- ===== src/Player/Stretch.antt =====
-- The loop of the buffer queue callback that drops frames, step by step.
use audio_sync.Base.{
  ℕ, zero, suc, ◌+◌, ◌-◌, ◌*◌, ◌%◌, ◌≤◌, ◌<◌, ◌≡◌, ◌≢◌, refl, sym, ap, ◌∙◌, Bool, true, false, ◌&&◌,
  some, List, ◌∷◌, arith, ltb, ◌==◌, Bool-cases, inl, inr, get_elem?,
}
use audio_sync.Player.{Memory, set, Stretching, stretch_frame, stretch_from}
use audio_sync.Player.Kept.{goes, kept, to_go, goes-to_go, next_frame}

set_other : {A : Type 0} (memory : Memory A) (i j : ℕ) (x : A) → j ≢ i → set memory i x j ≡ memory j
set_other memory i j x h = rw (not_same j i h) refl
  where
    not_same : (a b : ℕ) → a ≢ b → (a == b) ≡ false
    not_same a b d = ground arith

set_same : {A : Type 0} (memory : Memory A) (i : ℕ) (x : A) → set memory i x i ≡ x
set_same memory i x = rw (same i) refl
  where
    same : (a : ℕ) → (a == a) ≡ true
    same a = ground arith

module _ {A : Type 0} (blend : A → A → A) where
  abbrev pub dropped : ℕ → Stretching A → Stretching A
  dropped frame s = record {
    memory = set s.memory s.n_frame (blend (s.memory frame) (s.memory (frame + 1)));
    n_frame = s.n_frame;
    drop = s.drop - 1;
  }

  abbrev pub moved : ℕ → Stretching A → Stretching A
  moved frame s = record {
    memory = set s.memory s.n_frame (s.memory frame);
    n_frame = s.n_frame + 1;
    drop = s.drop;
  }

  drops :
      (modulus frame : ℕ) (s : Stretching A)
      → (ltb 0 s.drop && frame % modulus == 0) ≡ true
      → stretch_frame blend modulus frame s ≡ dropped frame s
  unfolding stretch_frame
  drops modulus frame s h = simp h refl

  moves :
      (modulus frame : ℕ) (s : Stretching A)
      → (ltb 0 s.drop && frame % modulus == 0) ≡ false
      → stretch_frame blend modulus frame s ≡ moved frame s
  unfolding stretch_frame
  moves modulus frame s h = simp h refl

  pub from_drops :
      (modulus remaining frame : ℕ) (s : Stretching A)
      → (ltb 0 s.drop && frame % modulus == 0) ≡ true
      → stretch_from blend modulus (suc remaining) frame s
        ≡ stretch_from blend modulus remaining (frame + 1) (dropped frame s)
  unfolding stretch_from
  from_drops modulus remaining frame s h =
      ap (stretch_from blend modulus remaining (frame + 1)) (drops modulus frame s h)

  pub from_moves :
      (modulus remaining frame : ℕ) (s : Stretching A)
      → (ltb 0 s.drop && frame % modulus == 0) ≡ false
      → stretch_from blend modulus (suc remaining) frame s
        ≡ stretch_from blend modulus remaining (frame + 1) (moved frame s)
  unfolding stretch_from
  from_moves modulus remaining frame s h =
      ap (stretch_from blend modulus remaining (frame + 1)) (moves modulus frame s h)

  -- What was put into its place stays there.
  placed_stays :
      (modulus remaining frame : ℕ) (s : Stretching A) (j : ℕ)
      → j < s.n_frame
      → (stretch_from blend modulus remaining frame s).memory j ≡ s.memory j
  unfolding stretch_from
  placed_stays modulus zero frame s j h = refl
  placed_stays modulus (suc remaining) frame s j h =
      elim (Bool-cases (ltb 0 s.drop && frame % modulus == 0)) [
        | inl e ↦ rw (from_drops modulus remaining frame s e) (
            placed_stays modulus remaining (frame + 1) (dropped frame s) j h
            ∙ set_other s.memory s.n_frame j (blend (s.memory frame) (s.memory (frame + 1)))
                (λ k. omega (arith, k)))
        | inr e ↦ rw (from_moves modulus remaining frame s e) (
            placed_stays modulus remaining (frame + 1) (moved frame s) j (omega arith)
            ∙ set_other s.memory s.n_frame j (s.memory frame) (λ k. omega (arith, k)))
      ]

  -- Each frame is placed or dropped.
  pub counted :
      (modulus remaining frame : ℕ) (s : Stretching A)
      → (stretch_from blend modulus remaining frame s).n_frame + s.drop
        ≡ s.n_frame + remaining + (stretch_from blend modulus remaining frame s).drop
  unfolding stretch_from
  counted modulus zero frame s = omega arith
  counted modulus (suc remaining) frame s =
      elim (Bool-cases (ltb 0 s.drop && frame % modulus == 0)) [
        | inl e ↦ rw (from_drops modulus remaining frame s e) (
            omega (
              arith,
              counted modulus remaining (frame + 1) (dropped frame s),
              some_left s.drop (frame % modulus == 0) e,
            ))
        | inr e ↦
            rw (from_moves modulus remaining frame s e)
              (omega (arith, counted modulus remaining (frame + 1) (moved frame s)))
      ]
    where
      some_left : (n : ℕ) (b : Bool) → (ltb 0 n && b) ≡ true → 0 < n
      some_left n b h = ground arith

  pub counter_goes :
      (modulus total q r frame : ℕ) (s : Stretching A)
      → r < modulus
      → frame ≡ modulus * q + r
      → s.drop ≡ to_go total q r
      → (ltb 0 s.drop && frame % modulus == 0) ≡ goes modulus total frame
  counter_goes modulus total q r frame s bound e counter =
      ap (λ n. ltb 0 n && frame % modulus == 0) counter
      ∙ sym (goes-to_go modulus total q r frame bound e)

  dropped_same :
      (source : Memory A) (frame : ℕ) (s : Stretching A)
      → s.n_frame ≤ frame
      → ((j : ℕ) → frame ≤ j → s.memory j ≡ source j)
      → (j : ℕ) → frame + 1 ≤ j
      → (dropped frame s).memory j ≡ source j
  dropped_same source frame s behind same j le =
      set_other s.memory s.n_frame j (blend (s.memory frame) (s.memory (frame + 1)))
        (λ h. omega (arith, h, behind, le))
      ∙ same j (omega arith)

  moved_same :
      (source : Memory A) (frame : ℕ) (s : Stretching A)
      → s.n_frame ≤ frame
      → ((j : ℕ) → frame ≤ j → s.memory j ≡ source j)
      → (j : ℕ) → frame + 1 ≤ j
      → (moved frame s).memory j ≡ source j
  moved_same source frame s behind same j le =
      set_other s.memory s.n_frame j (s.memory frame) (λ h. omega (arith, h, behind, le))
      ∙ same j (omega arith)

  at_place :
      (source out : Memory A) (n frame : ℕ) (rest : List ℕ) (i k : ℕ)
      → out n ≡ source frame
      → ((j : ℕ) → get_elem? rest j ≡ some k → out (n + 1 + j) ≡ source k)
      → get_elem? (frame ∷ rest) i ≡ some k
      → out (n + i) ≡ source k
  at_place source out n frame rest zero k here later there =
      let same : frame ≡ k = cc there in ap out (omega arith) ∙ here ∙ ap source same
  at_place source out n frame rest (suc i) k here later there = ap out (omega arith) ∙ later i there

  -- The i-th frame that stays is put at the i-th place behind those that are there. The buffer has
  -- not been changed from `frame` on.
  pub placed :
      (source : Memory A) (modulus total remaining q r frame i k : ℕ) (s : Stretching A)
      → r < modulus
      → frame ≡ modulus * q + r
      → s.drop ≡ to_go total q r
      → s.n_frame ≤ frame
      → ((j : ℕ) → frame ≤ j → s.memory j ≡ source j)
      → get_elem? (kept modulus total remaining frame) i ≡ some k
      → (stretch_from blend modulus remaining frame s).memory (s.n_frame + i) ≡ source k
  unfolding kept
  placed source modulus total zero q r frame i k s bound e counter behind same there =
      absurd (cc there)
  placed source modulus total (suc remaining) q r frame i k s bound e counter behind same there =
      let next = next_frame modulus total q r frame bound e in
      elim (Bool-cases (goes modulus total frame)) [
        | inl go ↦
            rw
              (from_drops modulus remaining frame s
                (counter_goes modulus total q r frame s bound e counter ∙ go))
              (placed source modulus total remaining next.0 next.1 (frame + 1) i k (dropped frame s)
                next.2 next.3 (ap (λ n. n - 1) counter ∙ rw go at next.4) (omega (arith, behind))
                (dropped_same source frame s behind same) (rw go at there))
        | inr stay ↦
            rw
              (from_moves modulus remaining frame s
                (counter_goes modulus total q r frame s bound e counter ∙ stay))
              (at_place source
                (stretch_from blend modulus remaining (frame + 1) (moved frame s)).memory s.n_frame
                frame (kept modulus total remaining (frame + 1)) i k
                (placed_stays modulus remaining (frame + 1) (moved frame s) s.n_frame (omega arith)
                  ∙ set_same s.memory s.n_frame (s.memory frame)
                  ∙ same frame (omega arith))
                (λ j found.
                  placed source modulus total remaining next.0 next.1 (frame + 1) j k
                    (moved frame s) next.2 next.3 (counter ∙ rw stay at next.4)
                    (omega (arith, behind)) (moved_same source frame s behind same) found)
                (rw stay at there))
      ]
