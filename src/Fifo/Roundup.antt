-- ===== src/Fifo/Roundup.antt =====
-- `roundup` of audioutils/fifo.cpp.
use audio_sync.Base.{
  ℕ, zero, suc, ◌+◌, ◌-◌, ◌*◌, ◌/◌, ◌^◌, ◌≤◌, ◌<◌, ◌≡◌, refl, ap, ◌∙◌, false, arith, ◌==◌, dec_lt,
}
use audio_sync.Base.Word.{pow_two-suc, pow_two-pos, pow_two-add, pow_two_mono, div_unique}
use audio_sync.Fifo.{bit_length, clz, round_shifted, roundup}

bit_length-zero : (fuel : ℕ) → bit_length fuel 0 ≡ 0
unfolding bit_length
bit_length-zero zero = refl
bit_length-zero (suc fuel) = refl

record HasLength (fuel n k : ℕ) : Type 0 where
  counted : bit_length fuel n ≡ suc k
  above : 2 ^ k ≤ n
  below : n < 2 ^ suc k
  short : k < fuel

-- With enough fuel `bit_length` finds the highest digit.
bit_length_bounds : (fuel n : ℕ) → 0 < n → n < 2 ^ fuel → (k : ℕ) × HasLength fuel n k
unfolding bit_length
bit_length_bounds zero n pos fits = absurd (omega arith)
bit_length_bounds (suc fuel) n pos fits = elim (dec_lt 1 n) [
  | yes big ↦
      let (k, h) = bit_length_bounds fuel (n / 2) (omega arith) (omega (arith, pow_two-suc fuel)) in
      (
        suc k,
        record {
          counted = ground (arith, h.counted);
          above = omega (arith, pow_two-suc k, h.above);
          below = omega (arith, pow_two-suc (suc k), h.below);
          short = omega (arith, h.short);
        },
      )
  | no small ↦ (
    0,
    record {
      counted = ground (arith, bit_length-zero fuel);
      above = omega arith;
      below = omega arith;
      short = omega arith;
    },
  )
]

shift_down : (k : ℕ) → k ≤ 31 → 2 ^ 31 / 2 ^ (31 - k) ≡ 2 ^ k
shift_down k h =
    ap (λ t. t / 2 ^ (31 - k)) whole ∙ div_unique (2 ^ (31 - k)) (2 ^ k) 0 (pow_two-pos (31 - k))
  where
    whole : 2 ^ 31 ≡ 2 ^ (31 - k) * 2 ^ k + 0
    whole = omega (arith, pow_two-add (31 - k) k, ap (λ t. 2 ^ t) sum)
      where
        sum : 31 - k + k ≡ 31
        sum = omega arith

roundup_eq : (v k : ℕ) → 0 < v → bit_length 32 v ≡ suc k → roundup v ≡ round_shifted v (31 - k)
unfolding roundup clz
roundup_eq v k pos e = rw (positive, e) (ap (round_shifted v) (omega arith))
  where
    positive : (v == 0) ≡ false
    positive = ground arith

pow_lt-lt : (a b : ℕ) → 2 ^ a < 2 ^ b → a < b
pow_lt-lt a b h = elim (dec_lt a b) [
  | yes p ↦ p
  | no q ↦ absurd (omega (arith, pow_two_mono b a (omega arith)))
]

round_shifted_lem :
    (v k : ℕ)
    → k ≤ 31
    → 2 ^ k ≤ v
    → v < 2 ^ suc k
    → v ≤ 2 ^ 31
    → (j : ℕ) × (j ≤ 31) × (round_shifted v (31 - k) ≡ 2 ^ j) × (v ≤ 2 ^ j) × (2 ^ j < 2 * v)
unfolding round_shifted
round_shifted_lem v k short above below le = elim (dec_lt (2 ^ k) v) [
  | yes up ↦
      let not_last : k < 31 = pow_lt-lt k 31 (omega arith) in
      (
        suc k,
        not_last,
        ground (arith, shift_down k short, pow_two-suc k, pow_two_mono (suc k) 31 not_last),
        omega (arith, pow_two-suc k),
        omega (arith, pow_two-suc k),
      )
  | no exact ↦
      (k, short, ground (arith, shift_down k short), omega arith, omega (arith, pow_two-pos k))
]

-- For 0 < v ≤ 2 ^ 31 the result is a power of two, at least `v` and below `2 * v`.
pub roundup_bounds :
    (v : ℕ)
    → 0 < v
    → v ≤ 2 ^ 31
    → (k : ℕ) × (k ≤ 31) × (roundup v ≡ 2 ^ k) × (v ≤ roundup v) × (roundup v < 2 * v)
roundup_bounds v pos le =
    let (k, h) = bit_length_bounds 32 v pos (omega arith) in
    let (j, small, e, lo, hi) = round_shifted_lem v k (omega (arith, h.short)) h.above h.below le in
    let same : roundup v ≡ round_shifted v (31 - k) = roundup_eq v k pos h.counted in
    let value : roundup v ≡ 2 ^ j = same ∙ e in (j, small, value, rw value lo, rw value hi)
