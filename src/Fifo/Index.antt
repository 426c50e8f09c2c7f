-- ===== src/Fifo/Index.antt =====
-- The 32-bit indices of audioutils/fifo.cpp: a generation, which is a multiple of the power of two
-- 2 ^ k, and a position below it.
use Prim.Native.Nat.{bit_and}
use mathlib.Core.Path.{subst}
use audio_sync.Base.{ℕ, ◌+◌, ◌-◌, ◌*◌, ◌/◌, ◌%◌, ◌^◌, ◌≤◌, ◌<◌, ◌≡◌, sym, ap, ◌∙◌, arith, dec_lt}
use audio_sync.Base.Word.{pow_two-pos, pow_two-add, pow_two_mono, mod_unique, bit_and-mask, sub64}
use native.Mathlib.Nat.{mod-eq_of_lt, div-add-mod, mul-le-mul_left}

mul-add-le : (p q m : ℕ) → p * q < p * m → p * q + p ≤ p * m
mul-add-le p q m h = elim (dec_lt q m) [
  | yes lt ↦ omega (arith, mul-le-mul_left p lt)
  | no ge ↦ absurd (let le : m ≤ q = omega arith in omega (arith, mul-le-mul_left p le))
]

add_zero_right : (n : ℕ) → n ≡ n + 0
add_zero_right n = omega arith

-- The place of index `i` in its generation, and where that generation begins.
abbrev pub position : ℕ → ℕ → ℕ
position p i = i % p

abbrev pub base : ℕ → ℕ → ℕ
base p i = i - i % p

module _ (k : ℕ) (small : k ≤ 31) where
  position-lt : (i : ℕ) → position (2 ^ k) i < 2 ^ k
  position-lt i = omega (arith, pow_two-pos k)

  base-eq-mul : (i : ℕ) → base (2 ^ k) i ≡ 2 ^ k * (i / 2 ^ k)
  base-eq-mul i = omega (arith, div-add-mod i (2 ^ k))

  words : 2 ^ 32 ≡ 2 ^ k * 2 ^ (32 - k)
  words = ap (λ t. 2 ^ t) sum ∙ pow_two-add k (32 - k)
    where
      sum : 32 ≡ k + (32 - k)
      sum = omega arith

  -- There is room for a whole generation above a base.
  base_room : (i : ℕ) → i < 2 ^ 32 → base (2 ^ k) i + 2 ^ k ≤ 2 ^ 32
  base_room i h = omega (
    arith,
    words,
    base-eq-mul i,
    mul-add-le (2 ^ k) (i / 2 ^ k) (2 ^ (32 - k)) (omega (arith, words, base-eq-mul i)),
  )

  position-base_add : (i x : ℕ) → x < 2 ^ k → position (2 ^ k) (base (2 ^ k) i + x) ≡ x
  position-base_add i x h =
      ap (position (2 ^ k)) (ap (λ t. t + x) (base-eq-mul i)) ∙ mod_unique (2 ^ k) (i / 2 ^ k) x h

  position-next_add : (i x : ℕ) → x < 2 ^ k → position (2 ^ k) (base (2 ^ k) i + 2 ^ k + x) ≡ x
  position-next_add i x h = ap (position (2 ^ k)) whole ∙ mod_unique (2 ^ k) (i / 2 ^ k + 1) x h
    where
      whole : base (2 ^ k) i + 2 ^ k + x ≡ 2 ^ k * (i / 2 ^ k + 1) + x
      whole = omega (arith, base-eq-mul i)

  -- An index that stays in its generation, and one that goes to the next.
  add_stays :
      (i x : ℕ)
      → i < 2 ^ 32
      → x < 2 ^ k
      → let j = (base (2 ^ k) i + x) % 2 ^ 32 in
        (position (2 ^ k) j ≡ x) × (base (2 ^ k) j ≡ base (2 ^ k) i) × (j < 2 ^ 32)
  add_stays i x hi hx =
      let j : ℕ = (base (2 ^ k) i + x) % 2 ^ 32 in
      let e : j ≡ base (2 ^ k) i + x = omega (arith, base_room i hi) in
      let p : position (2 ^ k) j ≡ x = ap (position (2 ^ k)) e ∙ position-base_add i x hx in
      (p, omega arith, omega arith)

  add_turns :
      (i x : ℕ)
      → i < 2 ^ 32
      → x < 2 ^ k
      → let j = (base (2 ^ k) i + 2 ^ k + x) % 2 ^ 32 in
        (position (2 ^ k) j ≡ x)
        × (base (2 ^ k) j ≡ (base (2 ^ k) i + 2 ^ k) % 2 ^ 32)
        × (j < 2 ^ 32)
  add_turns i x hi hx = elim (dec_lt (base (2 ^ k) i + 2 ^ k) (2 ^ 32)) [
    | yes inside ↦
        let j : ℕ = (base (2 ^ k) i + 2 ^ k + x) % 2 ^ 32 in
        let turn : position (2 ^ k) (base (2 ^ k) i + 2 ^ k) ≡ 0 =
          ap (position (2 ^ k)) (add_zero_right (base (2 ^ k) i + 2 ^ k))
          ∙ position-next_add i 0 (pow_two-pos k) in
        let e : j ≡ base (2 ^ k) i + 2 ^ k + x =
          omega (arith, base_room (base (2 ^ k) i + 2 ^ k) inside) in
        let p : position (2 ^ k) j ≡ x = ap (position (2 ^ k)) e ∙ position-next_add i x hx in
        (p, omega arith, omega arith)
    | no last ↦
        let j : ℕ = (base (2 ^ k) i + 2 ^ k + x) % 2 ^ 32 in
        let full : base (2 ^ k) i + 2 ^ k ≡ 2 ^ 32 = omega (arith, base_room i hi) in
        let e : j ≡ x = omega (arith, pow_two_mono k 31 small) in
        let p : position (2 ^ k) j ≡ x = ap (position (2 ^ k)) e ∙ mod-eq_of_lt hx in
        (p, omega arith, omega arith)
  ]

-- The low bits of a mask `p - 1`, and its complement, as `sum` and `diff` compute them.
abbrev pub mask_of : ℕ → ℕ
mask_of p = sub64 p 1 % 2 ^ 32

-- What the code needs of the power of two `p`.
pub record Generations (p : ℕ) : Type 0 where
  pub positive : 0 < p
  pub bounded : p ≤ 2 ^ 31
  pub low : (i : ℕ) → bit_and i (mask_of p) ≡ position p i
  pub low_size : (i : ℕ) → bit_and i (sub64 p 1) ≡ position p i
  pub high : (i : ℕ) → i < 2 ^ 32 → bit_and i (2 ^ 32 - 1 - mask_of p) ≡ base p i
  pub room : (i : ℕ) → i < 2 ^ 32 → base p i + p ≤ 2 ^ 32
  pub stays :
      (i x : ℕ)
      → i < 2 ^ 32
      → x < p
      → let j = (base p i + x) % 2 ^ 32 in (position p j ≡ x) × (base p j ≡ base p i) × (j < 2 ^ 32)
  pub turns :
      (i x : ℕ)
      → i < 2 ^ 32
      → x < p
      → let j = (base p i + p + x) % 2 ^ 32 in
        (position p j ≡ x) × (base p j ≡ (base p i + p) % 2 ^ 32) × (j < 2 ^ 32)

module _ (k : ℕ) (small : k ≤ 31) where
  mask_at : (m n i : ℕ) → m ≤ n → (b : ℕ) → b ≡ 2 ^ n - 2 ^ m → bit_and i b ≡ i % 2 ^ n - i % 2 ^ m
  mask_at m n i h b e = ap (bit_and i) e ∙ bit_and-mask n m i h

  of_exponent : Generations (2 ^ k)
  of_exponent = record {
    positive = pow_two-pos k;
    bounded = pow_two_mono k 31 small;
    low = λ i. omega (
      arith,
      mask_at 0 k i (omega arith) (mask_of (2 ^ k))
          (omega (arith, pow_two-pos k, pow_two_mono k 31 small)),
    );
    low_size = λ i. omega (
      arith,
      mask_at 0 k i (omega arith) (sub64 (2 ^ k) 1)
          (omega (arith, pow_two-pos k, pow_two_mono k 31 small)),
    );
    high = λ i h. omega (
      arith,
      mask_at k 32 i (omega arith) (2 ^ 32 - 1 - mask_of (2 ^ k))
          (omega (arith, pow_two-pos k, pow_two_mono k 31 small)),
    );
    room = base_room k small;
    stays = add_stays k small;
    turns = add_turns k small;
  }

pub generations : (p k : ℕ) → p ≡ 2 ^ k → k ≤ 31 → Generations p
generations p k e small = subst Generations (sym e) (of_exponent k small)
