-- ===== src/Base/Word.antt =====
-- Unsigned machine words: wrapping sums, powers of two, and masks.
use Prim.Native.Nat.{
  bit_and, digits, bit_and-bitwise, ℕ, zero, suc, ◌+◌, ◌-◌, ◌*◌, ◌/◌, ◌%◌, ◌^◌, ◌≤◌, ◌<◌, min,
}
use Prim.Native.Nat.add
use mathlib.Core.Path.{◌≡◌, refl, sym, ap, ◌∙◌}
use native.Mathlib.Nat.{div-add-mod}
use native.Mathlib.Omega.{arith}

-- `uint32_t` sums and differences, also of the bit patterns of `int32_t` values.
abbrev pub add32 : ℕ → ℕ → ℕ
add32 a b = (a + b) % 2 ^ 32

abbrev pub sub32 : ℕ → ℕ → ℕ
sub32 a b = (a + 2 ^ 32 - b) % 2 ^ 32

-- `size_t` differences.
abbrev pub sub64 : ℕ → ℕ → ℕ
sub64 a b = (a + 2 ^ 64 - b) % 2 ^ 64

pub pow_two-suc : (k : ℕ) → 2 ^ suc k ≡ 2 * 2 ^ k
pow_two-suc k = omega arith

pub pow_two-pos : (k : ℕ) → 1 ≤ 2 ^ k
pow_two-pos zero = omega arith
pow_two-pos (suc k) = omega (arith, pow_two-pos k)

pub pow_two-add : (a b : ℕ) → 2 ^ (a + b) ≡ 2 ^ a * 2 ^ b
pow_two-add zero b = rw add.zero (omega arith)
pow_two-add (suc a) b = rw add.suc (rw (pow_two-suc, pow_two-suc, pow_two-add a b) (omega arith))

pub pow_two_mono : (a b : ℕ) → a ≤ b → 2 ^ a ≤ 2 ^ b
pow_two_mono zero b h = pow_two-pos b
pow_two_mono (suc a) zero h = absurd (omega arith)
pow_two_mono (suc a) (suc b) h = omega (arith, pow_two_mono a b (omega arith))

-- `&` takes the smaller of each two digits: the recursion that the native operation stands for.
abbrev anded : ℕ → ℕ → ℕ → ℕ
anded fuel x y = digits (λ _. 0) min fuel x y

-- Fuel beyond the first number changes nothing.
anded-suc : (fuel x y : ℕ) → x ≤ fuel → anded (suc fuel) x y ≡ anded fuel x y
anded-suc fuel zero y le = anded_none fuel y
  where
    anded_none : (m y : ℕ) → anded (suc m) 0 y ≡ anded m 0 y
    anded_none zero y = refl
    anded_none (suc m) y = refl
anded-suc zero (suc x) y le = absurd (omega arith)
anded-suc (suc fuel) (suc x) y le = omega (arith, anded-suc fuel (suc x / 2) (y / 2) (omega arith))

anded-add : (k fuel x y : ℕ) → x ≤ fuel → anded (k + fuel) x y ≡ anded fuel x y
anded-add zero fuel x y le = rw add.zero
anded-add (suc k) fuel x y le =
    rw add.suc (anded-suc (k + fuel) x y (omega arith) ∙ anded-add k fuel x y le)

anded-bit_and : (fuel x y : ℕ) → x ≤ fuel → anded fuel x y ≡ bit_and x y
anded-bit_and fuel x y le =
    ap (λ t. anded t x y) split
    ∙ anded-add (fuel - x) x x y (omega arith)
    ∙ sym (bit_and-bitwise x y)
  where
    split : fuel ≡ fuel - x + x
    split = omega arith

nothing_and : (y : ℕ) → bit_and 0 y ≡ 0
nothing_and y = sym (anded-bit_and 0 0 y (omega arith))

halves : (x y : ℕ) → bit_and x y ≡ 2 * bit_and (x / 2) (y / 2) + min (x % 2) (y % 2)
halves zero y = omega (arith, nothing_and y, nothing_and (y / 2))
halves (suc x) y = omega (
  arith,
  anded-bit_and (suc x) (suc x) y (omega arith),
  anded-bit_and x (suc x / 2) (y / 2) (omega arith),
)

-- Induction on a bound of the first number.
and_nothing : (bound x : ℕ) → x ≤ bound → bit_and x 0 ≡ 0
and_nothing bound zero le = nothing_and 0
and_nothing zero (suc x) le = absurd (omega arith)
and_nothing (suc bound) (suc x) le =
    omega (arith, halves (suc x) 0, and_nothing bound (suc x / 2) (omega arith))

-- Quotient and remainder are determined by their equation.
pub div_unique : (m q r : ℕ) → r < m → (m * q + r) / m ≡ q
div_unique m q r h = grind arith

pub mod_unique : (m q r : ℕ) → r < m → (m * q + r) % m ≡ r
mod_unique m q r h = grind arith

mod_double : (m a : ℕ) → 0 < m → a % (2 * m) ≡ 2 * (a / 2 % m) + a % 2
mod_double m a h =
    ap (λ t. t % (2 * m)) whole
    ∙ mod_unique (2 * m) (a / 2 / m) (2 * (a / 2 % m) + a % 2) (omega arith)
  where
    whole : a ≡ 2 * m * (a / 2 / m) + (2 * (a / 2 % m) + a % 2)
    whole = omega (arith, div-add-mod (a / 2) m)

mod_pow-suc : (k a : ℕ) → a % 2 ^ suc k ≡ 2 * (a / 2 % 2 ^ k) + a % 2
mod_pow-suc k a = rw pow_two-suc (mod_double (2 ^ k) a (pow_two-pos k))

bit_and-mask_half :
    (n k a b : ℕ)
    → b / 2 ≡ 2 ^ n - 2 ^ k
    → bit_and (a / 2) (2 ^ n - 2 ^ k) ≡ a / 2 % 2 ^ n - a / 2 % 2 ^ k
    → bit_and (a / 2) (b / 2) ≡ a / 2 % 2 ^ n - a / 2 % 2 ^ k
bit_and-mask_half n k a b e h = rw e h

-- A mask of the bits from `k` up to `n`.
pub bit_and-mask : (n k a : ℕ) → k ≤ n → bit_and a (2 ^ n - 2 ^ k) ≡ a % 2 ^ n - a % 2 ^ k
bit_and-mask zero zero a h = omega (arith, and_nothing a a (omega arith))
bit_and-mask zero (suc k) a h = absurd (omega arith)
bit_and-mask (suc n) zero a h = omega (
  arith,
  halves a (2 ^ suc n - 2 ^ 0),
  bit_and-mask_half n zero a (2 ^ suc n - 2 ^ 0) (omega (arith, pow_two-suc n, pow_two-pos n))
      (bit_and-mask n zero (a / 2) (omega arith)),
  pow_two-suc n,
  pow_two-pos n,
  mod_pow-suc n a,
)
bit_and-mask (suc n) (suc k) a h = omega (
  arith,
  halves a (2 ^ suc n - 2 ^ suc k),
  bit_and-mask_half n k a (2 ^ suc n - 2 ^ suc k) (omega (arith, pow_two-suc n, pow_two-suc k))
      (bit_and-mask n k (a / 2) (omega arith)),
  pow_two_mono k n (omega arith),
  pow_two-suc n,
  pow_two-suc k,
  mod_pow-suc n a,
  mod_pow-suc k a,
)
