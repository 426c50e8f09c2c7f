-- ===== src/Fifo/Size.antt =====
-- The `size_t` differences of audioutils/fifo.cpp, where they do not wrap.
use audio_sync.Base.{ℕ, ◌-◌, ◌^◌, ◌≤◌, ◌<◌, ◌≡◌, true, arith, ltb, ◌==◌, if◌then◌else◌, min}
use audio_sync.Base.Word.{sub64}

-- The smaller of a count and a `size_t` difference.
pub smaller_lem :
    (count total taken : ℕ)
    → taken ≤ total
    → total < 2 ^ 31
    → (let room = sub64 total taken in if ltb count room then count else room)
      ≡ min count (total - taken)
smaller_lem count total taken le small = ground arith

pub sub64_lem : (a b : ℕ) → b ≤ a → a < 2 ^ 31 → sub64 a b ≡ a - b
sub64_lem a b le small = omega arith

pub min-zero : (x : ℕ) → (min 0 x == 0) ≡ true
min-zero x = ground arith
