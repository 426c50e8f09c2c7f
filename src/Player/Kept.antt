-- ===== src/Player/Kept.antt =====
-- Which frames are to stay when `drop` frames are taken out at equal distances.
use audio_sync.Base.{
  ℕ, zero, suc, ◌+◌, ◌-◌, ◌*◌, ◌/◌, ◌%◌, ◌<◌, ◌≡◌, Bool, ◌&&◌, List, [], ◌∷◌, arith, ltb, ◌==◌,
  if◌then◌else◌, dec_lt,
}
use audio_sync.Base.Word.{div_unique, mod_unique}

-- The first `drop` frames whose number is a multiple of `modulus` go.
unfoldable pub goes : ℕ → ℕ → ℕ → Bool
goes modulus drop frame = frame % modulus == 0 && ltb (frame / modulus) drop

-- The frames that stay, among so many from a frame on, in ascending order.
unfoldable pub kept : ℕ → ℕ → ℕ → ℕ → List ℕ
kept modulus drop zero frame = []
kept modulus drop (suc remaining) frame =
    let rest = kept modulus drop remaining (frame + 1) in
    if goes modulus drop frame then rest else frame ∷ rest

-- How many are still to go before frame `modulus * q + r`.
abbrev pub to_go : ℕ → ℕ → ℕ → ℕ
to_go drop q zero = drop - q
to_go drop q (suc r) = drop - suc q

-- The loop's counter agrees with the number of the frame.
pub goes-to_go :
    (modulus drop q r frame : ℕ)
    → r < modulus
    → frame ≡ modulus * q + r
    → goes modulus drop frame ≡ (ltb 0 (to_go drop q r) && frame % modulus == 0)
unfolding goes
goes-to_go modulus drop q zero frame bound e =
    rw (e, mod_unique modulus q 0 bound, div_unique modulus q 0 bound) (ground arith)
goes-to_go modulus drop q (suc r) frame bound e =
    rw (e, mod_unique modulus q (suc r) bound) (ground arith)

mul_suc : (m q : ℕ) → m * suc q ≡ m * q + m
mul_suc m q = grind arith

counter_next :
    (drop q r : ℕ)
    → (if ltb 0 (to_go drop q r) && r == 0 then to_go drop q r - 1 else to_go drop q r)
      ≡ drop - suc q
counter_next drop q zero = ground arith
counter_next drop q (suc r) = ground arith

remainder : (modulus q r frame : ℕ) → r < modulus → frame ≡ modulus * q + r → frame % modulus ≡ r
remainder modulus q r frame bound e = rw e (mod_unique modulus q r bound)

-- The quotient and the remainder of the next frame, and the counter there.
pub next_frame :
    (modulus drop q r frame : ℕ)
    → r < modulus
    → frame ≡ modulus * q + r
    → (q' : ℕ) × (r' : ℕ) × (r' < modulus)
      × (frame + 1 ≡ modulus * q' + r')
      × ((if goes modulus drop frame then to_go drop q r - 1 else to_go drop q r)
          ≡ to_go drop q' r')
next_frame modulus drop q r frame bound e = elim (dec_lt (suc r) modulus) [
  | yes inside ↦ (
    q,
    suc r,
    inside,
    omega (arith, e),
    rw (goes-to_go modulus drop q r frame bound e, remainder modulus q r frame bound e)
        (counter_next drop q r),
  )
  | no over ↦ (
    suc q,
    0,
    omega arith,
    omega (arith, e, mul_suc modulus q),
    rw (goes-to_go modulus drop q r frame bound e, remainder modulus q r frame bound e)
        (counter_next drop q r),
  )
]
