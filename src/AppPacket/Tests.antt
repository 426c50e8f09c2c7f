-- ===== src/AppPacket/Tests.antt =====
-- The theorems of the clocks and of the format parser at concrete inputs.
use audio_sync.Base.{
  ℕ, ◌*◌, ◌+◌, ◌≡◌, refl, none, some, List, [], ◌∷◌, ◌-◌, ltb, ◌||◌, if◌then◌else◌,
}
use audio_sync.Base.Int.{ℤ, pos}
use audio_sync.AppPacket.{
  create_format, scan, parse_attributes, parse_attribute, set_attribute, strchr, ptr_equal,
}
use audio_sync.AppPacket.Format.{described, create_format_lem}

-- `strtol` of the decimal digits that a text starts with.
digits : ℕ → List ℕ → ℤ × List ℕ
digits n [] = (pos n, [])
digits n (ch ∷ text) =
    let rest = digits (n * 10 + (ch - b'0')) text in
    if ltb ch b'0' || ltb b'9' ch then (pos n, ch ∷ text) else rest

-- "mime:string(a)"
abbrev one_attribute : List ℕ
one_attribute =
    b'm' ∷ b'i' ∷ b'm' ∷ b'e' ∷ b':' ∷ b's' ∷ b't' ∷ b'r' ∷ b'i' ∷ b'n' ∷ b'g' ∷ b'(' ∷ b'a' ∷ b')'
    ∷ []

-- "x: int32(2)"
abbrev spaced_attribute : List ℕ
spaced_attribute = b'x' ∷ b':' ∷ b' ' ∷ b'i' ∷ b'n' ∷ b't' ∷ b'3' ∷ b'2' ∷ b'(' ∷ b'2' ∷ b')' ∷ []

one_attribute_crashes : create_format (digits 0) (digits 0) one_attribute ≡ none
unfolding create_format parse_attributes parse_attribute set_attribute scan strchr ptr_equal
one_attribute_crashes = refl

spaced_attribute_sets_nothing : create_format (digits 0) (digits 0) spaced_attribute ≡ some []
unfolding create_format parse_attributes parse_attribute set_attribute scan strchr ptr_equal
spaced_attribute_sets_nothing = refl

create_format_lem_example :
    create_format (digits 0) (digits 0) spaced_attribute ≡ described (scan [] spaced_attribute)
create_format_lem_example = create_format_lem (digits 0) (digits 0) spaced_attribute
