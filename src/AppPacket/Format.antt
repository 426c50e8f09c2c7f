-- ===== src/AppPacket/Format.antt =====
-- What `audiostream_createFormat` makes of a text.
use audio_sync.Base.{
  ℕ, ◌≡◌, refl, ◌∙◌, Bool, true, false, ◌&&◌, Option, none, some, List, [], ◌∷◌, ◌==◌,
  if◌then◌else◌, ◌>>=◌, Bool-cases, Option-cases, ==_iff, inl, inr, drop,
}
use audio_sync.Base.Int.{ℤ}
use audio_sync.AppPacket.{
  address, scan, strchr, ptr_equal, Format, set_attribute, parse_attribute, parse_attributes,
  create_format,
}

-- A text that has a character.
pub has : ℕ → List ℕ → Bool
has ch [] = false
has ch (x ∷ text) = if x == ch then true else has ch text

-- A text with an opening bracket and a closing one behind it.
pub has_brackets : List ℕ → Bool
has_brackets [] = false
has_brackets (x ∷ text) = if x == b'(' then has b')' text else has_brackets text

-- A token that has the form of an attribute with a type and a value.
pub is_typed : List ℕ → Bool
is_typed attr = has b':' attr && has_brackets attr

pub any_typed : List (List ℕ) → Bool
any_typed [] = false
any_typed (attr ∷ attrs) = if is_typed attr then true else any_typed attrs

-- What is left of the parser: no token, or one of that form, and it reads an invalid address.
pub described : {F : Type 0} → List (List ℕ) → Option (Format F)
described [] = none
described (attr ∷ attrs) = if any_typed (attr ∷ attrs) then none else some []

found : {A : Type 0} → Option A → Bool
found none = false
found (some x) = true

strchr-has : (text : List ℕ) (ch : ℕ) → has ch text ≡ found (strchr text ch)
unfolding strchr has found
strchr-has [] ch = refl
strchr-has (x ∷ text) ch = elim (Bool-cases (x == ch)) [
  | inl e ↦ rw e refl
  | inr e ↦ rw e (strchr-has text ch)
]

strchr_behind :
    (x : ℕ) (text : List ℕ)
    → (x == b'(') ≡ true
    → found (strchr text b')') ≡ found (strchr (x ∷ text) b')')
unfolding strchr
strchr_behind x text h = rw ((==_iff x b'(').0 h) refl

brackets-strchr :
    (text : List ℕ) → has_brackets text ≡ found (strchr text b'(' >>= λ value. strchr value b')')
unfolding strchr has_brackets found
brackets-strchr [] = refl
brackets-strchr (x ∷ text) = elim (Bool-cases (x == b'(')) [
  | inl e ↦ rw e (strchr-has text b')' ∙ strchr_behind x text e)
  | inr e ↦ rw e (brackets-strchr text)
]

module _ {F : Type 0} (strtol : List ℕ → ℤ × List ℕ) (strtod : List ℕ → F × List ℕ) where
  -- The comparisons read an invalid address.
  set_attribute_fails :
      (format : Format F) (attr value stop : List ℕ) (a : ℕ)
      → set_attribute strtol strtod format attr (address a) value stop ≡ none
  unfolding set_attribute ptr_equal
  set_attribute_fails format attr value stop a = refl

  -- An attribute is passed over, or the read at an invalid address ends the run.
  parse_attribute_lem :
      (format : Format F) (attr : List ℕ)
      → parse_attribute strtol strtod format attr ≡ (if is_typed attr then none else some format)
  unfolding is_typed found parse_attribute
  parse_attribute_lem format attr =
      rw (strchr-has attr b':', brackets-strchr attr)
        (elim (Option-cases (strchr attr b':')) [
          | inl no_type ↦ rw (no_type, parse_attribute) refl
          | inr (type, typed) ↦ elim (Option-cases (strchr attr b'(')) [
            | inl no_value ↦ rw (typed, no_value, parse_attribute) refl
            | inr (value, opened) ↦ elim (Option-cases (strchr value b')')) [
              | inl no_stop ↦ rw (typed, opened, no_stop, parse_attribute) refl
              | inr (stop, closed) ↦
                  rw (typed, opened, closed, parse_attribute)
                    (set_attribute_fails format attr (drop 1 value) stop 1)
            ]
          ]
        ])

  parse_attributes_lem :
      (format : Format F) (attrs : List (List ℕ))
      → parse_attributes strtol strtod format attrs
        ≡ (if any_typed attrs then none else some format)
  unfolding parse_attributes any_typed
  parse_attributes_lem format [] = refl
  parse_attributes_lem format (attr ∷ attrs) = elim (Bool-cases (is_typed attr)) [
    | inl e ↦ rw (parse_attribute_lem format attr, e) refl
    | inr e ↦ rw (parse_attribute_lem format attr, e) (parse_attributes_lem format attrs)
  ]

  -- The parser reads an invalid address when the text has no token, or a token with a colon and a
  -- pair of brackets; of every other text it makes an empty format. So no text sets an entry.
  pub create_format_lem :
      (text : List ℕ) → create_format strtol strtod text ≡ described (scan [] text)
  unfolding create_format described
  create_format_lem text = go (scan [] text)
    where
      go :
          (tokens : List (List ℕ))
          → elim tokens [
            | [] ↦ none
            | attr ∷ attrs ↦ parse_attributes strtol strtod [] (attr ∷ attrs)
          ]
            ≡ described tokens
      go [] = refl
      go (attr ∷ attrs) = parse_attributes_lem [] (attr ∷ attrs)
