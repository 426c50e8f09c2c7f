-- ===== src/Receiver/Owned/Agrees.antt =====
-- The formats and codecs of Owned are those of the pointers of App: what becomes of an attempt is what
-- the NDK answers to the calls of `SetFormat`.
use audio_sync.Base.{
  ℕ, ◌≡◌, refl, Bool, true, false, Option, none, some, List, if◌then◌else◌, Bool-cases,
  Option-cases, inl, inr,
}
use audio_sync.Base.Int.{ℤ}
use audio_sync.Decoder.{is_ok}
use audio_sync.Receiver.App.{Decoding, set_format, receive_format}
use audio_sync.Receiver.Owned.{
  Attempt, no_mime, no_codec, refused, accepted, Objects, assign_format, make_format, offer_format,
}

abbrev pub is_set : {A : Type 0} → Option A → Bool
is_set none = false
is_set (some a) = true

-- The same pointers are set.
abbrev pub Agrees : {F C : Type 0} → Decoding F C → Objects → Type 0
Agrees d s = (is_set d.format ≡ is_set s.format) × (is_set d.codec ≡ is_set s.codec)

module _ {F : Type 0} {C : Type 0} (get_mime : F → Option (List ℕ))
    (create_decoder : List ℕ → Option C) (configure : C → F → ℤ)
    (create_format : List ℕ → Option F) where
  -- How `SetFormat` goes with a format.
  unfoldable pub attempt : F → Attempt
  attempt f = elim (get_mime f) [
    | none ↦ no_mime
    | some mime ↦ elim (create_decoder mime) [
      | none ↦ no_codec
      | some codec ↦ if is_ok (configure codec f) then accepted else refused
    ]
  ]

  set_format-Agrees :
      (d : Decoding F C) (s : Objects) (f : F) (n : ℕ)
      → Agrees d s
      → Agrees
          (set_format get_mime create_decoder configure create_format d f)
          (assign_format s (attempt f) n)
  unfolding set_format assign_format attempt
  set_format-Agrees d s f n (h, k) = elim (Option-cases (get_mime f)) [
    | inl e ↦ rw (set_format, attempt, e) (h, k)
    | inr (mime, e) ↦ elim (Option-cases (create_decoder mime)) [
      | inl e2 ↦ rw (set_format, attempt, e, e2) (h, k)
      | inr (codec, e2) ↦ elim (Bool-cases (is_ok (configure codec f))) [
        | inl e3 ↦ rw (set_format, attempt, e, e2, e3) (refl, refl)
        | inr e3 ↦ rw (set_format, attempt, e, e2, e3) (h, k)
      ]
    ]
  ]

  offered :
      (o : Option F) (c : Option C) (so : Option ℕ) (s : Objects) (f : F) (text : List ℕ)
      → create_format text ≡ some f
      → Agrees (record { format = o; codec = c }) (record s { format = so })
      → (d' : Decoding F C) × (receive_format get_mime create_decoder configure create_format
            (record { format = o; codec = c })
            text
          ≡ some d')
        × Agrees d' (offer_format (record s { format = so }) (attempt f))
  unfolding receive_format offer_format
  offered none c none s f text e h =
      let d : Decoding F C = record { format = none; codec = c } in
      (
        set_format get_mime create_decoder configure create_format d f,
        rw (receive_format, e) refl,
        set_format-Agrees d (make_format (record s { format = none })) f s.formats h,
      )
  offered none c (some i) s f text e (h, k) = absurd (cc h)
  offered (some g) c none s f text e (h, k) = absurd (cc h)
  offered (some g) c (some i) s f text e (h, k) =
      (record { format = some g; codec = c }, rw (receive_format, e) refl, (refl, k))

  -- A text that the parser makes a format of keeps the same pointers set in both.
  pub receive_format-Agrees :
      (d : Decoding F C) (s : Objects) (f : F) (text : List ℕ)
      → create_format text ≡ some f
      → Agrees d s
      → (d' : Decoding F C) × (receive_format get_mime create_decoder configure create_format d text
          ≡ some d')
        × Agrees d' (offer_format s (attempt f))
  receive_format-Agrees d s f text e h = offered d.format d.codec s.format s f text e h
