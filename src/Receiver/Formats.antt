-- ===== src/Receiver/Formats.antt =====
-- The format and the codec that a receiver has behind its start and format packets, in `SetFormat` and
-- `OnAPPPacket` of app/src/main/jni/ReceiverSession.cpp.
mod Tests
use audio_sync.Base.{
  ℕ, ◌≡◌, refl, ◌⊎◌, inl, inr, Bool, true, false, Option, none, some, List, [], ◌∷◌, ◌++◌, map,
  ◌>>=◌, ap, sym, ◌∙◌, if◌then◌else◌, Bool-cases, Option-cases,
}
use audio_sync.Base.Int.{ℤ}
use audio_sync.Decoder.{is_ok}
use audio_sync.Receiver.App.{Decoding, set_format, receive_format}

module _ {F : Type 0} {C : Type 0} (get_mime : F → Option (List ℕ))
    (create_decoder : List ℕ → Option C) (configure : C → F → ℤ)
    (create_format : List ℕ → Option F) where
  abbrev pub no_pointers : Decoding F C
  no_pointers = record { format = none; codec = none }

  abbrev pub pointers : F → C → Decoding F C
  pointers f c = record { format = some f; codec = some c }

  -- The texts of the format packets, one after the other.
  unfoldable pub receive_formats : Decoding F C → List (List ℕ) → Option (Decoding F C)
  receive_formats d [] = some d
  receive_formats d (text ∷ texts) =
      receive_format get_mime create_decoder configure create_format d text >>= λ d'.
      receive_formats d' texts

  -- A format has a MIME type, for which a codec can be made, which takes the format.
  abbrev pub Accepts : F → C → Type 0
  Accepts f c =
      (mime : List ℕ) × (get_mime f ≡ some mime)
      × (create_decoder mime ≡ some c)
      × (is_ok (configure c f) ≡ true)

  abbrev pub Fails : F → Type 0
  Fails f = (c : C) → ¬ Accepts f c

  abbrev pub AllFail : List F → Type 0
  AllFail [] = Unit
  AllFail (f ∷ fs) = Fails f × AllFail fs

  -- What the session has after these formats: the first that is accepted, and its codec.
  pub data Keeps (fs : List F) (d : Decoding F C) : Type 0 where
    none_set : AllFail fs → d ≡ no_pointers → Keeps fs d
    first_set :
        (before after : List F) (f : F) (c : C)
        → fs ≡ before ++ f ∷ after
        → AllFail before
        → Accepts f c
        → d ≡ pointers f c
        → Keeps fs d

  set : Decoding F C → F → Decoding F C
  unfolding set_format
  set d f = set_format get_mime create_decoder configure create_format d f

  set_cases :
      (d : Decoding F C) (f : F)
      → ((c : C) × Accepts f c × (set d f ≡ pointers f c)) ⊎ (Fails f × (set d f ≡ d))
  unfolding set set_format
  set_cases d f = elim (Option-cases (get_mime f)) [
    | inl e ↦ inr (λ c (mime, has, made, takes). absurd (cc (e, has)), rw (set, set_format, e) refl)
    | inr (mime, e) ↦ elim (Option-cases (create_decoder mime)) [
      | inl e2 ↦ inr (
        λ c (mime', has, made, takes). absurd (cc (e, has, e2, made)),
        rw (set, set_format, e, e2) refl,
      )
      | inr (c, e2) ↦ elim (Bool-cases (is_ok (configure c f))) [
        | inl e3 ↦ inl (c, (mime, e, e2, e3), rw (set, set_format, e, e2, e3) refl)
        | inr e3 ↦ inr (
          λ c' (mime', has, made, takes). absurd (cc (e, has, e2, made, e3, takes)),
          rw (set, set_format, e, e2, e3) refl,
        )
      ]
    ]
  ]

  later : {f : F} {fs : List F} {d : Decoding F C} → Fails f → Keeps fs d → Keeps (f ∷ fs) d
  later fails (none_set all e) = none_set (fails, all) e
  later {f} fails (first_set before after g c split all accepted e) =
      first_set (f ∷ before) after g c (ap (λ l. f ∷ l) split) (fails, all) accepted e

  refused :
      (text : List ℕ) (f g : F) (c : C)
      → create_format text ≡ some f
      → receive_format get_mime create_decoder configure create_format (pointers g c) text
        ≡ some (pointers g c)
  unfolding receive_format
  refused text f g c e = rw (receive_format, e) refl

  -- A format that is set stays.
  stays :
      (texts : List (List ℕ)) (fs : List F) (g : F) (c : C)
      → map create_format texts ≡ map some fs
      → receive_formats (pointers g c) texts ≡ some (pointers g c)
  unfolding receive_formats
  stays [] fs g c e = refl
  stays (text ∷ texts) [] g c e = absurd (cc e)
  stays (text ∷ texts) (f ∷ fs) g c e =
      ap (λ o. o >>= λ x. receive_formats x texts) (refused text f g c (cc e))
      ∙ stays texts fs g c (cc e)

  -- The next format is set if there is none.
  offered :
      (text : List ℕ) (f : F)
      → create_format text ≡ some f
      → receive_format get_mime create_decoder configure create_format no_pointers text
        ≡ some (set no_pointers f)
  unfolding receive_format set
  offered text f e = rw (receive_format, e) refl

  from_set :
      (texts : List (List ℕ)) (f : F) (fs : List F)
      → map create_format texts ≡ map some fs
      → ((d : Decoding F C) × (receive_formats no_pointers texts ≡ some d) × Keeps fs d)
      → (d : Decoding F C) × (receive_formats (set no_pointers f) texts ≡ some d) × Keeps (f ∷ fs) d
  from_set texts f fs e (d, runs, kept) = elim (set_cases no_pointers f) [
    | inl (c, accepted, now) ↦ (
      pointers f c,
      ap (λ x. receive_formats x texts) now ∙ stays texts fs f c e,
      first_set [] fs f c refl tt accepted refl,
    )
    | inr (fails, now) ↦ (d, ap (λ x. receive_formats x texts) now ∙ runs, later fails kept)
  ]

  waits :
      (texts : List (List ℕ)) (fs : List F)
      → map create_format texts ≡ map some fs
      → (d : Decoding F C) × (receive_formats no_pointers texts ≡ some d) × Keeps fs d
  unfolding receive_formats
  waits [] [] e = (no_pointers, refl, none_set tt refl)
  waits [] (f ∷ fs) e = absurd (cc e)
  waits (text ∷ texts) [] e = absurd (cc e)
  waits (text ∷ texts) (f ∷ fs) e =
      let (d, runs, kept) = from_set texts f fs (cc e) (waits texts fs (cc e)) in
      (d, ap (λ o. o >>= λ x. receive_formats x texts) (offered text f (cc e)) ∙ runs, kept)

  -- For a session that has neither format nor codec, sets a first format, and takes the texts of format
  -- packets of which the parser makes formats: no packet reads invalid memory, and the session has the
  -- first of all these formats that is accepted, with the codec that was made for it, whatever comes
  -- later; or neither, if none is accepted.
  pub receive_formats-Keeps :
      (first : F) (texts : List (List ℕ)) (fs : List F)
      → map create_format texts ≡ map some fs
      → (d : Decoding F C) × (receive_formats
            (set_format get_mime create_decoder configure create_format no_pointers first)
            texts
          ≡ some d)
        × Keeps (first ∷ fs) d
  unfolding set
  receive_formats-Keeps first texts fs e = from_set texts first fs e (waits texts fs e)
