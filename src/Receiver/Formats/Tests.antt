-- ===== src/Receiver/Formats/Tests.antt =====
-- The theorem of the formats at a concrete session.
use audio_sync.Base.{ℕ, zero, suc, ◌≡◌, refl, Option, none, some, List, [], ◌∷◌, map, length}
use audio_sync.Base.Int.{ℤ, pos}
use audio_sync.Receiver.App.{Decoding, set_format}
use audio_sync.Receiver.Formats.{receive_formats, no_pointers, Keeps, receive_formats-Keeps}

-- Formats are numbers: 0 has no MIME type, 1 has no codec, and the codec takes those from 3 on.
mime_of : ℕ → Option (List ℕ)
mime_of zero = none
mime_of (suc n) = some (n ∷ [])

codec_of : List ℕ → Option ℕ
codec_of [] = none
codec_of (zero ∷ _) = none
codec_of (suc n ∷ _) = some n

configured : ℕ → ℕ → ℤ
configured zero f = pos 1
configured (suc n) f = pos 0

parsed : List ℕ → Option ℕ
parsed text = some (length text)

abbrev three_texts : List (List ℕ)
three_texts = (5 ∷ []) ∷ (5 ∷ 5 ∷ 5 ∷ []) ∷ [] ∷ []

parsed_example : map parsed three_texts ≡ map some (1 ∷ 3 ∷ 0 ∷ [])
unfolding parsed
parsed_example = refl

-- The first format is refused; then one comes without a codec, one that is accepted, and one more.
receive_formats-Keeps_example :
    (d : Decoding ℕ ℕ) × (receive_formats mime_of codec_of configured parsed
        (set_format mime_of codec_of configured parsed
          (no_pointers mime_of codec_of configured parsed)
          2)
        three_texts
      ≡ some d)
    × Keeps mime_of codec_of configured parsed (2 ∷ 1 ∷ 3 ∷ 0 ∷ []) d
receive_formats-Keeps_example =
    receive_formats-Keeps mime_of codec_of configured parsed 2 three_texts (1 ∷ 3 ∷ 0 ∷ [])
      parsed_example
