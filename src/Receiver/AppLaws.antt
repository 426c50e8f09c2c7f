-- ===== src/Receiver/AppLaws.antt =====
-- What the two sessions make of each other's RTCP APP packets.
use audio_sync.Base.{
  ℕ, suc, ◌-◌, ◌≡◌, ◌≢◌, refl, sym, ap, ◌∙◌, Bool, true, false, Option, none, some, List, [], ◌∷◌,
  ◌++◌, arith, length, length-append, get_elem?, take, drop, ◌==◌, if◌then◌else◌, leb, ◌>>=◌,
}
use audio_sync.Base.Int.{ℤ, pos}
use audio_sync.AppPacket.{ClockReading, time_us}
use audio_sync.Sender.Clients.{Action, send_app, packet_clock_offset, on_app_packet, format_packet}
use audio_sync.Receiver.App.{send_clock_offset, Decoding, take_app_packet}

drop-append : (xs ys : List ℕ) → drop (length xs) (xs ++ ys) ≡ ys
drop-append [] ys = refl
drop-append (x ∷ xs) ys = drop-append xs ys

take-length : (xs : List ℕ) → take (length xs) xs ≡ xs
take-length [] = refl
take-length (x ∷ xs) = ap (λ l. x ∷ l) (take-length xs)

-- The handler of the sender for what a session sends.
unfoldable pub deliver_app : (List ℕ → ℤ) → Action → Bool → Option ℤ
deliver_app ntohq (send_app subtype bytes) known = on_app_packet ntohq subtype bytes known
deliver_app ntohq _ known = none

sixteen : (a b : List ℕ) → length a ≡ 8 → length b ≡ 8 → leb 16 (length (a ++ b)) ≡ true
sixteen a b ha hb = rw (length-append a b, ha, hb) refl

two_halves :
    (ntohq : List ℕ → ℤ) (a b : List ℕ) (known : Bool)
    → length a ≡ 8
    → length b ≡ 8
    → on_app_packet ntohq packet_clock_offset (a ++ b) known
      ≡ (if known then some (ntohq b) else none)
unfolding on_app_packet
two_halves ntohq a b known ha hb = rw (sixteen a b ha hb, second_half, whole_half) refl
  where
    second_half : drop 8 (a ++ b) ≡ b
    second_half = ap (λ n. drop n (a ++ b)) (sym ha) ∙ drop-append a b

    whole_half : take 8 b ≡ b
    whole_half = ap (λ n. take n b) (sym hb) ∙ take-length b

-- If the conversions take eight bytes and `ntohq` undoes `htonq` for this offset, the offset that the
-- receiver sends is the one that the sender notes for it, if it knows the receiver.
pub clock_offset_roundtrip :
    (htonq : ℤ → List ℕ) (ntohq : List ℕ → ℤ) (now : ClockReading) (offset : ℤ) (known : Bool)
    → ((x : ℤ) → length (htonq x) ≡ 8)
    → ntohq (htonq offset) ≡ offset
    → deliver_app ntohq (send_clock_offset htonq now offset) known
      ≡ (if known then some offset else none)
unfolding deliver_app send_clock_offset
clock_offset_roundtrip htonq ntohq now offset known eight inverse =
    two_halves ntohq (htonq (pos (time_us now))) (htonq offset) known (eight (pos (time_us now)))
      (eight offset)
    ∙ rw inverse refl

-- A text has no NUL.
unfoldable pub IsText : List ℕ → Type 0
IsText [] = Unit
IsText (ch ∷ text) = (ch ≢ 0) × IsText text

pred_suc : (n : ℕ) → suc n - 1 ≡ n
pred_suc n = omega arith

nonzero : (n : ℕ) → n ≢ 0 → (n == 0) ≡ false
nonzero n h = ground arith

last_text :
    (ch : ℕ) (text : List ℕ)
    → IsText (ch ∷ text)
    → (last : ℕ) × (get_elem? (ch ∷ text) (length text) ≡ some last) × (last ≢ 0)
unfolding IsText
last_text ch [] h = (ch, refl, h.0)
last_text ch (next ∷ text) h = last_text next text h.1

-- What the receiver does with what the sender sends for a new source.
unfoldable pub take_action :
    {F : Type 0} {C : Type 0}
    → (Decoding F C → ℕ → List ℕ → Option (Decoding F C))
    → Decoding F C
    → List Action
    → Option (Decoding F C)
take_action handler d [] = some d
take_action handler d (send_app subtype bytes ∷ actions) =
    handler d subtype bytes >>= λ d'. take_action handler d' actions
take_action handler d (_ ∷ actions) = take_action handler d actions

-- Whatever the codecs and the parser do: the format that the sender sends to a new receiver, a text
-- that is not empty, changes nothing there. The text goes out without the NUL that the receiver looks
-- for.
pub take_app_packet-format_packet :
    {F : Type 0} {C : Type 0} (get_mime : F → Option (List ℕ)) (create_decoder : List ℕ → Option C)
    (configure : C → F → ℤ) (create_format : List ℕ → Option F) (d : Decoding F C) (ch : ℕ)
    (text : List ℕ)
    → IsText (ch ∷ text)
    → take_action
        (take_app_packet get_mime create_decoder configure create_format)
        d
        (format_packet (some (ch ∷ text)))
      ≡ some d
unfolding take_action take_app_packet
take_app_packet-format_packet get_mime create_decoder configure create_format d ch text is_text =
    let (last, found, real) = last_text ch text is_text in
    rw (pred_suc (length text), found, nonzero last real) refl
