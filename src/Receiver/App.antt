-- ===== src/Receiver/App.antt =====
-- The RTCP APP packets of app/src/main/jni/ReceiverSession.cpp: `SendClockOffset`, `OnAPPPacket`
-- and `SetFormat`.
use audio_sync.Base.{
  ℕ, ◌-◌, Option, none, some, List, [], ◌∷◌, ◌++◌, length, get_elem?, ◌==◌, if◌then◌else◌,
}
use audio_sync.Base.Int.{ℤ, pos}
use audio_sync.Decoder.{is_ok}
use audio_sync.AppPacket.{ClockReading, time_us}
use audio_sync.Sender.Clients.{Action, send_app, packet_mediaformat, packet_clock_offset}

-- The bytes of an `audiostream_clockOffset`: the time of sending, and the offset.
abbrev pub clock_offset : (ℤ → List ℕ) → ClockReading → ℤ → List ℕ
clock_offset htonq now offset = htonq (pos (time_us now)) ++ htonq offset

unfoldable pub send_clock_offset : (ℤ → List ℕ) → ClockReading → ℤ → Action
send_clock_offset htonq now offset = send_app packet_clock_offset (clock_offset htonq now offset)

-- The format and the codec of the session.
pub record Decoding (F : Type 0) (C : Type 0) : Type 0 where
  pub format : Option F
  pub codec : Option C

-- `get_mime`, `create_decoder` and `configure` are the NDK's; `create_format` is none when it reads
-- invalid memory.
module _ {F : Type 0} {C : Type 0} (get_mime : F → Option (List ℕ))
    (create_decoder : List ℕ → Option C) (configure : C → F → ℤ)
    (create_format : List ℕ → Option F) where
  unfoldable pub set_format : Decoding F C → F → Decoding F C
  set_format d new_format = elim (get_mime new_format) [
    | none ↦ d
    | some mime ↦ elim (create_decoder mime) [
      | none ↦ d
      | some new_codec ↦
          if is_ok (configure new_codec new_format)
          then record { format = some new_format; codec = some new_codec }
          else d
    ]
  ]

  -- The branch of a text that ends in a NUL.
  unfoldable pub receive_format : Decoding F C → List ℕ → Option (Decoding F C)
  receive_format d text = elim (create_format text) [
    | none ↦ none
    | some new_format ↦ elim d.format [ none ↦ some (set_format d new_format) | some _ ↦ some d ]
  ]

  -- `none` is a read at an invalid address; that of the last byte of no data is one.
  unfoldable pub take_app_packet : Decoding F C → ℕ → List ℕ → Option (Decoding F C)
  take_app_packet d subtype bytes =
      if subtype == packet_mediaformat
      then elim bytes [
        | [] ↦ none
        | b ∷ rest ↦ elim (get_elem? (b ∷ rest) (length (b ∷ rest) - 1)) [
          | none ↦ none
          | some last ↦ if last == 0 then receive_format d (b ∷ rest) else some d
        ]
      ]
      else some d
