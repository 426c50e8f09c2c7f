-- ===== src/Receiver/Tests.antt =====
-- The theorems of the receiver's loop at concrete packets.
use audio_sync.Base.{ℕ, ◌≡◌, refl, true, false, none, some, List, [], ◌∷◌, ◌-◌, length, arith}
use audio_sync.Base.Int.{ℤ, pos, negsuc}
use audio_sync.Sender.Clients.{format_packet}
use audio_sync.Receiver.App.{send_clock_offset, Decoding, take_app_packet}
use audio_sync.Receiver.AppLaws.{
  deliver_app, clock_offset_roundtrip, IsText, take_action, take_app_packet-format_packet,
}
use audio_sync.Rtp.{RtpPacket}
use audio_sync.Receiver.{Pipeline, first_state, handle_packets, monitor_twice, receive}
use audio_sync.Receiver.Calls.{recorder, syncs, feeds, sync_of, feed_of, sync_list, feed_list}
use audio_sync.Receiver.Handle.{handle_packets_lem}
use audio_sync.Receiver.Passes.{receive_lem}

abbrev accepting : Pipeline
accepting = recorder (λ calls. pos 0) (λ calls. true)

-- Only the last byte of a time is set here.
last_byte : List ℕ → ℤ
last_byte [] = pos 0
last_byte (b ∷ []) = pos b
last_byte (b ∷ c ∷ bytes) = last_byte (c ∷ bytes)

abbrev timed : ℕ → ℕ → ℕ → RtpPacket
timed seq ts system = record {
  marker = false;
  sequence = seq;
  timestamp = ts;
  extension = some (record { id = 7; bytes = 0 ∷ 0 ∷ 0 ∷ 0 ∷ 0 ∷ 0 ∷ 0 ∷ system ∷ [] });
  payload = seq ∷ [];
}

abbrev the_end : ℕ → RtpPacket
the_end ts = record {
  marker = true;
  sequence = 0;
  timestamp = ts;
  extension = none;
  payload = 0 ∷ [];
}

-- Over the wrap of timestamps and sequence numbers.
handle_packets_lem_example :
    (syncs
        (handle_packets accepting last_byte
          (first_state accepting last_byte [])
          (timed 65535 4294967290 5 ∷ the_end 94 ∷ [])).pipeline
      ≡ (pos 5, 0) ∷ [])
    × (feeds
          (handle_packets accepting last_byte
            (first_state accepting last_byte [])
            (timed 65535 4294967290 5 ∷ the_end 94 ∷ [])).pipeline
        ≡ (some (65535 ∷ []), 0) ∷ (none, 100) ∷ [])
unfolding sync_list feed_list sync_of feed_of last_byte
handle_packets_lem_example =
    handle_packets_lem (λ calls. pos 0) (λ calls. true) last_byte (timed 65535 4294967290 5)
      (the_end 94 ∷ []) (λ h. omega (arith, h))

-- A late packet behind the mark of the end.
receive_lem_example :
    receive accepting last_byte
      (first_state accepting last_byte [])
      ((the_end 94 ∷ timed 65535 50 6 ∷ []) ∷ (timed 1 90 7 ∷ []) ∷ [])
    ≡ receive accepting last_byte
        (monitor_twice accepting last_byte (
          handle_packets accepting last_byte
            (first_state accepting last_byte [])
            (the_end 94 ∷ timed 65535 50 6 ∷ [])))
        ((timed 1 90 7 ∷ []) ∷ [])
receive_lem_example =
    receive_lem accepting last_byte (first_state accepting last_byte []) (the_end 94 ∷ [])
      (timed 65535 50 6) ((timed 1 90 7 ∷ []) ∷ []) (λ st payload timestamp. refl) refl

-- Only small offsets are written here.
htonq : ℤ → List ℕ
htonq (pos n) = 0 ∷ 0 ∷ 0 ∷ 0 ∷ 0 ∷ 0 ∷ 0 ∷ n ∷ []
htonq (negsuc n) = 255 ∷ 255 ∷ 255 ∷ 255 ∷ 255 ∷ 255 ∷ 255 ∷ (255 - n) ∷ []

eight : (x : ℤ) → length (htonq x) ≡ 8
unfolding htonq
eight (pos n) = refl
eight (negsuc n) = refl

clock_offset_roundtrip_example :
    deliver_app last_byte (send_clock_offset htonq (some (0, 5000)) (pos 42)) true ≡ some (pos 42)
unfolding htonq last_byte
clock_offset_roundtrip_example =
    clock_offset_roundtrip htonq last_byte (some (0, 5000)) (pos 42) true eight refl

-- A session with no format yet; the codecs take anything.
abbrev fresh : Decoding (List ℕ) ℕ
fresh = record { format = none; codec = none }

take_app_packet-format_packet_example :
    take_action
      (take_app_packet (λ f. some f) (λ mime. some 1) (λ codec f. pos 0) (λ text. some text))
      fresh
      (format_packet (some (b'm' ∷ b'p' ∷ b'3' ∷ [])))
    ≡ some fresh
unfolding IsText
take_app_packet-format_packet_example =
    take_app_packet-format_packet (λ f. some f) (λ mime. some 1) (λ codec f. pos 0)
      (λ text. some text) fresh b'm' (b'p' ∷ b'3' ∷ [])
      ((λ h. omega (arith, h)), ((λ h. omega (arith, h)), ((λ h. omega (arith, h)), tt)))
