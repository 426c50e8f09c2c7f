-- ===== src/Sync/Tests.antt =====
-- A short file, sent by a concrete session, over a network that loses packets.
use audio_sync.Base.{
  ℕ, zero, suc, ◌+◌, ◌-◌, ◌*◌, ◌/◌, ◌%◌, ◌^◌, ◌<◌, ◌≡◌, refl, ap, true, Option, none, some, List,
  [], ◌∷◌, arith, length, get_elem?,
}
use audio_sync.Base.Int.{ℤ, pos, negsuc, ◌+ℤ◌, ◌-ℤ◌}
use audio_sync.Base.Word.{add32}
use audio_sync.Ndk.{Extractor}
use audio_sync.Decoder.{extract_data}
use audio_sync.Rtp.{RtpPacket, build, Transmitter, Sends}
use audio_sync.Sender.{to_uint32, request, stream_step, stream}
use audio_sync.Sender.Packets.{Sample, Yields, Streamable, time_before, packet_of}
use audio_sync.Sender.Sent.{first_time, sent_lem}
use audio_sync.Player.Control.{sync_all}
use audio_sync.Sync.Start.{receiver_starts}
use audio_sync.Sync.{all_sent, Delivers, schedule, due, syncs-schedule}
use audio_sync.Receiver.{first_state, handle_packets}
use audio_sync.Receiver.Calls.{recorder, syncs}

-- The eight bytes of a number in network order; a negative number is not needed here.
htonq : ℤ → List ℕ
htonq (pos n) =
    n / 256 / 256 / 256 / 256 / 256 / 256 / 256
    ∷ n / 256 / 256 / 256 / 256 / 256 / 256 % 256
    ∷ n / 256 / 256 / 256 / 256 / 256 % 256
    ∷ n / 256 / 256 / 256 / 256 % 256
    ∷ n / 256 / 256 / 256 % 256
    ∷ n / 256 / 256 % 256
    ∷ n / 256 % 256
    ∷ n % 256
    ∷ []
htonq (negsuc n) = 255 ∷ 255 ∷ 255 ∷ 255 ∷ 255 ∷ 255 ∷ 255 ∷ 255 ∷ []

from_bytes : ℕ → List ℕ → ℕ
from_bytes n [] = n
from_bytes n (b ∷ bytes) = from_bytes (n * 256 + b) bytes

ntohq : List ℕ → ℤ
ntohq bytes = pos (from_bytes 0 bytes)

eight : (x : ℤ) → length (htonq x) ≡ 8
unfolding htonq
eight (pos n) = refl
eight (negsuc n) = refl

inverse_ℕ : (n : ℕ) → from_bytes 0 (htonq (pos n)) ≡ n
unfolding from_bytes htonq
inverse_ℕ n = omega arith

inverse : (n : ℕ) → n < 2 ^ 63 → ntohq (htonq (pos n)) ≡ pos n
unfolding ntohq
inverse n h = rw (inverse_ℕ n) refl

-- An extractor over a list of samples.
read_list : List Sample → ℤ × List ℕ
read_list [] = (negsuc 0, [])
read_list (x ∷ samples) = (pos (length x.bytes), x.bytes)

time_list : List Sample → ℤ
time_list [] = negsuc 0
time_list (x ∷ samples) = pos x.time

rest_list : List Sample → List Sample
rest_list [] = []
rest_list (x ∷ samples) = samples

abbrev list_extractor : Extractor
list_extractor = record {
  State = List Sample;
  track_mimes = λ st. [];
  select_track = λ st i. (pos 0, st);
  read_sample = λ st n. read_list st;
  sample_time = time_list;
  advance = rest_list;
}

-- A session that is its timestamp and its sequence number.
abbrev session : Transmitter
session = record {
  State = ℕ × ℕ;
  timestamp = λ st. st.0;
  sequence = λ st. st.1;
  max_payload = 1372;
  send = λ st r. (pos 0, (add32 st.0 r.timestamp_inc, (st.1 + 1) % 2 ^ 16));
  wire = λ st r. some (build st.0 st.1 r);
}

session_sends : Sends session
session_sends = record {
  wire_lem = λ st r fits. refl;
  timestamp_lem = λ st r fits. refl;
  sequence_lem = λ st r fits. refl;
}

-- Three frames, 26 ms apart; the timestamps of the session wrap around.
abbrev frame : ℕ → ℕ → Sample
frame byte time = record { bytes = byte ∷ byte ∷ []; time = time }

abbrev three_frames : List Sample
three_frames = frame 1 0 ∷ frame 2 26122 ∷ frame 3 52244 ∷ []

three_frames-Yields : Yields list_extractor three_frames three_frames
unfolding Yields read_list time_list rest_list
three_frames-Yields = (refl, refl, (refl, refl, (refl, refl, (0, [], refl))))

three_frames-Streamable : Streamable 1372 (first_time three_frames) three_frames
unfolding Streamable first_time
three_frames-Streamable =
    (omega arith, omega arith, (omega arith, omega arith, (omega arith, omega arith, omega arith)))

sent_lem_example :
    (length
        (stream list_extractor session htonq 4 (pos 1000000) (
          audio_sync.Sender.first_state list_extractor session htonq three_frames
            (4294967290, 65534))).sent
      ≡ 4)
    × (get_elem?
          (stream list_extractor session htonq 4 (pos 1000000) (
            audio_sync.Sender.first_state list_extractor session htonq three_frames
              (4294967290, 65534))).sent
          2
        ≡ some (
            packet_of htonq
              (pos 1000000)
              ((4294967290
                  + (time_before (first_time three_frames) three_frames 2
                      - first_time three_frames))
                % 2 ^ 32)
              ((65534 + 2) % 2 ^ 16)
              (get_elem? three_frames 2)))
sent_lem_example =
    sent_lem list_extractor session session_sends htonq (pos 1000000) three_frames
      (4294967290, 65534) three_frames 4 2 three_frames-Yields three_frames-Streamable (omega arith)
      (omega arith) (omega arith) (omega arith)

-- The packets behind the first one, which is lost.
abbrev second : RtpPacket
second = packet_of htonq (pos 1000000) 4294967290 65535 (some (frame 2 26122))

abbrev third : RtpPacket
third = packet_of htonq (pos 1000000) 26116 0 (some (frame 3 52244))

abbrev ending : RtpPacket
ending = packet_of htonq (pos 1000000) 52238 1 none

time_of : Option Sample → ℕ
time_of none = 0
time_of (some x) = x.time

three_frames-in_range :
    (k : ℕ) (x : Sample) → get_elem? three_frames k ≡ some x → 1000000 + x.time < 2 ^ 63
unfolding time_of
three_frames-in_range zero x h = omega (arith, ap time_of h)
three_frames-in_range (suc zero) x h = omega (arith, ap time_of h)
three_frames-in_range (suc (suc zero)) x h = omega (arith, ap time_of h)
three_frames-in_range (suc (suc (suc k))) x h = absurd (cc h)

delivery :
    Delivers
      (all_sent htonq ntohq eight inverse 1000000 three_frames three_frames-in_range list_extractor
        session session_sends three_frames
        (4294967290, 65534)
        4
        three_frames-Yields
        three_frames-Streamable
        (omega arith)
        (omega arith)
        (omega arith))
      (1 ∷ 2 ∷ 3 ∷ [])
      (second ∷ third ∷ ending ∷ [])
unfolding Delivers stream stream_step request extract_data read_list time_list rest_list packet_of
    to_uint32 ◌+ℤ◌ ◌-ℤ◌
delivery = (omega arith, refl, (omega arith, refl, (omega arith, refl, tt)))

syncs-schedule_example :
    syncs
      (handle_packets
        (recorder (λ calls. pos 0) (λ calls. true))
        ntohq
        (first_state (recorder (λ calls. pos 0) (λ calls. true)) ntohq [])
        (second ∷ third ∷ ending ∷ [])).pipeline
    ≡ (pos 1026122, 0) ∷ (pos 1052244, 26122) ∷ []
unfolding packet_of schedule due time_before first_time to_uint32 ◌-ℤ◌
syncs-schedule_example =
    syncs-schedule htonq ntohq eight inverse 1000000 three_frames three_frames-in_range
      list_extractor session session_sends three_frames (4294967290, 65534) 4 three_frames-Yields
      three_frames-Streamable (omega arith) (omega arith) (omega arith) (λ calls. pos 0)
      (λ calls. true) 1 (2 ∷ 3 ∷ []) second (third ∷ ending ∷ []) delivery (λ h. omega (arith, h))

receiver_starts_example :
    sync_all (pos 0) (
      syncs
        (handle_packets
          (recorder (λ calls. pos 0) (λ calls. true))
          ntohq
          (first_state (recorder (λ calls. pos 0) (λ calls. true)) ntohq [])
          (second ∷ third ∷ ending ∷ [])).pipeline)
    ≡ pos 1026122
unfolding packet_of
receiver_starts_example =
    receiver_starts htonq ntohq eight inverse 1000000 three_frames three_frames-in_range
      list_extractor session session_sends three_frames (4294967290, 65534) 4 three_frames-Yields
      three_frames-Streamable (omega arith) (omega arith) (omega arith) (λ calls. pos 0)
      (λ calls. true) 1 (2 ∷ 3 ∷ []) (frame 2 26122) second (third ∷ ending ∷ []) delivery
      (λ h. omega (arith, h)) refl (omega arith)
