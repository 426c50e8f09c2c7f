-- ===== src/Sender/Packets.antt =====
-- The packets of `SenderSession::RunNetwork`, described from the samples of a file: one for each
-- sample, and one for the end.
use audio_sync.Base.{
  ℕ, zero, suc, ◌+◌, ◌-◌, ◌%◌, ◌^◌, ◌≤◌, ◌≡◌, refl, ap, ◌∙◌, true, false, Option, none, some, List,
  [], ◌∷◌, arith, length, get_elem?,
}
use audio_sync.Base.Int.{ℤ, pos, negsuc, ◌+ℤ◌, ◌-ℤ◌}
use audio_sync.Base.Word.{add32}
use audio_sync.Ndk.{Extractor}
use audio_sync.Rtp.{RtpPacket}
use audio_sync.Sender.{extension_header_id, to_uint32}

-- A sample of the file: its bytes and its presentation time, which is not negative.
pub record Sample : Type 0 where
  pub bytes : List ℕ
  pub time : ℕ

-- An extractor yields these samples, each into a buffer of 8192 bytes, and then the end.
unfoldable pub Yields : (e : Extractor) → e.State → List Sample → Type 0
Yields e st [] = ((n : ℕ) × (bytes : List ℕ) × (e.read_sample st 8192 ≡ (negsuc n, bytes)))
Yields e st (x ∷ samples) =
    (e.read_sample st 8192 ≡ (pos (length x.bytes), x.bytes))
    × (e.sample_time st ≡ pos x.time)
    × Yields e (e.advance st) samples

-- Times that do not fall, from `last` on, and payloads that a session can send.
unfoldable pub Streamable : ℕ → ℕ → List Sample → Type 0
Streamable limit last [] = 1 ≤ limit
Streamable limit last (x ∷ samples) =
    (last ≤ x.time) × (length x.bytes ≤ limit) × Streamable limit x.time samples

-- The time of the sample before the k-th.
unfoldable pub time_before : ℕ → List Sample → ℕ → ℕ
time_before last samples zero = last
time_before last [] (suc k) = last
time_before last (x ∷ samples) (suc k) = time_before x.time samples k

-- The packet of a sample, and that of the end.
unfoldable pub packet_of : (ℤ → List ℕ) → ℤ → ℕ → ℕ → Option Sample → RtpPacket
packet_of htonq start ts seq (some x) = record {
  marker = false;
  sequence = seq;
  timestamp = ts;
  extension = some (record { id = extension_header_id; bytes = htonq (start +ℤ pos x.time) });
  payload = x.bytes;
}
packet_of htonq start ts seq none = record {
  marker = true;
  sequence = seq;
  timestamp = ts;
  extension = none;
  payload = 0 ∷ [];
}

-- One packet for each sample and one for the end, with the running timestamp.
unfoldable pub packets : (ℤ → List ℕ) → ℤ → ℕ → ℕ → ℕ → List Sample → List RtpPacket
packets htonq start last ts seq [] = packet_of htonq start ts seq none ∷ []
packets htonq start last ts seq (x ∷ samples) =
    packet_of htonq start ts seq (some x)
    ∷ packets htonq start x.time (add32 ts (to_uint32 (pos x.time -ℤ pos last)))
        ((seq + 1) % 2 ^ 16) samples

pub packets-length :
    (htonq : ℤ → List ℕ) (start : ℤ) (last ts seq : ℕ) (samples : List Sample)
    → length (packets htonq start last ts seq samples) ≡ suc (length samples)
unfolding packets
packets-length htonq start last ts seq [] = refl
packets-length htonq start last ts seq (x ∷ samples) = ap suc (
    packets-length htonq start x.time (add32 ts (to_uint32 (pos x.time -ℤ pos last)))
      ((seq + 1) % 2 ^ 16) samples)

-- The increment of a timestamp for times that do not fall.
elapsed : (last time : ℕ) → last ≤ time → to_uint32 (pos time -ℤ pos last) ≡ (time - last) % 2 ^ 32
unfolding to_uint32 ◌-ℤ◌
elapsed last time h = ground arith

pub same_packet :
    (htonq : ℤ → List ℕ) (start : ℤ) {ts ts' seq seq' : ℕ} (o : Option Sample)
    → ts ≡ ts'
    → seq ≡ seq'
    → some (packet_of htonq start ts seq o) ≡ some (packet_of htonq start ts' seq' o)
same_packet htonq start o h k = rw (h, k) refl

-- A timestamp that counts from `first` goes on to do so.
add_elapsed :
    (ts0 first last time ts : ℕ)
    → first ≤ last
    → last ≤ time
    → ts ≡ (ts0 + (last - first)) % 2 ^ 32
    → add32 ts (to_uint32 (pos time -ℤ pos last)) ≡ (ts0 + (time - first)) % 2 ^ 32
add_elapsed ts0 first last time ts le le' h = rw (elapsed last time le', h) (omega arith)

-- The timestamp of the k-th packet is that of the first and the time up to the sample before it.
pub packets-get_elem? :
    (htonq : ℤ → List ℕ) (start : ℤ) (limit first ts0 seq0 last ts seq i : ℕ)
    (samples : List Sample) (k : ℕ)
    → Streamable limit last samples
    → first ≤ last
    → ts ≡ (ts0 + (last - first)) % 2 ^ 32
    → seq ≡ (seq0 + i) % 2 ^ 16
    → k ≤ length samples
    → get_elem? (packets htonq start last ts seq samples) k
      ≡ some (
          packet_of htonq start
            ((ts0 + (time_before last samples k - first)) % 2 ^ 32)
            ((seq0 + i + k) % 2 ^ 16)
            (get_elem? samples k))
unfolding packets Streamable time_before
packets-get_elem? htonq start limit first ts0 seq0 last ts seq i [] zero ok le ts_eq seq_eq h =
    same_packet htonq start none ts_eq (omega arith)
packets-get_elem? htonq start limit first ts0 seq0 last ts seq i [] (suc k) ok le ts_eq seq_eq h =
    absurd (omega arith)
packets-get_elem? htonq start limit first ts0 seq0 last ts seq i (x ∷ samples) zero ok le ts_eq
      seq_eq h =
    same_packet htonq start (some x) ts_eq (omega arith)
packets-get_elem? htonq start limit first ts0 seq0 last ts seq i (x ∷ samples) (suc k) ok le ts_eq
      seq_eq h =
    packets-get_elem? htonq start limit first ts0 seq0 x.time
      (add32 ts (to_uint32 (pos x.time -ℤ pos last))) ((seq + 1) % 2 ^ 16) (suc i) samples k ok.2
      (omega (arith, ok.0)) (add_elapsed ts0 first last x.time ts le ok.0 ts_eq) (omega arith)
      (omega arith)
    ∙ same_packet htonq start (get_elem? samples k) refl (omega arith)
