-- ===== src/Sync.antt =====
-- Sender and receiver together: app/src/main/jni/SenderSession.cpp streams a file, a network
-- delivers some of the packets, and app/src/main/jni/ReceiverSession.cpp synchronises the player.
mod Tests
pub mod Start
use audio_sync.Base.{
  ℕ, zero, suc, ◌+◌, ◌-◌, ◌%◌, ◌^◌, ◌≤◌, ◌<◌, ◌≡◌, ◌≢◌, refl, sym, ap, ◌∙◌, Bool, true, false, ◌&&◌,
  Option, none, some, List, [], ◌∷◌, ◌++◌, arith, length, get_elem?, if◌then◌else◌, ◌==◌, dec_lt,
  Option-cases, inl, inr,
}
use audio_sync.Base.Int.{ℤ, pos, negsuc, ◌+ℤ◌, ◌-ℤ◌}
use audio_sync.Base.Word.{sub32}
use audio_sync.Ndk.{Extractor}
use audio_sync.Rtp.{RtpPacket, Transmitter, Sends}
use audio_sync.Sender.{to_uint32, stream}
use audio_sync.Sender.Packets.{Sample, Yields, Streamable, time_before, packet_of}
use audio_sync.Sender.Sent.{first_time, sent_lem}
use audio_sync.Receiver.{no_timestamp, first_state, handle_packets}
use audio_sync.Receiver.Calls.{Call, recorder, syncs, sync_of, sync_list}
use audio_sync.Receiver.Handle.{handle_packets_lem}

-- A network delivers the packets with these numbers, in this order: some may be lost, come late or
-- come twice.
pub Delivers : List RtpPacket → List ℕ → List RtpPacket → Type 0
Delivers sent [] [] = Unit
Delivers sent [] (pack ∷ packs) = ⊥
Delivers sent (k ∷ ks) [] = ⊥
Delivers sent (k ∷ ks) (pack ∷ packs) =
    (k < length sent) × (get_elem? sent k ≡ some pack) × Delivers sent ks packs

-- What the player is told for the packet of a sample: the system time of the sample, and the time
-- from the sample before that of the receiver's first packet to the sample before this one. The
-- packet of the end says nothing.
unfoldable pub due : ℕ → ℕ → ℕ → Option Sample → List (ℤ × ℕ)
due start before before_first none = []
due start before before_first (some x) =
    (pos (start + x.time), to_uint32 (pos before -ℤ pos before_first)) ∷ []

unfoldable pub schedule : ℕ → List Sample → ℕ → List ℕ → List (ℤ × ℕ)
schedule start samples k0 [] = []
schedule start samples k0 (k ∷ ks) =
    due start (time_before (first_time samples) samples k)
      (time_before (first_time samples) samples k0) (get_elem? samples k)
    ++ schedule start samples k0 ks

time_before_le :
    (limit last : ℕ) (samples : List Sample) (k : ℕ)
    → Streamable limit last samples
    → last ≤ time_before last samples k
unfolding Streamable time_before
time_before_le limit last samples zero ok = omega arith
time_before_le limit last [] (suc k) ok = omega arith
time_before_le limit last (x ∷ samples) (suc k) ok =
    omega (arith, ok.0, time_before_le limit x.time samples k ok.2)

-- Counting from another timestamp of the session.
sub32_elapsed :
    (ts first a b : ℕ)
    → first ≤ a
    → first ≤ b
    → sub32 ((ts + (a - first)) % 2 ^ 32) ((ts + (b - first)) % 2 ^ 32) ≡ to_uint32 (pos a -ℤ pos b)
unfolding to_uint32 ◌-ℤ◌
sub32_elapsed ts first a b ha hb = ground arith

pos_add : (a b : ℕ) → pos a +ℤ pos b ≡ pos (a + b)
unfolding ◌+ℤ◌
pos_add a b = ground arith

module _ (htonq : ℤ → List ℕ) (ntohq : List ℕ → ℤ) (eight : (x : ℤ) → length (htonq x) ≡ 8)
    (inverse : (n : ℕ) → n < 2 ^ 63 → ntohq (htonq (pos n)) ≡ pos n) (start : ℕ)
    (samples : List Sample)
    (in_range : (k : ℕ) (x : Sample) → get_elem? samples k ≡ some x → start + x.time < 2 ^ 63) where
  -- What the receiver makes of the k-th packet.
  sync_of-due :
      (limit ts k0 k seq : ℕ)
      → Streamable limit (first_time samples) samples
      → sync_of ntohq
          ((ts + (time_before (first_time samples) samples k0 - first_time samples)) % 2 ^ 32)
          (packet_of htonq
            (pos start)
            ((ts + (time_before (first_time samples) samples k - first_time samples)) % 2 ^ 32)
            seq
            (get_elem? samples k))
        ≡ due start
            (time_before (first_time samples) samples k)
            (time_before (first_time samples) samples k0)
            (get_elem? samples k)
  unfolding sync_of due packet_of
  sync_of-due limit ts k0 k seq ok = by_sample (get_elem? samples k) refl
    where
      by_sample :
          (o : Option Sample)
          → get_elem? samples k ≡ o
          → sync_of ntohq
              ((ts + (time_before (first_time samples) samples k0 - first_time samples)) % 2 ^ 32)
              (packet_of htonq
                (pos start)
                ((ts + (time_before (first_time samples) samples k - first_time samples)) % 2 ^ 32)
                seq
                o)
            ≡ due start
                (time_before (first_time samples) samples k)
                (time_before (first_time samples) samples k0)
                o
      by_sample none e = refl
      by_sample (some x) found =
          rw
            (
              pos_add start x.time,
              eight (pos (start + x.time)),
              inverse (start + x.time) (in_range k x found),
              sub32_elapsed ts (first_time samples) (time_before (first_time samples) samples k)
                  (time_before (first_time samples) samples k0)
                  (time_before_le limit (first_time samples) samples k ok)
                  (time_before_le limit (first_time samples) samples k0 ok),
            )
            refl

  module _ (e : Extractor) (t : Transmitter) (laws : Sends t) (extractor : e.State) (rtp : t.State)
      (running : ℕ) (yields : Yields e extractor samples)
      (ok : Streamable t.max_payload (first_time samples) samples)
      (enough : length samples < running) (ts_bound : t.timestamp rtp < 2 ^ 32)
      (seq_bound : t.sequence rtp < 2 ^ 16) where
    -- The packets of the sender.
    abbrev pub all_sent : List RtpPacket
    all_sent =
        (stream e t htonq running (pos start)
          (audio_sync.Sender.first_state e t htonq extractor rtp)).sent

    delivered :
        (k : ℕ) {pack : RtpPacket}
        → k < length all_sent
        → get_elem? all_sent k ≡ some pack
        → pack
          ≡ packet_of htonq
              (pos start)
              ((t.timestamp rtp + (time_before (first_time samples) samples k - first_time samples))
                % 2 ^ 32)
              ((t.sequence rtp + k) % 2 ^ 16)
              (get_elem? samples k)
    delivered k {pack} bound found =
        let counted =
          (sent_lem e t laws htonq (pos start) extractor rtp samples running 0 yields ok enough
            ts_bound seq_bound (omega arith)).0 in
        let there =
          (sent_lem e t laws htonq (pos start) extractor rtp samples running k yields ok enough
            ts_bound seq_bound (omega (arith, counted))).1 in
        cc (found, there)

    sync_list-schedule :
        (k0 : ℕ) {begin : ℕ} (ks : List ℕ) (packs : List RtpPacket)
        → begin
          ≡ (t.timestamp rtp + (time_before (first_time samples) samples k0 - first_time samples))
            % 2 ^ 32
        → Delivers all_sent ks packs
        → sync_list ntohq begin packs ≡ schedule start samples k0 ks
    unfolding Delivers schedule sync_list
    sync_list-schedule k0 {begin} [] [] begins d = refl
    sync_list-schedule k0 {begin} [] (pack ∷ packs) begins d = absurd d
    sync_list-schedule k0 {begin} (k ∷ ks) [] begins d = absurd d
    sync_list-schedule k0 {begin} (k ∷ ks) (pack ∷ packs) begins d =
        let rest = sync_list-schedule k0 {begin = begin} ks packs begins d.2 in
        let one =
          ap (λ b. sync_of ntohq b pack) begins
          ∙ ap
              (sync_of ntohq (
                (t.timestamp rtp
                  + (time_before (first_time samples) samples k0 - first_time samples))
                % 2 ^ 32))
              (delivered k d.0 d.1)
          ∙ sync_of-due t.max_payload (t.timestamp rtp) k0 k ((t.sequence rtp + k) % 2 ^ 16) ok in
        cc (rest, one)

    -- For a file whose sample times do not fall and whose samples fit into a packet, a session that
    -- streams all of it, and system times that fit into 63 bits: whatever packets the network
    -- delivers to a receiver in one pass, in whatever order, the player is synchronised once for
    -- each packet of a sample, with exactly the system time at which the sender wants the sample
    -- played, and with the time from the sample before the first packet's to the sample before this
    -- one, in the 32 bits of a timestamp. The first packet's timestamp is not 2 ^ 32 - 1.
    pub syncs-schedule :
        (status : List Call → ℤ) (more : List Call → Bool) (k0 : ℕ) (ks : List ℕ)
        (first : RtpPacket) (packs : List RtpPacket)
        → Delivers all_sent (k0 ∷ ks) (first ∷ packs)
        → first.timestamp ≢ no_timestamp
        → syncs
            (handle_packets
              (recorder status more)
              ntohq
              (first_state (recorder status more) ntohq [])
              (first ∷ packs)).pipeline
          ≡ schedule start samples k0 (k0 ∷ ks)
    unfolding Delivers packet_of
    syncs-schedule status more k0 ks first packs d real =
        (handle_packets_lem status more ntohq first packs real).0
        ∙ sync_list-schedule k0 (k0 ∷ ks) (first ∷ packs)
            (ap (λ p. p.timestamp) (delivered k0 d.0 d.1) ∙ stamp (get_elem? samples k0)) d
      where
        stamp :
            (o : Option Sample)
            → (packet_of htonq
                (pos start)
                ((t.timestamp rtp
                    + (time_before (first_time samples) samples k0 - first_time samples))
                  % 2 ^ 32)
                ((t.sequence rtp + k0) % 2 ^ 16)
                o).timestamp
              ≡ (t.timestamp rtp
                  + (time_before (first_time samples) samples k0 - first_time samples))
                % 2 ^ 32
        stamp none = refl
        stamp (some x) = refl
