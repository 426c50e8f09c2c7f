-- ===== src/Sender/Sent.antt =====
-- The k-th packet that `SenderSession::RunNetwork` sends.
use audio_sync.Base.{
  ℕ, ◌+◌, ◌-◌, ◌%◌, ◌^◌, ◌≤◌, ◌<◌, ◌≡◌, refl, ◌∙◌, List, [], ◌∷◌, arith, length, get_elem?, some,
}
use audio_sync.Base.Int.{ℤ}
use audio_sync.Ndk.{Extractor}
use audio_sync.Rtp.{Transmitter, Sends}
use audio_sync.Sender.{stream, first_state}
use audio_sync.Sender.Packets.{
  Sample, Yields, Streamable, time_before, packet_of, packets-length, packets-get_elem?,
  same_packet,
}
use audio_sync.Sender.Wire.{Resumes, stream_sends}

unfoldable pub first_time : List Sample → ℕ
first_time [] = 0
first_time (x ∷ samples) = x.time

module _ (e : Extractor) (t : Transmitter) (laws : Sends t) (htonq : ℤ → List ℕ) (start : ℤ) where
  first-Resumes :
      (extractor : e.State) (rtp : t.State) (samples : List Sample)
      → Resumes e t laws htonq start
          (first_state e t htonq extractor rtp)
          (first_time samples)
          samples
  unfolding Resumes first_time
  first-Resumes extractor rtp [] = tt
  first-Resumes extractor rtp (x ∷ samples) = refl

  -- For a file whose sample times do not fall, whose samples fit into the sender's buffer and into a
  -- packet, and a session that is not stopped before the end: there is one packet for each sample and
  -- one for the end. Packet k carries sample k and the system time to play it at, its sequence
  -- number is k after the first, and its timestamp is behind the first one by the time from sample 0
  -- to sample k - 1, not to sample k.
  pub sent_lem :
      (extractor : e.State) (rtp : t.State) (samples : List Sample) (running k : ℕ)
      → Yields e extractor samples
      → Streamable t.max_payload (first_time samples) samples
      → length samples < running
      → t.timestamp rtp < 2 ^ 32
      → t.sequence rtp < 2 ^ 16
      → k ≤ length samples
      → (length (stream e t htonq running start (first_state e t htonq extractor rtp)).sent
          ≡ length samples + 1)
        × (get_elem? (stream e t htonq running start (first_state e t htonq extractor rtp)).sent k
            ≡ some (
                packet_of htonq start
                  ((t.timestamp rtp
                      + (time_before (first_time samples) samples k - first_time samples))
                    % 2 ^ 32)
                  ((t.sequence rtp + k) % 2 ^ 16)
                  (get_elem? samples k)))
  sent_lem extractor rtp samples running k yields ok enough ts_bound seq_bound h =
      rw
        (stream_sends e t laws htonq start running (first_time samples) samples
          (first_state e t htonq extractor rtp) {w = 0} enough yields ok
          (first-Resumes extractor rtp samples) refl)
        (
          omega (
            arith,
            packets-length htonq start (first_time samples) (t.timestamp rtp) (t.sequence rtp)
                samples,
          ),
          packets-get_elem? htonq start t.max_payload (first_time samples) (t.timestamp rtp)
                (t.sequence rtp) (first_time samples) (t.timestamp rtp) (t.sequence rtp) 0 samples k
                ok (omega arith) (omega arith) (omega arith) h
              ∙ same_packet htonq start (get_elem? samples k) refl (omega arith),
        )
