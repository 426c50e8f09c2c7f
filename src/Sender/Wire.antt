-- ===== src/Sender/Wire.antt =====
-- The loop of `SenderSession::RunNetwork`, step by step.
use audio_sync.Base.{
  ℕ, zero, suc, ◌+◌, ◌%◌, ◌^◌, ◌≤◌, ◌<◌, ◌≡◌, refl, ◌∙◌, false, none, some, List, [], ◌∷◌, ◌++◌,
  arith, length, take_all, if◌then◌else◌,
}
use mathlib.Core.List.{append_assoc}
use audio_sync.Base.Int.{ℤ, pos, negsuc, ◌+ℤ◌, ◌-ℤ◌}
use audio_sync.Base.Word.{add32}
use audio_sync.Ndk.{Extractor}
use audio_sync.Decoder.{extract_data}
use audio_sync.Rtp.{Request, Transmitter, Sends}
use audio_sync.Sender.{
  extension_header_id, is_unset, to_uint32, Streaming, request, stream_step, stream,
}
use audio_sync.Sender.Packets.{Sample, Yields, Streamable, packet_of, packets}

module _ (e : Extractor) (t : Transmitter) (laws : Sends t) (htonq : ℤ → List ℕ) (start : ℤ) where
  open laws use {wire_lem, timestamp_lem, sequence_lem}

  -- The time that the next step counts from.
  unfoldable pub Resumes : Streaming e.State t.State → ℕ → List Sample → Type 0
  Resumes s last [] = Unit
  Resumes s last (x ∷ samples) =
      (if is_unset s.last_time then pos x.time else s.last_time) ≡ pos last

  sample_request : ℕ → Sample → Request
  sample_request last x = record {
    payload = x.bytes;
    marker = false;
    timestamp_inc = to_uint32 (pos x.time -ℤ pos last);
    extension = some (record { id = extension_header_id; bytes = htonq (start +ℤ pos x.time) });
  }

  after_sample : ℕ → Sample → Streaming e.State t.State → Streaming e.State t.State
  after_sample last x s = record {
    extractor = e.advance s.extractor;
    rtp = (t.send s.rtp (sample_request last x)).1;
    written = pos (length x.bytes);
    last_time = pos x.time;
    sent = s.sent ++ packet_of htonq start (t.timestamp s.rtp) (t.sequence s.rtp) (some x) ∷ [];
  }

  Resumes-after :
      (last : ℕ) (x : Sample) (s : Streaming e.State t.State) (samples : List Sample)
      → Resumes (after_sample last x s) x.time samples
  unfolding Resumes after_sample
  Resumes-after last x s [] = tt
  Resumes-after last x s (y ∷ samples) = refl

  stream_stops :
      (running : ℕ) (s : Streaming e.State t.State) {n : ℕ}
      → s.written ≡ negsuc n
      → stream e t htonq running start s ≡ s
  unfolding stream
  stream_stops zero s ended = refl
  stream_stops (suc running) s ended = rw ended refl

  stream_goes_on :
      (running : ℕ) (s : Streaming e.State t.State) {w : ℕ}
      → s.written ≡ pos w
      → stream e t htonq (suc running) start s
        ≡ stream e t htonq running start (stream_step e t htonq start s)
  unfolding stream
  stream_goes_on running s going = rw going refl

  step_sample :
      (last : ℕ) (x : Sample) (s : Streaming e.State t.State)
      → e.read_sample s.extractor 8192 ≡ (pos (length x.bytes), x.bytes)
      → e.sample_time s.extractor ≡ pos x.time
      → (if is_unset s.last_time then pos x.time else s.last_time) ≡ pos last
      → length x.bytes ≤ t.max_payload
      → stream_step e t htonq start s ≡ after_sample last x s
  unfolding stream_step extract_data request sample_request after_sample packet_of
  step_sample last x s read timed resumes fits =
      rw
        (
          read,
          timed,
          resumes,
          take_all (length x.bytes) x.bytes (omega arith),
          wire_lem s.rtp (sample_request last x) fits,
        )
        refl

  step_end :
      (s : Streaming e.State t.State) {n : ℕ} {bytes : List ℕ}
      → e.read_sample s.extractor 8192 ≡ (negsuc n, bytes)
      → 1 ≤ t.max_payload
      → ((stream_step e t htonq start s).written ≡ negsuc n)
        × ((stream_step e t htonq start s).sent
            ≡ s.sent ++ packet_of htonq start (t.timestamp s.rtp) (t.sequence s.rtp) none ∷ [])
  unfolding stream_step extract_data request packet_of
  step_end s {n} {bytes} read fits = (
    rw read refl,
    rw
        (
          read,
          wire_lem s.rtp
              (request e t htonq start (negsuc n) bytes (e.sample_time s.extractor) (
                to_uint32 (
                  e.sample_time s.extractor
                  -ℤ (if is_unset s.last_time then e.sample_time s.extractor else s.last_time))))
              fits,
        )
        refl,
  )

  pub stream_sends :
      (running last : ℕ) (samples : List Sample) (s : Streaming e.State t.State) {w : ℕ}
      → length samples < running
      → Yields e s.extractor samples
      → Streamable t.max_payload last samples
      → Resumes s last samples
      → s.written ≡ pos w
      → (stream e t htonq running start s).sent
        ≡ s.sent ++ packets htonq start last (t.timestamp s.rtp) (t.sequence s.rtp) samples
  unfolding Yields Streamable Resumes stream packets after_sample sample_request
  stream_sends zero last samples s {w} enough yields ok resumes going = absurd (omega arith)
  stream_sends (suc running) last [] s {w} enough (n, bytes, read) ok resumes going =
      rw
        (
          stream_goes_on running s going,
          stream_stops running (stream_step e t htonq start s) (step_end s read ok).0,
        )
        (step_end s read ok).1
  stream_sends (suc running) last (x ∷ samples) s {w} enough yields ok resumes going =
      rw (stream_goes_on running s going, step_sample last x s yields.0 yields.1 resumes ok.1)
        (stream_sends running x.time samples (after_sample last x s) (omega arith) yields.2 ok.2
            (Resumes-after last x s samples) refl
          ∙ rw
              (
                timestamp_lem s.rtp (sample_request last x) ok.1,
                sequence_lem s.rtp (sample_request last x) ok.1,
              )
              (append_assoc s.sent
                (packet_of htonq start (t.timestamp s.rtp) (t.sequence s.rtp) (some x) ∷ [])
                (packets htonq start x.time
                  (add32 (t.timestamp s.rtp) (to_uint32 (pos x.time -ℤ pos last)))
                  ((t.sequence s.rtp + 1) % 2 ^ 16) samples)))
