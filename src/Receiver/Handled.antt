-- ===== src/Receiver/Handled.antt =====
-- The calls of one pass through the inner loop of `ReceiverSession::RunNetwork`.
use audio_sync.Base.{
  ℕ, ◌≡◌, refl, sym, ap, ◌∙◌, Bool, ◌&&◌, Option, none, some, List, [], ◌∷◌, ◌++◌, ltb, ◌==◌,
  if◌then◌else◌, length, Bool-cases, Option-cases, inl, inr, ◌+◌,
}
use mathlib.Core.List.{append_assoc, append-nil}
use audio_sync.Base.Int.{ℤ}
use audio_sync.Base.Word.{sub32}
use audio_sync.Rtp.{RtpPacket}
use audio_sync.Sender.{extension_header_id}
use audio_sync.Receiver.{
  Receiving, no_timestamp, size_of_int64, record_first, sync_extension, flush_after_jump,
  handle_packet,
}
use audio_sync.Receiver.Calls.{
  Call, sync, flush, enqueue, dequeue, recorder, syncs, feeds, sync_of, feed_of, syncs-append,
  feeds-append,
}

module _ (status : List Call → ℤ) (more : List Call → Bool) (ntohq : List ℕ → ℤ) where
  -- The calls of the two steps that may make one.
  synced :
      (calls : List Call) (pack : RtpPacket) (begin : ℕ)
      → (syncs (sync_extension (recorder status more) ntohq calls pack (sub32 pack.timestamp begin))
          ≡ syncs calls ++ sync_of ntohq begin pack)
        × (feeds
              (sync_extension (recorder status more) ntohq calls pack (sub32 pack.timestamp begin))
            ≡ feeds calls)
  unfolding sync_extension sync_of syncs feeds
  synced calls pack begin = elim (Option-cases pack.extension) [
    | inl absent ↦ rw absent (sym (append-nil (syncs calls)), refl)
    | inr (ext, present) ↦
        elim (Bool-cases (ext.id == extension_header_id && length ext.bytes == size_of_int64)) [
          | inl ours ↦
              rw (present, ours)
                (
                  syncs-append calls (sync (ntohq ext.bytes) (sub32 pack.timestamp begin) ∷ []),
                  feeds-append calls (sync (ntohq ext.bytes) (sub32 pack.timestamp begin) ∷ [])
                      ∙ append-nil (feeds calls),
                )
          | inr other ↦ rw (present, other) (sym (append-nil (syncs calls)), refl)
        ]
  ]

  flushed :
      (calls : List Call) (r : Receiving (List Call)) (pack : RtpPacket) (timestamp : ℕ)
      → (syncs (flush_after_jump (recorder status more) ntohq calls r pack timestamp) ≡ syncs calls)
        × (feeds (flush_after_jump (recorder status more) ntohq calls r pack timestamp)
            ≡ feeds calls)
  unfolding flush_after_jump syncs feeds
  flushed calls r pack timestamp = elim (Bool-cases (pack.sequence == r.last_seq_num + 1)) [
    | inl next ↦ rw next (refl, refl)
    | inr jumped ↦ elim (Bool-cases (ltb 50000 (sub32 timestamp r.last_timestamp))) [
      | inl long ↦
          rw (jumped, long)
            (
              syncs-append calls (flush ∷ []) ∙ append-nil (syncs calls),
              feeds-append calls (flush ∷ []) ∙ append-nil (feeds calls),
            )
      | inr short ↦ rw (jumped, short) (refl, refl)
    ]
  ]

  record_first-pipeline :
      (r : Receiving (List Call)) (pack : RtpPacket)
      → (record_first (recorder status more) ntohq r pack).pipeline ≡ r.pipeline
  unfolding record_first
  record_first-pipeline r pack = elim (Bool-cases (r.begin_timestamp == no_timestamp)) [
    | inl unset ↦ rw unset refl
    | inr set ↦ rw set refl
  ]

  -- The calls at the end of the body.
  fed :
      (calls : List Call) (pack : RtpPacket) (timestamp : ℕ)
      → (syncs (
            (if pack.marker
              then calls ++ enqueue none timestamp ∷ []
              else calls ++ enqueue (some pack.payload) timestamp ∷ [])
            ++ dequeue ∷ [])
          ≡ syncs calls)
        × (feeds (
              (if pack.marker
                then calls ++ enqueue none timestamp ∷ []
                else calls ++ enqueue (some pack.payload) timestamp ∷ [])
              ++ dequeue ∷ [])
            ≡ feeds calls ++ (if pack.marker then none else some pack.payload, timestamp) ∷ [])
  unfolding syncs feeds
  fed calls pack timestamp = elim (Bool-cases pack.marker) [
    | inl end ↦ rw end (added (enqueue none timestamp) refl, fed_with none)
    | inr payload ↦
        rw payload
          (added (enqueue (some pack.payload) timestamp) refl, fed_with (some pack.payload))
  ]
    where
      added :
          (c : Call)
          → syncs (c ∷ dequeue ∷ []) ≡ []
          → syncs ((calls ++ c ∷ []) ++ dequeue ∷ []) ≡ syncs calls
      added c no_sync =
          ap syncs (append_assoc calls (c ∷ []) (dequeue ∷ []))
          ∙ syncs-append calls (c ∷ dequeue ∷ [])
          ∙ ap (λ l. syncs calls ++ l) no_sync
          ∙ append-nil (syncs calls)

      fed_with :
          (payload : Option (List ℕ))
          → feeds ((calls ++ enqueue payload timestamp ∷ []) ++ dequeue ∷ [])
            ≡ feeds calls ++ (payload, timestamp) ∷ []
      fed_with payload =
          ap feeds (append_assoc calls (enqueue payload timestamp ∷ []) (dequeue ∷ []))
          ∙ feeds-append calls (enqueue payload timestamp ∷ dequeue ∷ [])

  -- One packet, when the timestamps are counted from `begin` in its step.
  pub handled :
      (r : Receiving (List Call)) (pack : RtpPacket) (begin : ℕ)
      → (record_first (recorder status more) ntohq r pack).begin_timestamp ≡ begin
      → (syncs (handle_packet (recorder status more) ntohq r pack).pipeline
          ≡ syncs r.pipeline ++ sync_of ntohq begin pack)
        × (feeds (handle_packet (recorder status more) ntohq r pack).pipeline
            ≡ feeds r.pipeline ++ feed_of begin pack)
        × ((handle_packet (recorder status more) ntohq r pack).begin_timestamp ≡ begin)
  unfolding handle_packet feed_of
  handled r pack begin counted =
      let q = record_first (recorder status more) ntohq r pack in
      let timestamp = sub32 pack.timestamp begin in
      let a = sync_extension (recorder status more) ntohq r.pipeline pack timestamp in
      let b = flush_after_jump (recorder status more) ntohq a q pack timestamp in
      rw (counted, record_first-pipeline r pack)
        (
          (fed b pack timestamp).0
              ∙ (flushed a q pack timestamp).0
              ∙ (synced r.pipeline pack begin).0,
          (fed b pack timestamp).1
              ∙ ap (λ l. l ++ feed_of begin pack)
                  ((flushed a q pack timestamp).1 ∙ (synced r.pipeline pack begin).1),
          refl,
        )
