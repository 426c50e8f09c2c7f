-- ===== src/Receiver/Handle.antt =====
-- The calls of `ReceiverSession::RunNetwork` for the packets that arrive.
use audio_sync.Base.{
  ℕ, ◌≡◌, ◌≢◌, refl, sym, ap, ◌∙◌, Bool, List, [], ◌∷◌, ◌++◌, ◌==◌, Bool-cases, inl, inr, ==_iff,
}
use mathlib.Core.List.{append_assoc, append-nil}
use audio_sync.Base.Int.{ℤ}
use audio_sync.Rtp.{RtpPacket}
use audio_sync.Receiver.{
  Receiving, no_timestamp, first_state, record_first, handle_packet, handle_packets,
}
use audio_sync.Receiver.Calls.{Call, recorder, syncs, feeds, sync_of, feed_of, sync_list, feed_list}
use audio_sync.Receiver.Handled.{handled}

module _ (status : List Call → ℤ) (more : List Call → Bool) (ntohq : List ℕ → ℤ) where
  first_counts :
      (r : Receiving (List Call)) (pack : RtpPacket)
      → r.begin_timestamp ≡ no_timestamp
      → (record_first (recorder status more) ntohq r pack).begin_timestamp ≡ pack.timestamp
  unfolding record_first
  first_counts r pack unset = rw unset refl

  later_counts :
      (r : Receiving (List Call)) (pack : RtpPacket) {begin : ℕ}
      → r.begin_timestamp ≡ begin
      → begin ≢ no_timestamp
      → (record_first (recorder status more) ntohq r pack).begin_timestamp ≡ begin
  unfolding record_first
  later_counts r pack {begin} set real = elim (Bool-cases (r.begin_timestamp == no_timestamp)) [
    | inl e ↦ absurd (real (sym set ∙ (==_iff r.begin_timestamp no_timestamp).0 e))
    | inr e ↦ rw e set
  ]

  handled_all :
      (r : Receiving (List Call)) (packs : List RtpPacket) (begin : ℕ)
      → r.begin_timestamp ≡ begin
      → begin ≢ no_timestamp
      → (syncs (handle_packets (recorder status more) ntohq r packs).pipeline
          ≡ syncs r.pipeline ++ sync_list ntohq begin packs)
        × (feeds (handle_packets (recorder status more) ntohq r packs).pipeline
            ≡ feeds r.pipeline ++ feed_list begin packs)
  unfolding handle_packets sync_list feed_list
  handled_all r [] begin set real =
      (sym (append-nil (syncs r.pipeline)), sym (append-nil (feeds r.pipeline)))
  handled_all r (pack ∷ packs) begin set real =
      let once = handled status more ntohq r pack begin (later_counts r pack set real) in
      let rest =
        handled_all (handle_packet (recorder status more) ntohq r pack) packs begin once.2 real in
      (
        rest.0
            ∙ ap (λ l. l ++ sync_list ntohq begin packs) once.0
            ∙ append_assoc (syncs r.pipeline) (sync_of ntohq begin pack)
                (sync_list ntohq begin packs),
        rest.1
            ∙ ap (λ l. l ++ feed_list begin packs) once.1
            ∙ append_assoc (feeds r.pipeline) (feed_of begin pack) (feed_list begin packs),
      )

  -- Whatever the decoder and the player answer: of the packets of a pass, from the first one on, the
  -- player is synchronised once with each that has the sender's extension, and with no other; the
  -- decoder is given, once for each packet, its payload if it has no mark, and the end of the stream if it
  -- has one; both in the order of the packets. Timestamps are counted
  -- from that of the first packet, which is not the mark for no timestamp.
  pub handle_packets_lem :
      (first : RtpPacket) (packs : List RtpPacket)
      → first.timestamp ≢ no_timestamp
      → (syncs
            (handle_packets
              (recorder status more)
              ntohq
              (first_state (recorder status more) ntohq [])
              (first ∷ packs)).pipeline
          ≡ sync_list ntohq first.timestamp (first ∷ packs))
        × (feeds
              (handle_packets
                (recorder status more)
                ntohq
                (first_state (recorder status more) ntohq [])
                (first ∷ packs)).pipeline
            ≡ feed_list first.timestamp (first ∷ packs))
  unfolding handle_packets sync_list feed_list syncs feeds
  handle_packets_lem first packs real =
      let r = first_state (recorder status more) ntohq [] in
      let once = handled status more ntohq r first first.timestamp (first_counts r first refl) in
      let rest =
        handled_all (handle_packet (recorder status more) ntohq r first) packs first.timestamp
          once.2 real in
      (
        rest.0 ∙ ap (λ l. l ++ sync_list ntohq first.timestamp packs) once.0,
        rest.1 ∙ ap (λ l. l ++ feed_list first.timestamp packs) once.1,
      )
