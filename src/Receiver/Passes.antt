-- ===== src/Receiver/Passes.antt =====
-- When the outer loop of `ReceiverSession::RunNetwork` ends.
use audio_sync.Base.{
  ℕ, some, ap, ◌∙◌, ◌≡◌, refl, Bool, true, false, Option, List, [], ◌∷◌, ◌++◌, if◌then◌else◌,
  Bool-cases, inl, inr,
}
use audio_sync.Base.Int.{ℤ}
use audio_sync.Base.Word.{sub32}
use audio_sync.Decoder.{is_ok}
use audio_sync.Rtp.{RtpPacket}
use audio_sync.Receiver.{
  Pipeline, Receiving, record_first, sync_extension, flush_after_jump, handle_packet,
  handle_packets, monitor_twice, receive,
}

module _ (p : Pipeline) (ntohq : List ℕ → ℤ) where
  handle_packets-append :
      (r : Receiving p.State) (packs : List RtpPacket) (last : RtpPacket)
      → handle_packets p ntohq r (packs ++ last ∷ [])
        ≡ handle_packet p ntohq (handle_packets p ntohq r packs) last
  unfolding handle_packets
  handle_packets-append r [] last = refl
  handle_packets-append r (pack ∷ packs) last =
      handle_packets-append (handle_packet p ntohq r pack) packs last

  goes_on :
      (r : Receiving p.State) (pack : RtpPacket)
      → ((st : p.State) (payload : Option (List ℕ)) (timestamp : ℕ)
          → is_ok (p.enqueue st payload timestamp).0 ≡ true)
      → (handle_packet p ntohq r pack).has_input ≡ (if pack.marker then false else true)
  unfolding handle_packet
  goes_on r pack accepts = elim (Bool-cases pack.marker) [
    | inl e ↦ rw e refl
    | inr e ↦
        let q = record_first p ntohq r pack in
        let timestamp = sub32 pack.timestamp q.begin_timestamp in
        rw
          (
            e,
            accepts
                (flush_after_jump p ntohq (sync_extension p ntohq q.pipeline pack timestamp) q pack
                  timestamp)
                (some pack.payload) timestamp,
          )
          refl
  ]

  receive_ended :
      (r : Receiving p.State) (passes : List (List RtpPacket))
      → r.has_input ≡ false
      → receive p ntohq r passes ≡ r
  unfolding receive
  receive_ended r [] ended = refl
  receive_ended r (packs ∷ passes) ended = rw ended refl

  receive_going :
      (r : Receiving p.State) (packs : List RtpPacket) (passes : List (List RtpPacket))
      → r.has_input ≡ true
      → receive p ntohq r (packs ∷ passes)
        ≡ receive p ntohq (monitor_twice p ntohq (handle_packets p ntohq r packs)) passes
  unfolding receive
  receive_going r packs passes going = rw going refl

  receive_decided :
      (r : Receiving p.State) (passes : List (List RtpPacket)) (end : Bool)
      → r.has_input ≡ (if end then false else true)
      → receive p ntohq r passes ≡ (if end then r else receive p ntohq r passes)
  receive_decided r passes true decided = receive_ended r passes decided
  receive_decided r passes false decided = refl

  -- If the decoder takes every packet, only the last packet of a pass decides: with the mark of the
  -- end on it the loop is over, and without the loop goes on, also when a packet before it had the
  -- mark.
  pub receive_lem :
      (r : Receiving p.State) (packs : List RtpPacket) (last : RtpPacket)
      (passes : List (List RtpPacket))
      → ((st : p.State) (payload : Option (List ℕ)) (timestamp : ℕ)
          → is_ok (p.enqueue st payload timestamp).0 ≡ true)
      → r.has_input ≡ true
      → receive p ntohq r ((packs ++ last ∷ []) ∷ passes) ≡ (
          if last.marker
          then monitor_twice p ntohq (handle_packets p ntohq r (packs ++ last ∷ []))
          else receive p ntohq
              (monitor_twice p ntohq (handle_packets p ntohq r (packs ++ last ∷ [])))
              passes)
  unfolding receive monitor_twice
  receive_lem r packs last passes accepts going =
      receive_going r (packs ++ last ∷ []) passes going
      ∙ receive_decided (monitor_twice p ntohq (handle_packets p ntohq r (packs ++ last ∷ [])))
          passes last.marker
          (ap (λ q. q.has_input) (handle_packets-append r packs last)
            ∙ goes_on (handle_packets p ntohq r packs) last accepts)
