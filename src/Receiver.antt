-- ===== src/Receiver.antt =====
-- app/src/main/jni/ReceiverSession.cpp: the loop of `RunNetwork`, which takes the packets of the
-- sender apart and passes them to the decoder and the player.
pub mod App
pub mod AppLaws
pub mod Calls
pub mod Handled
pub mod Handle
pub mod Passes
pub mod Ntp
pub mod Network
pub mod Formats
pub mod Owned
mod Tests
use audio_sync.Base.{
  ℕ, ◌+◌, ◌-◌, ◌%◌, ◌^◌, Bool, true, not, ◌&&◌, Option, none, some, List, [], ◌∷◌, ltb, ◌==◌,
  if◌then◌else◌, length,
}
use audio_sync.Base.Int.{ℤ, pos}
use audio_sync.Base.Word.{sub32}
use audio_sync.Decoder.{is_ok}
use audio_sync.Rtp.{RtpPacket}
use audio_sync.Sender.{extension_header_id}

-- What the loop calls: the player's `audioplayer_syncPlayback`, `AMediaCodec_flush`,
-- `decoder_enqueueBuffer` with a payload or with none at the end, `decoder_dequeueBuffer`, and
-- `audioplayer_monitorPlayback`.
pub record Pipeline : Type 1 where
  pub State : Type 0
  pub sync : State → ℤ → ℕ → State
  pub flush : State → State
  pub enqueue : State → Option (List ℕ) → ℕ → ℤ × State
  pub dequeue : State → Bool × State
  pub monitor : State → State

-- The local variables of the loop. `beginTimestamp` and `lastTimestamp` are `int32_t`, kept as their
-- bit patterns.
pub record Receiving (S : Type 0) : Type 0 where
  pub pipeline : S
  pub has_input : Bool
  pub has_output : Bool
  pub begin_timestamp : ℕ
  pub last_timestamp : ℕ
  pub last_seq_num : ℕ
  pub status : ℤ

-- The -1 that `beginTimestamp` starts as.
abbrev pub no_timestamp : ℕ
no_timestamp = 2 ^ 32 - 1

-- The number of bytes that `GetExtensionLength` must give.
abbrev pub size_of_int64 : ℕ
size_of_int64 = 8

module _ (p : Pipeline) (ntohq : List ℕ → ℤ) where
  -- The state before the loop, with the status of `AMediaCodec_start`.
  abbrev pub first_state : p.State → Receiving p.State
  first_state st = record {
    pipeline = st;
    has_input = true;
    has_output = true;
    begin_timestamp = no_timestamp;
    last_timestamp = 0;
    last_seq_num = 0;
    status = pos 0;
  }

  -- The first packet sets the timestamp that the others are counted from.
  unfoldable pub record_first : Receiving p.State → RtpPacket → Receiving p.State
  record_first r pack =
      if r.begin_timestamp == no_timestamp
      then record {
        pipeline = r.pipeline;
        has_input = r.has_input;
        has_output = r.has_output;
        begin_timestamp = pack.timestamp;
        last_timestamp = r.last_timestamp;
        last_seq_num = (pack.sequence + 2 ^ 16 - 1) % 2 ^ 16;
        status = r.status;
      }
      else r

  -- The call of the player, for a packet with the sender's extension.
  unfoldable pub sync_extension : p.State → RtpPacket → ℕ → p.State
  sync_extension st pack timestamp = elim pack.extension [
    | none ↦ st
    | some ext ↦
        if ext.id == extension_header_id && length ext.bytes == size_of_int64
        then p.sync st (ntohq ext.bytes) timestamp
        else st
  ]

  -- A jump of the sequence number with more than 50 ms between the packets flushes the codec. The
  -- sum is an `int`, so after 65535 a jump is seen as well.
  unfoldable pub flush_after_jump : p.State → Receiving p.State → RtpPacket → ℕ → p.State
  flush_after_jump st r pack timestamp =
      if not (pack.sequence == r.last_seq_num + 1)
      then if ltb 50000 (sub32 timestamp r.last_timestamp) then p.flush st else st
      else st

  -- The body of the inner loop.
  unfoldable pub handle_packet : Receiving p.State → RtpPacket → Receiving p.State
  unfolding record_first sync_extension flush_after_jump
  handle_packet r0 pack =
      let r = record_first r0 pack in
      let timestamp = sub32 pack.timestamp r.begin_timestamp in
      let synced = sync_extension r.pipeline pack timestamp in
      let flushed = flush_after_jump synced r pack timestamp in
      let (enqueued, queued) = p.enqueue flushed (some pack.payload) timestamp in
      let (_, ended) = p.enqueue flushed none timestamp in
      let after = if pack.marker then ended else queued in
      let (more, dequeued) = p.dequeue after in
      record {
        pipeline = dequeued;
        has_input = not pack.marker && is_ok enqueued;
        has_output = more;
        begin_timestamp = r.begin_timestamp;
        last_timestamp = timestamp;
        last_seq_num = pack.sequence;
        status = if pack.marker then r.status else enqueued;
      }

  -- The packets that one pass of the outer loop finds. The inner loop does not look at `hasInput`,
  -- which each packet sets anew.
  unfoldable pub handle_packets : Receiving p.State → List RtpPacket → Receiving p.State
  unfolding handle_packet
  handle_packets r [] = r
  handle_packets r (pack ∷ packs) = handle_packets (handle_packet r pack) packs

  -- The end of a pass of the outer loop; it sleeps between the two calls.
  unfoldable pub monitor_twice : Receiving p.State → Receiving p.State
  monitor_twice r = record r { pipeline = p.monitor (p.monitor r.pipeline) }

  -- The outer loop, over the passes that find the session running.
  unfoldable pub receive : Receiving p.State → List (List RtpPacket) → Receiving p.State
  unfolding handle_packets monitor_twice
  receive r [] = r
  receive r (packs ∷ passes) =
      let rest = receive (monitor_twice (handle_packets r packs)) passes in
      if r.has_input then rest else r
