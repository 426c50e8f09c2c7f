-- ===== src/Rtp.antt =====
-- What app/src/main/jni/SenderSession.cpp and ReceiverSession.cpp use of the vendored jrtplib: the
-- packets, and a session that sends them.
use audio_sync.Base.{ℕ, ◌+◌, ◌%◌, ◌^◌, ◌≤◌, ◌≡◌, Bool, Option, some, List, length}
use audio_sync.Base.Int.{ℤ}
use audio_sync.Base.Word.{add32}

-- A header extension.
pub record Extension : Type 0 where
  pub id : ℕ
  pub bytes : List ℕ

pub record RtpPacket : Type 0 where
  pub marker : Bool
  pub sequence : ℕ
  pub timestamp : ℕ
  pub extension : Option Extension
  pub payload : List ℕ

-- The arguments of `SendPacket` and `SendPacketEx`.
pub record Request : Type 0 where
  pub payload : List ℕ
  pub marker : Bool
  pub timestamp_inc : ℕ
  pub extension : Option Extension

-- The packet that a request makes of a session's timestamp and sequence number.
abbrev pub build : ℕ → ℕ → Request → RtpPacket
build ts seq r = record {
  marker = r.marker;
  sequence = seq;
  timestamp = ts;
  extension = r.extension;
  payload = r.payload;
}

-- A session that sends: `wire` is the packet that a call of `send` puts on the network, if any.
pub record Transmitter : Type 1 where
  pub State : Type 0
  pub timestamp : State → ℕ
  pub sequence : State → ℕ
  pub max_payload : ℕ
  pub send : State → Request → ℤ × State
  pub wire : State → Request → Option RtpPacket

-- The documentation of `SendPacket`: a packet that is not too large is sent with the session's
-- timestamp, which is incremented after the packet has been built.
pub record Sends (t : Transmitter) : Type 0 where
  pub wire_lem :
      (st : t.State) (r : Request)
      → length r.payload ≤ t.max_payload
      → t.wire st r ≡ some (build (t.timestamp st) (t.sequence st) r)
  pub timestamp_lem :
      (st : t.State) (r : Request)
      → length r.payload ≤ t.max_payload
      → t.timestamp (t.send st r).1 ≡ add32 (t.timestamp st) r.timestamp_inc
  pub sequence_lem :
      (st : t.State) (r : Request)
      → length r.payload ≤ t.max_payload
      → t.sequence (t.send st r).1 ≡ (t.sequence st + 1) % 2 ^ 16
