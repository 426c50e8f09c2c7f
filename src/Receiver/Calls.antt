-- ===== src/Receiver/Calls.antt =====
-- The calls that `ReceiverSession::RunNetwork` makes, and those that a packet is to cause.
use audio_sync.Base.{
  ℕ, ◌≡◌, refl, Bool, ◌&&◌, Option, none, some, List, [], ◌∷◌, ◌++◌, ◌==◌, if◌then◌else◌, length,
}
use audio_sync.Base.Int.{ℤ}
use audio_sync.Base.Word.{sub32}
use audio_sync.Rtp.{RtpPacket}
use audio_sync.Sender.{extension_header_id}
use audio_sync.Receiver.{Pipeline, size_of_int64}

pub data Call : Type 0 where
  sync : ℤ → ℕ → Call
  flush : Call
  enqueue : Option (List ℕ) → ℕ → Call
  dequeue : Call
  monitor : Call

-- Decoder and player that note their calls; what they answer may depend on all calls before.
abbrev pub recorder : (List Call → ℤ) → (List Call → Bool) → Pipeline
recorder status more = record {
  State = List Call;
  sync = λ calls system playback. calls ++ sync system playback ∷ [];
  flush = λ calls. calls ++ flush ∷ [];
  enqueue = λ calls payload timestamp. (status calls, calls ++ enqueue payload timestamp ∷ []);
  dequeue = λ calls. (more calls, calls ++ dequeue ∷ []);
  monitor = λ calls. calls ++ monitor ∷ [];
}

-- The synchronisations among the calls, and what the decoder was fed with.
unfoldable pub syncs : List Call → List (ℤ × ℕ)
syncs [] = []
syncs (sync system playback ∷ calls) = (system, playback) ∷ syncs calls
syncs (flush ∷ calls) = syncs calls
syncs (enqueue payload timestamp ∷ calls) = syncs calls
syncs (dequeue ∷ calls) = syncs calls
syncs (monitor ∷ calls) = syncs calls

unfoldable pub feeds : List Call → List (Option (List ℕ) × ℕ)
feeds [] = []
feeds (sync system playback ∷ calls) = feeds calls
feeds (flush ∷ calls) = feeds calls
feeds (enqueue payload timestamp ∷ calls) = (payload, timestamp) ∷ feeds calls
feeds (dequeue ∷ calls) = feeds calls
feeds (monitor ∷ calls) = feeds calls

-- What is to be done for a packet, of which `begin` is the timestamp to count from.
unfoldable pub sync_of : (List ℕ → ℤ) → ℕ → RtpPacket → List (ℤ × ℕ)
sync_of ntohq begin pack = elim pack.extension [
  | none ↦ []
  | some ext ↦
      if ext.id == extension_header_id && length ext.bytes == size_of_int64
      then (ntohq ext.bytes, sub32 pack.timestamp begin) ∷ []
      else []
]

unfoldable pub feed_of : ℕ → RtpPacket → List (Option (List ℕ) × ℕ)
feed_of begin pack =
    (if pack.marker then none else some pack.payload, sub32 pack.timestamp begin) ∷ []

unfoldable pub sync_list : (List ℕ → ℤ) → ℕ → List RtpPacket → List (ℤ × ℕ)
sync_list ntohq begin [] = []
sync_list ntohq begin (pack ∷ packs) = sync_of ntohq begin pack ++ sync_list ntohq begin packs

unfoldable pub feed_list : ℕ → List RtpPacket → List (Option (List ℕ) × ℕ)
feed_list begin [] = []
feed_list begin (pack ∷ packs) = feed_of begin pack ++ feed_list begin packs

pub syncs-append : (a b : List Call) → syncs (a ++ b) ≡ syncs a ++ syncs b
unfolding syncs
syncs-append [] b = refl
syncs-append (sync system playback ∷ a) b = rw (syncs-append a b) refl
syncs-append (flush ∷ a) b = syncs-append a b
syncs-append (enqueue payload timestamp ∷ a) b = syncs-append a b
syncs-append (dequeue ∷ a) b = syncs-append a b
syncs-append (monitor ∷ a) b = syncs-append a b

pub feeds-append : (a b : List Call) → feeds (a ++ b) ≡ feeds a ++ feeds b
unfolding feeds
feeds-append [] b = refl
feeds-append (sync system playback ∷ a) b = feeds-append a b
feeds-append (flush ∷ a) b = feeds-append a b
feeds-append (enqueue payload timestamp ∷ a) b = rw (feeds-append a b) refl
feeds-append (dequeue ∷ a) b = feeds-append a b
feeds-append (monitor ∷ a) b = feeds-append a b
