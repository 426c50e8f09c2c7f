-- ===== src/Sync/Start.antt =====
-- When a receiver starts to play.
use audio_sync.Base.{
  ℕ, ◌+◌, ◌^◌, ◌<◌, ◌≡◌, ◌≢◌, ap, ◌∙◌, Bool, false, some, List, [], ◌∷◌, arith, length, get_elem?,
}
use audio_sync.Base.Int.{ℤ, pos, ◌-ℤ◌}
use audio_sync.Ndk.{Extractor}
use audio_sync.Rtp.{RtpPacket, Transmitter, Sends}
use audio_sync.Sender.{to_uint32}
use audio_sync.Sender.Packets.{Sample, Yields, Streamable, time_before}
use audio_sync.Sender.Sent.{first_time}
use audio_sync.Receiver.{no_timestamp, first_state, handle_packets}
use audio_sync.Receiver.Calls.{Call, recorder, syncs}
use audio_sync.Player.Control.{is_zero, sync_all}
use audio_sync.Player.Rate.{sync_all_lem}
use audio_sync.Sync.{Delivers, due, schedule, all_sent, syncs-schedule}

no_time : (a : ℕ) → to_uint32 (pos a -ℤ pos a) ≡ 0
unfolding to_uint32 ◌-ℤ◌
no_time a = ground arith

from_zero : (n : ℕ) → pos n -ℤ pos 0 ≡ pos n
unfolding ◌-ℤ◌
from_zero n = ground arith

is_positive : (n : ℕ) → 0 < n → is_zero (pos n -ℤ pos 0) ≡ false
unfolding ◌-ℤ◌
is_positive n h = ground arith

-- The player begins with the first packet of the schedule.
schedule_start :
    (start : ℕ) (samples : List Sample) (k0 : ℕ) (ks : List ℕ) (x : Sample)
    → get_elem? samples k0 ≡ some x
    → 0 < start
    → sync_all (pos 0) (schedule start samples k0 (k0 ∷ ks)) ≡ pos (start + x.time)
unfolding schedule due
schedule_start start samples k0 ks x found later =
    rw (found, no_time (time_before (first_time samples) samples k0))
      (sync_all_lem (pos (start + x.time)) 0 (schedule start samples k0 ks)
          (is_positive (start + x.time) (omega arith))
        ∙ from_zero (start + x.time))

-- For a sender and a network as in `syncs-schedule`, and a receiver whose first packet is that of
-- sample k0: the player counts playback time 0 from the system time at which the sender wants
-- sample k0 played, whatever packets follow.
pub receiver_starts :
    (htonq : ℤ → List ℕ) (ntohq : List ℕ → ℤ) (eight : (x : ℤ) → length (htonq x) ≡ 8)
    (inverse : (n : ℕ) → n < 2 ^ 63 → ntohq (htonq (pos n)) ≡ pos n) (start : ℕ)
    (samples : List Sample)
    (in_range : (k : ℕ) (x : Sample) → get_elem? samples k ≡ some x → start + x.time < 2 ^ 63)
    (e : Extractor) (t : Transmitter) (laws : Sends t) (extractor : e.State) (rtp : t.State)
    (running : ℕ) (yields : Yields e extractor samples)
    (ok : Streamable t.max_payload (first_time samples) samples) (enough : length samples < running)
    (ts_bound : t.timestamp rtp < 2 ^ 32) (seq_bound : t.sequence rtp < 2 ^ 16)
    (status : List Call → ℤ) (more : List Call → Bool) (k0 : ℕ) (ks : List ℕ) (x : Sample)
    (first : RtpPacket) (packs : List RtpPacket)
    → Delivers
        (all_sent htonq ntohq eight inverse start samples in_range e t laws extractor rtp running
          yields ok enough ts_bound seq_bound)
        (k0 ∷ ks)
        (first ∷ packs)
    → first.timestamp ≢ no_timestamp
    → get_elem? samples k0 ≡ some x
    → 0 < start
    → sync_all (pos 0) (
        syncs
          (handle_packets
            (recorder status more)
            ntohq
            (first_state (recorder status more) ntohq [])
            (first ∷ packs)).pipeline)
      ≡ pos (start + x.time)
receiver_starts htonq ntohq eight inverse start samples in_range e t laws extractor rtp running
      yields ok enough ts_bound seq_bound status more k0 ks x first packs d real found later =
    ap (sync_all (pos 0)) (
      syncs-schedule htonq ntohq eight inverse start samples in_range e t laws extractor rtp running
        yields ok enough ts_bound seq_bound status more k0 ks first packs d real)
    ∙ schedule_start start samples k0 ks x found later
