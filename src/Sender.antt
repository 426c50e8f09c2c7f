-- ===== src/Sender.antt =====
-- app/src/main/jni/SenderSession.cpp and SenderSession.h: the loop that streams the samples of a
-- file, the playback clock, and (in Clients) the handlers of jrtplib's events.
pub mod Clients
pub mod Connected
pub mod Packets
pub mod Wire
pub mod Sent
pub mod Network
pub mod Release
mod Tests
use audio_sync.Base.{
  ℕ, zero, suc, ◌+◌, ◌-◌, ◌*◌, ◌%◌, ◌^◌, Bool, true, false, Option, none, some, List, [], ◌∷◌, ◌++◌,
  if◌then◌else◌, take,
}
use audio_sync.Base.Int.{ℤ, pos, negsuc, ◌+ℤ◌, ◌-ℤ◌}
use audio_sync.Ndk.{Extractor}
use audio_sync.Decoder.{extract_data}
use audio_sync.AppPacket.{ClockReading, time_us, second_micro}
use audio_sync.Rtp.{Extension, RtpPacket, Request, Transmitter}

-- AUDIOSYNC_EXTENSION_HEADER_ID.
abbrev pub extension_header_id : ℕ
extension_header_id = 7

-- The cast of an `int64_t` to `uint32_t`.
unfoldable pub to_uint32 : ℤ → ℕ
to_uint32 (pos n) = n % 2 ^ 32
to_uint32 (negsuc n) = 2 ^ 32 - 1 - n % 2 ^ 32

pub transmission_latency : ℤ
transmission_latency = pos (10 * second_micro)

-- `playbackStartUs`, which `RunNetwork` sets before it streams.
pub playback_start : ClockReading → ℤ
unfolding transmission_latency
playback_start now = pos (time_us now) +ℤ transmission_latency

pub current_playback_time_us : ClockReading → ℤ → ℤ
current_playback_time_us now start = elim (pos (time_us now) -ℤ start) [
  | pos n ↦ pos n
  | negsuc _ ↦ pos 0
]

-- The local variables of the loop, the session's own state, and what went out.
pub record Streaming (E : Type 0) (R : Type 0) : Type 0 where
  pub extractor : E
  pub rtp : R
  pub written : ℤ
  pub last_time : ℤ
  pub sent : List RtpPacket

abbrev pub is_unset : ℤ → Bool
is_unset (pos _) = false
is_unset (negsuc zero) = true
is_unset (negsuc (suc _)) = false

abbrev pub put : List RtpPacket → Option RtpPacket → List RtpPacket
put sent none = sent
put sent (some p) = sent ++ p ∷ []

module _ (e : Extractor) (t : Transmitter) (htonq : ℤ → List ℕ) where
  -- The packet that is sent for what `decoder_extractData` gave: a sample with the time to play it
  -- at, or the mark of the end.
  unfoldable pub request : ℤ → ℤ → List ℕ → ℤ → ℕ → Request
  request start (pos n) bytes time inc = record {
    payload = take n bytes;
    marker = false;
    timestamp_inc = inc;
    extension = some (record { id = extension_header_id; bytes = htonq (start +ℤ time) });
  }
  request start (negsuc _) bytes time inc = record {
    payload = 0 ∷ [];
    marker = true;
    timestamp_inc = inc;
    extension = none;
  }

  -- The body of the loop of `RunNetwork`. Its waits, and the packets that it takes in and drops,
  -- leave this state alone.
  unfoldable pub stream_step : ℤ → Streaming e.State t.State → Streaming e.State t.State
  unfolding request to_uint32
  stream_step start s =
      let (written, bytes, time, extractor') = extract_data e s.extractor 8192 in
      let last = if is_unset s.last_time then time else s.last_time in
      let r = request start written bytes time (to_uint32 (time -ℤ last)) in
      record {
        extractor = extractor';
        rtp = (t.send s.rtp r).1;
        written = written;
        last_time = time;
        sent = put s.sent (t.wire s.rtp r);
      }

  -- The loop, with the number of times that it finds the session running.
  unfoldable pub stream : ℕ → ℤ → Streaming e.State t.State → Streaming e.State t.State
  unfolding stream_step
  stream zero start s = s
  stream (suc running) start s =
      let rest = stream running start (stream_step start s) in
      elim s.written [ pos _ ↦ rest | negsuc _ ↦ s ]

  abbrev pub first_state : e.State → t.State → Streaming e.State t.State
  first_state extractor rtp = record {
    extractor = extractor;
    rtp = rtp;
    written = pos 0;
    last_time = negsuc 0;
    sent = [];
  }
