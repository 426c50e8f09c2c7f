-- ===== src/Receiver/Network.antt =====
-- `RunNetwork` of app/src/main/jni/ReceiverSession.cpp as a whole, and `StartReceiving`.
pub mod Trace
pub mod Order
mod Tests
use audio_sync.Base.{
  ℕ, zero, suc, ◌+◌, ◌%◌, ◌^◌, Bool, true, false, not, ◌&&◌, Option, none, some, List, [], ◌∷◌,
  ◌++◌, take, if◌then◌else◌,
}
use audio_sync.Base.Int.{ℤ, pos, negsuc}
use audio_sync.Decoder.{is_ok}
use audio_sync.Rtp.{RtpPacket, Request}
use audio_sync.Receiver.{Pipeline, Receiving, first_state, receive}
use audio_sync.Receiver.App.{Decoding, set_format}

-- `sizeof(hi)` of a `char *`, on a machine of 64 bits.
abbrev pub size_of_pointer : ℕ
size_of_pointer = 8

-- The arguments of the first `SendPacket`: the text has three bytes, and those that stand behind it in
-- memory go out, too.
abbrev pub hi_request : List ℕ → Request
hi_request behind = record {
  payload = take size_of_pointer (b'H' ∷ b'I' ∷ 0 ∷ behind);
  marker = false;
  timestamp_inc = size_of_pointer;
  extension = none;
}

-- What the function calls besides the loop over the packets.
pub record Backend : Type 1 where
  pub pipeline : Pipeline
  pub send : pipeline.State → Request → pipeline.State
  pub start_codec : pipeline.State → ℤ × pipeline.State
  pub init_playback : pipeline.State → ℕ → ℕ → pipeline.State
  pub bye_destroy : pipeline.State → pipeline.State
  pub stop_codec : pipeline.State → pipeline.State
  pub stop_playback : pipeline.State → pipeline.State

-- What the thread finds while it runs: whether `codec` is still NULL, at each check that finds the
-- session running; whether it runs behind these checks; the numbers in the format, if it has them; the
-- packets of each pass; and how often the two loops at the end find it running.
pub record Course : Type 0 where
  pub codec_missing : List Bool
  pub running : Bool
  pub sample_rate : Option ℕ
  pub channel_count : Option ℕ
  pub passes : List (List RtpPacket)
  pub drains : ℕ
  pub idles : ℕ

-- The loop that waits for a codec, and the check behind it: whether the thread goes on.
abbrev pub codec_there : List Bool → Bool
codec_there [] = false
codec_there (true ∷ checks) = codec_there checks
codec_there (false ∷ checks) = true

abbrev pub default_to : ℕ → Option ℕ → ℕ
default_to n none = n
default_to n (some m) = m

module _ (b : Backend) (ntohq : List ℕ → ℤ) (behind : List ℕ) where
  -- The loop that takes out what the decoder still has.
  unfoldable pub drain : ℕ → Bool → ℤ → b.pipeline.State → b.pipeline.State
  drain zero more status st = st
  drain (suc rounds) more status st =
      let (more', st') = b.pipeline.dequeue st in
      let rest = drain rounds more' status st' in if more && is_ok status then rest else st

  unfoldable pub idle : ℕ → b.pipeline.State → b.pipeline.State
  idle zero st = st
  idle (suc rounds) st = idle rounds (b.pipeline.monitor st)

  -- From the loop over the packets on.
  unfoldable pub run_stream : Course → b.pipeline.State → b.pipeline.State
  unfolding drain idle
  run_stream c st =
      let r = receive b.pipeline ntohq (first_state b.pipeline ntohq st) c.passes in
      let drained = drain c.drains r.has_output r.status (b.bye_destroy r.pipeline) in
      b.stop_playback (idle c.idles (b.stop_codec drained))

  unfoldable pub run_network : Course → b.pipeline.State → b.pipeline.State
  unfolding run_stream
  run_network c st0 =
      let st1 = b.send st0 (hi_request behind) in
      let (status, st2) = b.start_codec st1 in
      if codec_there c.codec_missing && c.running
      then if is_ok status
        then run_stream c
            (b.init_playback st2 (default_to 44100 c.sample_rate) (default_to 1 c.channel_count))
        else st2
      else st1

-- `AMediaFormat_setString` and `AMediaFormat_setInt32` with these keys.
pub record DefaultFormat : Type 0 where
  pub mime : List ℕ
  pub sample_rate : ℕ
  pub channel_count : ℕ
  pub encoder_delay : ℕ
  pub encoder_padding : ℕ

-- "audio/mpeg"
abbrev pub default_format : DefaultFormat
default_format = record {
  mime = b'a' ∷ b'u' ∷ b'd' ∷ b'i' ∷ b'o' ∷ b'/' ∷ b'm' ∷ b'p' ∷ b'e' ∷ b'g' ∷ [];
  sample_rate = 44100;
  channel_count = 2;
  encoder_delay = 576;
  encoder_padding = 1579;
}

-- AUDIOSYNC_SNTP_PORT_OFFSET.
abbrev pub sntp_port_offset : ℕ
sntp_port_offset = 3

-- `_checkerror`: the errors that are logged, with those before it.
abbrev pub check_error : ℤ → List ℤ → List ℤ
check_error (pos status) logged = logged
check_error (negsuc status) logged = negsuc status ∷ logged

-- A receiver that was started: its format and codec, the parameters of its session, the address and
-- the port of its destination, and the host and the port that the SNTP client asks, and the
-- errors that were logged, the last one first. Both threads run.
pub record Receiver (C : Type 0) : Type 0 where
  pub decoding : Decoding DefaultFormat C
  pub accept_own_packets : Bool
  pub portbase : ℕ
  pub destination : ℕ × ℕ
  pub ntp_host : List ℕ
  pub ntp_port : ℕ
  pub logged : List ℤ

-- `inet_addr` is `ntohl(inet_addr(host))`. `created` and `added` are what `Create` and
-- `AddDestination` return.
unfoldable pub start_receiving :
    {C : Type 0}
    → (List ℕ → Option C)
    → (C → DefaultFormat → ℤ)
    → (List ℕ → ℕ)
    → ℤ
    → ℤ
    → List ℕ
    → ℕ
    → Receiver C
unfolding set_format
start_receiving create_decoder configure inet_addr created added host portbase = record {
  decoding =
      set_format (λ f. some f.mime) create_decoder configure (λ text. none)
        (record { format = none; codec = none }) default_format;
  accept_own_packets = false;
  portbase = portbase;
  destination = (inet_addr host, portbase);
  ntp_host = host;
  ntp_port = portbase + sntp_port_offset;
  logged = check_error added (check_error created []);
}
