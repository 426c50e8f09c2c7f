-- ===== src/Sender/Network.antt =====
-- `RunNetwork` of app/src/main/jni/SenderSession.cpp as a whole, `RunNTPServer` and `StartStreaming`.
use audio_sync.Base.{
  ℕ, zero, suc, ◌+◌, ◌≡◌, inl, inr, Bool, true, false, ◌&&◌, ◌||◌, Option, none, some, List, [],
  ◌∷◌, if◌then◌else◌, Bool-cases,
}
use audio_sync.Base.Int.{ℤ, pos, negsuc, ltb_ℤ}
use audio_sync.Ndk.{Extractor}
use audio_sync.AppPacket.{ClockReading}
use audio_sync.Rtp.{Transmitter}
use audio_sync.Sender.{Streaming, playback_start, stream, first_state}

-- What the thread finds while it runs: whether `connectedSources` is 0, at each check that finds the
-- session running; whether it runs behind these checks; the clock when it starts; and how often the
-- loop that sends finds it running.
pub record Course : Type 0 where
  pub no_sources : List Bool
  pub running : Bool
  pub now : ClockReading
  pub rounds : ℕ

-- The loop that waits for clients, and the check behind it: whether the thread goes on.
abbrev pub client_there : List Bool → Bool
client_there [] = false
client_there (true ∷ checks) = client_there checks
client_there (false ∷ checks) = true

module _ (e : Extractor) (t : Transmitter) (htonq : ℤ → List ℕ) where
  -- `playbackStartUs`, and the state at the end; `none` if nothing is sent, not even a BYE.
  unfoldable pub run_network :
      Option e.State → Course → t.State → Option (ℤ × Streaming e.State t.State)
  run_network none c rtp = none
  run_network (some extractor) c rtp =
      let start = playback_start c.now in
      if client_there c.no_sources && c.running
      then some (start, stream e t htonq c.rounds start (first_state e t htonq extractor rtp))
      else none

-- What `RunNTPServer` calls.
pub data NtpCall : Type 0 where
  start_server : ℕ → NtpCall
  serve : NtpCall
  stop_server : NtpCall

-- AUDIOSYNC_SNTP_PORT_OFFSET.
abbrev pub sntp_port_offset : ℕ
sntp_port_offset = 3

-- An answer of `msntp_serve` that ends the thread.
abbrev pub is_fatal : ℤ → Bool
is_fatal answer = ltb_ℤ (pos 0) answer || ltb_ℤ answer (negsuc 0)

-- The loop, over the answers of `msntp_serve` in the rounds that find the session running.
unfoldable pub serve_all : List ℤ → List NtpCall
serve_all [] = stop_server ∷ []
serve_all (answer ∷ answers) =
    let rest = serve_all answers in serve ∷ (if is_fatal answer then [] else rest)

-- `started` is the answer of `msntp_start_server`.
unfoldable pub run_ntp_server : ℕ → ℤ → List ℤ → List NtpCall
unfolding serve_all
run_ntp_server portbase started answers =
    start_server (portbase + sntp_port_offset)
    ∷ elim started [ pos zero ↦ serve_all answers | pos (suc n) ↦ [] | negsuc n ↦ [] ]

-- `_checkerror`: the error that is logged, and nothing else.
abbrev pub check_error : ℤ → Option ℤ
check_error (pos status) = none
check_error (negsuc status) = some (negsuc status)

-- A sender that was started. Both threads run, and `logged` is the error of `Create`, if it has one.
pub record Started (E : Type 0) : Type 0 where
  pub portbase : ℕ
  pub default_mark : Bool
  pub local_name : List ℕ
  pub extractor : Option E
  pub ntp_portbase : ℕ
  pub logged : Option ℤ

-- `transparams` is a global variable, from which the SNTP server takes its port; `created` is
-- what `Create` returns.
unfoldable pub start_streaming : {E : Type 0} → ℤ → ℕ → Option E → Started E
start_streaming created portbase extractor = record {
  portbase = portbase;
  default_mark = false;
  local_name = b'S' ∷ b'e' ∷ b'n' ∷ b'd' ∷ b'e' ∷ b'r' ∷ [];
  extractor = extractor;
  ntp_portbase = portbase;
  logged = check_error created;
}

-- A server that is stopped, or left by the thread.
pub data Ending : List ℤ → List NtpCall → Type 0 where
  stopped : Ending [] (stop_server ∷ [])
  served :
      {answer : ℤ} {answers : List ℤ} {calls : List NtpCall}
      → is_fatal answer ≡ false
      → Ending answers calls
      → Ending (answer ∷ answers) (serve ∷ calls)
  left :
      {answer : ℤ} {answers : List ℤ}
      → is_fatal answer ≡ true
      → Ending (answer ∷ answers) (serve ∷ [])

-- A server that has started serves until the session is stopped, and is stopped then; an answer that is
-- positive or below -1 makes the thread leave at once, and the server is not stopped.
pub serve_all-Ending : (answers : List ℤ) → Ending answers (serve_all answers)
unfolding serve_all
serve_all-Ending [] = stopped
serve_all-Ending (answer ∷ answers) = elim (Bool-cases (is_fatal answer)) [
  | inl fatal ↦ rw fatal (left fatal)
  | inr fine ↦ rw fine (served fine (serve_all-Ending answers))
]
