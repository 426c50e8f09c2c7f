-- ===== src/Receiver/Ntp.antt =====
-- `RunNTPClient` of app/src/main/jni/ReceiverSession.cpp: the clock offsets that `msntp_get_offset`
-- gives, and the mean of each with the one before, which goes to the sender and to the player.
use audio_sync.Base.{
  ◌+◌, ◌≡◌, ◌⊎◌, inl, inr, true, false, Option, none, some, List, [], ◌∷◌, ◌++◌, arith, Bool-cases,
  if◌then◌else◌,
}
use audio_sync.Base.Int.{ℤ, pos, negsuc, ◌+ℤ◌, ◌-ℤ◌, ◌*ℤ◌, ◌≤ℤ◌, pos_part, neg_part, +ℤ_parts}
use audio_sync.AppPacket.{second_micro}
use audio_sync.Player.Control.{is_zero, half}

-- The seconds and microseconds of an answer; `none` is an error.
abbrev pub Answer : Type 0
Answer = Option (ℤ × ℤ)

abbrev pub measured : ℤ × ℤ → ℤ
measured (sec, usec) = usec +ℤ sec *ℤ pos second_micro

-- A round of the loop, with the static `lastOffsetUs`: the new one, and what is sent and set.
unfoldable pub ntp_round : ℤ → Answer → ℤ × List ℤ
ntp_round last none = (last, [])
ntp_round last (some time) =
    let offset = if is_zero last then measured time else half (measured time +ℤ last) in
    (offset, offset ∷ [])

-- The rounds that find the session running.
unfoldable pub run_ntp_client : ℤ → List Answer → ℤ × List ℤ
unfolding ntp_round
run_ntp_client last [] = (last, [])
run_ntp_client last (answer ∷ answers) =
    let (next, offsets) = ntp_round last answer in
    let (end_offset, rest) = run_ntp_client next answers in (end_offset, offsets ++ rest)

abbrev pub Between : ℤ → ℤ → ℤ → Type 0
Between low high a = (low ≤ℤ a) × (a ≤ℤ high)

abbrev pub AllBetween : ℤ → ℤ → List ℤ → Type 0
AllBetween low high [] = Unit
AllBetween low high (a ∷ offsets) = Between low high a × AllBetween low high offsets

abbrev pub AnswersBetween : ℤ → ℤ → List Answer → Type 0
AnswersBetween low high [] = Unit
AnswersBetween low high (none ∷ answers) = AnswersBetween low high answers
AnswersBetween low high (some time ∷ answers) =
    Between low high (measured time) × AnswersBetween low high answers

-- The mean of two numbers between bounds, rounded towards 0.
rounded-Between :
    (low high a b c : ℤ)
    → Between low high a
    → Between low high b
    → pos_part c + neg_part a + neg_part b ≡ neg_part c + pos_part a + pos_part b
    → Between low high (half c)
unfolding ◌-ℤ◌
rounded-Between low high a b (pos n) ha hb e =
    (omega (arith, ha.0, hb.0, e), omega (arith, ha.1, hb.1, e))
rounded-Between low high a b (negsuc n) ha hb e =
    (ground (arith, ha.0, hb.0, e), ground (arith, ha.1, hb.1, e))

known-Between :
    (low high last : ℤ)
    → is_zero last ≡ false
    → (is_zero last ≡ true) ⊎ Between low high last
    → Between low high last
known-Between low high last later (inl zero_last) = absurd (cc (zero_last, later))
known-Between low high last later (inr there) = there

mean-Between :
    (low high last : ℤ) (time : ℤ × ℤ)
    → (is_zero last ≡ true) ⊎ Between low high last
    → Between low high (measured time)
    → Between low high (ntp_round last (some time)).0
unfolding ntp_round
mean-Between low high last time known inside = elim (Bool-cases (is_zero last)) [
  | inl first ↦ rw first inside
  | inr later ↦ rw later (
      rounded-Between low high (measured time) last (measured time +ℤ last) inside
        (known-Between low high last later known) (+ℤ_parts (measured time) last))
]

-- If every answer of the server lies between two bounds, and the offset before the first round is 0 or
-- between them, too: so does each offset that the client sends and sets, whatever rounds fail.
pub run_ntp_client-Between :
    (low high last : ℤ) (answers : List Answer)
    → (is_zero last ≡ true) ⊎ Between low high last
    → AnswersBetween low high answers
    → AllBetween low high (run_ntp_client last answers).1
unfolding run_ntp_client ntp_round
run_ntp_client-Between low high last [] known inside = tt
run_ntp_client-Between low high last (none ∷ answers) known inside =
    run_ntp_client-Between low high last answers known inside
run_ntp_client-Between low high last (some time ∷ answers) known inside =
    let mean = mean-Between low high last time known inside.0 in
    (
      mean,
      run_ntp_client-Between low high (ntp_round last (some time)).0 answers (inr mean) inside.1,
    )
