-- ===== src/Receiver/Network/Tests.antt =====
-- The course of the receiver's threads at concrete packets and answers.
use audio_sync.Base.{refl, inl, true, false, none, some, List, [], ◌∷◌, arith}
use audio_sync.Base.Int.{pos, ◌+ℤ◌, ◌*ℤ◌}
use audio_sync.Rtp.{RtpPacket}
use audio_sync.Receiver.Network.{Course, run_network}
use audio_sync.Receiver.Network.Trace.{noting}
use audio_sync.Receiver.Network.Order.{Ran, run_network-Ran}
use audio_sync.Receiver.Ntp.{Answer, AllBetween, run_ntp_client, run_ntp_client-Between}

abbrev last_packet : RtpPacket
last_packet = record {
  marker = true;
  sequence = 7;
  timestamp = 960;
  extension = none;
  payload = 0 ∷ [];
}

abbrev course : Course
course = record {
  codec_missing = true ∷ false ∷ [];
  running = true;
  sample_rate = some 48000;
  channel_count = none;
  passes = [] ∷ (last_packet ∷ []) ∷ [];
  drains = 3;
  idles = 2;
}

run_network-Ran_example :
    Ran
      (λ steps. pos 0)
      (λ steps. true)
      (λ bytes. pos 0)
      []
      course
      (run_network (noting (λ steps. pos 0) (λ steps. true)) (λ bytes. pos 0) [] course [])
run_network-Ran_example =
    run_network-Ran (λ steps. pos 0) (λ steps. true) (λ bytes. pos 0) [] course

-- Offsets of about 2 s, with an error between them.
abbrev answers : List Answer
answers = some (pos 2, pos 300) ∷ none ∷ some (pos 1, pos 999000) ∷ []

run_ntp_client-Between_example :
    AllBetween (pos 1999000) (pos 2000300) (run_ntp_client (pos 0) answers).1
unfolding ◌+ℤ◌ ◌*ℤ◌
run_ntp_client-Between_example =
    run_ntp_client-Between (pos 1999000) (pos 2000300) (pos 0) answers (inl refl)
      ((omega arith, omega arith), ((omega arith, omega arith), tt))
