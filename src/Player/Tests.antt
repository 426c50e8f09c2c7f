-- ===== src/Player/Tests.antt =====
-- The theorems of the player at concrete inputs.
use audio_sync.Base.{
  ℕ, ◌≡◌, ◌+◌, ◌/◌, refl, false, true, some, List, [], ◌∷◌, ◌++◌, arith, length, get_elem?,
}
use audio_sync.Base.Int.{pos, negsuc}
use audio_sync.Player.{Stretching, stretch}
use audio_sync.Player.Kept.{kept}
use audio_sync.Player.Catchup.{stretch_lem}
use audio_sync.Player.Control.{Monitor, Reading, monitor_all}
use audio_sync.Fifo.{Fifo}
use audio_sync.Fifo.Inv.{IsValid, distance}
use audio_sync.Fifo.Refine.{contents, between}
use audio_sync.Player.Enqueue.{finds_stopped, Queueing, enqueue_pcm}
use audio_sync.Player.Marks.{idle, enqueue_pcm_lem, enqueue_pcm_full}
use audio_sync.Player.Rate.{RateBounded, monitor_all_bounds}

abbrev mean : ℕ → ℕ → ℕ
mean a b = (a + b) / 2

-- Ten frames, of which three go.
stretch_lem_example :
    (s : Stretching ℕ) × (k : ℕ) × (stretch mean (λ n. n + 100) 10 3 ≡ some s)
    × (s.drop ≡ 0)
    × (s.n_frame ≡ 7)
    × (length (kept 3 3 10 0) ≡ 7)
    × (get_elem? (kept 3 3 10 0) 6 ≡ some k)
    × (s.memory 6 ≡ k + 100)
stretch_lem_example =
    stretch_lem mean (λ n. n + 100) 10 3 6 (omega arith) (omega arith) (omega arith)

-- Playback that gets later and later, and an offset that would double the rate each time.
abbrev fresh_monitor : Monitor
fresh_monitor = record {
  last_print = pos 0;
  last_diff = pos 0;
  last_adjustment = pos 0;
  listen_time = pos 0;
  enable_jumps = false;
  rate_permille = pos 1000;
}

abbrev reading : ℕ → ℕ → Reading
reading now diff = record { is_playing = true; now = pos now; diff = pos diff }

abbrev late_readings : List Reading
late_readings = reading 1000 5 ∷ reading 3000000 900 ∷ reading 4000000 1900 ∷ []

monitor_all_bounds_example :
    RateBounded (monitor_all (λ d wait. negsuc 3999) late_readings fresh_monitor)
unfolding RateBounded
monitor_all_bounds_example =
    monitor_all_bounds (λ d wait. negsuc 3999) late_readings fresh_monitor
      (omega arith, omega arith)

-- A queue of three frames of four bytes; two are in it.
abbrev two_of_three : Fifo ℕ
two_of_three = record {
  frame_count = 3;
  frame_count_p2 = 4;
  fudge_factor = 1;
  frame_size = 4;
  buffer = 7 ∷ 8 ∷ 9 ∷ [];
  front = 0;
  rear = 2;
}

abbrev three_of_three : Fifo ℕ
three_of_three = record {
  frame_count = 3;
  frame_count_p2 = 4;
  fudge_factor = 1;
  frame_size = 4;
  buffer = 7 ∷ 8 ∷ 9 ∷ [];
  front = 0;
  rear = 4;
}

two_of_three-IsValid : IsValid two_of_three
two_of_three-IsValid = record {
  sized = record {
    exponent = 2;
    power = refl;
    small = omega arith;
    some_frames = omega arith;
    fits = omega arith;
    signed = omega arith;
    fudged = refl;
    memory = refl;
  };
  spans = record {
    rear_word = omega arith;
    front_word = omega arith;
    rear_in = omega arith;
    front_in = omega arith;
    order = omega arith;
  };
}

three_of_three-IsValid : IsValid three_of_three
three_of_three-IsValid = record {
  sized = record {
    exponent = 2;
    power = refl;
    small = omega arith;
    some_frames = omega arith;
    fits = omega arith;
    signed = omega arith;
    fudged = refl;
    memory = refl;
  };
  spans = record {
    rear_word = omega arith;
    front_word = omega arith;
    rear_in = omega arith;
    front_in = omega arith;
    order = omega arith;
  };
}

abbrev room_for_one : Queueing ℕ
room_for_one = record { fifo = two_of_three; buffered_frames = 7; marks = [] }

enqueue_pcm_lem_example :
    (q' : Queueing ℕ) × (enqueue_pcm finds_stopped 4 room_for_one (5 ∷ []) 4 (pos 26122) ≡ some q')
    × IsValid q'.fifo
    × (contents q'.fifo ≡ contents two_of_three ++ 5 ∷ [])
    × (q'.buffered_frames ≡ 5 + length (contents q'.fifo))
    × (q'.marks
        ≡ record { frame_count = 5 + length (contents q'.fifo); playback_time = pos 26122 } ∷ [])
unfolding contents between distance
enqueue_pcm_lem_example =
    enqueue_pcm_lem finds_stopped 4 room_for_one (5 ∷ []) 4 (pos 26122) 5 two_of_three-IsValid
      (omega arith) (omega arith) (omega arith) refl (omega arith)

abbrev no_room : Queueing ℕ
no_room = record { fifo = three_of_three; buffered_frames = 3; marks = [] }

enqueue_pcm_full_example :
    (q' : Queueing ℕ) × (enqueue_pcm (idle 2) 4 no_room (5 ∷ 6 ∷ []) 8 (pos 26122) ≡ some q')
    × (contents q'.fifo ≡ contents three_of_three)
    × (q'.buffered_frames ≡ 9)
    × (length q'.marks ≡ 3)
unfolding contents between distance
enqueue_pcm_full_example =
    enqueue_pcm_full 2 4 no_room (5 ∷ 6 ∷ []) 8 (pos 26122) three_of_three-IsValid (omega arith)
      (omega arith) refl (omega arith)
