-- ===== src/Player/Callback/Tests.antt =====
-- The theorems on the callback at concrete inputs: mono frames of 16 bits at 48 kHz, two to a buffer.
use audio_sync.Base.{
  ℕ, ◌≡◌, ◌+◌, ◌-◌, ◌*◌, ◌/◌, refl, false, true, some, inl, inr, List, [], ◌∷◌, ◌++◌, arith, length,
}
use audio_sync.Base.Int.{ℤ, pos, ◌-ℤ◌, ◌+ℤ◌}
use audio_sync.AppPacket.{second_micro}
use audio_sync.Fifo.{Fifo}
use audio_sync.Fifo.Inv.{IsValid, distance}
use audio_sync.Fifo.Refine.{contents, between}
use audio_sync.Player.Enqueue.{Mark}
use audio_sync.Player.OpenSl.{success, check_error}
use audio_sync.Player.Callback.{Stream, FrameBytes, Playback, Tick, Output, update_mark, lateness}
use audio_sync.Player.Callback.Play.{callback}
use audio_sync.Player.Callback.Advance.{IsBuffered}
use audio_sync.Player.Callback.Latest.{AllReached, FirstAhead, last_of, lateness_lem}
use audio_sync.Player.Callback.Ready.{IsReady, IsGood}
use audio_sync.Player.Callback.Whole.{Runs, callback_lem}
use audio_sync.Player.Callback.Waits.{callback_waits}
use audio_sync.Player.Callback.InTime.{callback_plays}
use audio_sync.Player.Callback.Flow.{
  Event, enqueue, tick, Player, happen_all, Moves, happen_all_lem,
}

abbrev mono : Stream
mono = record { frames_per_buffer = 2; samples_per_sec = 48000; num_channels = 1 }

mono-IsBuffered : IsBuffered mono
mono-IsBuffered = record { channels = omega arith; rate = omega arith; fits = omega arith }

abbrev samples : FrameBytes ℕ
samples = record {
  blend = λ a b. (a + b) / 2;
  silent = 0;
  half_silent = λ n. n / 256 * 256;
  noise = 257;
}

abbrev full : Fifo ℕ
full = record {
  frame_count = 4;
  frame_count_p2 = 4;
  fudge_factor = 0;
  frame_size = 2;
  buffer = 7 ∷ 8 ∷ 9 ∷ 10 ∷ [];
  front = 0;
  rear = 4;
}

full-IsValid : IsValid full
full-IsValid = record {
  sized = record {
    exponent = 2;
    power = refl;
    small = omega arith;
    some_frames = omega arith;
    fits = omega arith;
    signed = omega arith;
    fudged = refl;
    memory = refl;
  };
  spans = record {
    rear_word = omega arith;
    front_word = omega arith;
    rear_in = omega arith;
    front_in = omega arith;
    order = omega arith;
  };
}

abbrev mark : ℕ → ℤ → Mark
mark count time = record { frame_count = count; playback_time = time }

-- 480 frames were played; the next mark was reached, and one is ahead.
abbrev playing : Playback ℕ
playing = record {
  fifo = full;
  marks = mark 480 (pos 10000) ∷ mark 960 (pos 20000) ∷ [];
  last_mark = mark 0 (pos 0);
  queued_frames = 480;
  temp_buffers = λ i. 100 + i;
  temp_ix = 2;
  sync_time = pos 1000000;
  accuracy = 4000;
  is_playing = true;
  enable_jumps = false;
  started = pos 1000000;
  drop = pos 0;
  diff = pos 0;
}

abbrev waiting : Playback ℕ
waiting = record playing { queued_frames = 0; accuracy = 0; is_playing = false }

abbrev at_time : ℕ → Tick
at_time now = record { now = pos now; coarse_accuracy = 4000; result = success }

at_time-IsGood : (now : ℕ) → IsGood mono (at_time now)
unfolding check_error
at_time-IsGood now = record { log = []; ok = refl; coarse = omega arith }

playing-IsReady : IsReady mono playing
playing-IsReady = record { valid = full-IsValid; reached = omega arith; coarse = inr (omega arith) }

waiting-IsReady : IsReady mono waiting
waiting-IsReady = record { valid = full-IsValid; reached = omega arith; coarse = inl (refl, refl) }

callback_lem_example : Runs mono samples playing (callback samples mono (at_time 1010000) playing)
callback_lem_example =
    callback_lem mono samples (at_time 1010000) playing mono-IsBuffered (at_time-IsGood 1010000)
      playing-IsReady

lateness_lem_example :
    (passed : List Mark) × (playing.marks ≡ passed ++ (update_mark playing).marks)
    × AllReached 480 passed
    × FirstAhead 480 (update_mark playing).marks
    × ((update_mark playing).last_mark ≡ last_of (mark 0 (pos 0)) passed)
    × (lateness mono (at_time 1012000) (update_mark playing)
        ≡ pos 1012000
          -ℤ (pos 1000000
              +ℤ ((last_of (mark 0 (pos 0)) passed).playback_time
                  +ℤ pos (
                      second_micro
                      * (480 - (last_of (mark 0 (pos 0)) passed).frame_count)
                      / 48000))))
lateness_lem_example = lateness_lem mono (at_time 1012000) playing (omega arith) (omega arith)

callback_waits_example :
    (q : Playback ℕ) × (callback samples mono (at_time 500000) waiting
      ≡ some (some (257 ∷ 257 ∷ []), q))
    × (q.is_playing ≡ false)
    × (q.fifo ≡ full)
    × (q.queued_frames ≡ 0)
    × (q.marks ≡ waiting.marks)
unfolding ◌-ℤ◌
callback_waits_example =
    callback_waits mono samples (at_time 500000) waiting mono-IsBuffered (at_time-IsGood 500000)
      refl refl

callback_plays_example :
    (q : Playback ℕ) × (callback samples mono (at_time 1010000) playing
      ≡ some (some (7 ∷ 8 ∷ []), q))
    × (contents q.fifo ≡ 9 ∷ 10 ∷ [])
    × (q.queued_frames ≡ 482)
unfolding contents between distance
callback_plays_example =
    callback_plays mono samples (at_time 1010000) playing mono-IsBuffered (at_time-IsGood 1010000)
      playing-IsReady refl refl

abbrev events : List (Event ℕ)
events =
    tick (at_time 500000)
    ∷ tick (at_time 1000000)
    ∷ enqueue (11 ∷ 12 ∷ []) 4 (pos 40)
    ∷ tick (at_time 1000050)
    ∷ []

happen_all_lem_example :
    (outputs : List (Output ℕ)) × (s' : Player ℕ) × (happen_all samples mono events
        (record { playback = waiting; buffered_frames = 4 })
      ≡ some (outputs, s'))
    × (length outputs ≡ 4)
    × IsReady mono s'.playback
    × Moves samples mono 4 events (record { playback = waiting; buffered_frames = 4 }) s'
happen_all_lem_example =
    happen_all_lem samples mono events (record { playback = waiting; buffered_frames = 4 })
      mono-IsBuffered waiting-IsReady
      (at_time-IsGood 500000, (at_time-IsGood 1000000, (omega arith, (at_time-IsGood 1000050, tt))))
