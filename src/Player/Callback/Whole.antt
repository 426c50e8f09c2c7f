-- ===== src/Player/Callback/Whole.antt =====
-- `_bqPlayerCallback` (app/src/main/jni/audioplayer.cpp) as a whole.
use audio_sync.Base.{
  ℕ, ◌+◌, ◌%◌, ◌<◌, ◌≡◌, ◌⊎◌, refl, ap, ◌∙◌, false, true, arith, ◌==◌, inl, inr, Bool-cases, Option,
  some, if◌then◌else◌,
}
use audio_sync.Fifo.Refine.{contents}
use audio_sync.Player.Callback.{
  at_next, place, n_buffers, Stream, FrameBytes, Playback, Tick, Output, update_mark, lateness,
}
use audio_sync.Player.Callback.Play.{play_noise, play_at, play, callback}
use audio_sync.Player.Callback.Advance.{IsBuffered, HasRoom, buf_ptr-HasRoom}
use audio_sync.Player.Callback.Latest.{update_mark-runs, update_mark-reached}
use audio_sync.Player.Callback.Safe.{Fits, IsCoarse, play_noise_lem}
use audio_sync.Player.Callback.Pace.{play_at_lem}
use audio_sync.Player.Callback.Ready.{
  Takes, IsReady, IsGood, none_taken, advance-Takes, Takes-trans, IsReady-advance, start_lem,
}

module _ {A : Type 0} (st : Stream) where
  module _ (bytes : FrameBytes A) where
    -- A call that has a result.
    pub record Runs (p : Playback A) (result : Option (Output A × Playback A)) : Type 0 where
      pub output : Output A
      pub next : Playback A
      pub runs : result ≡ some (output, next)
      pub ready : IsReady st next
      pub takes : Takes p next
      pub fits : Fits st output

    module _ (t : Tick) (base : ℕ) (b : IsBuffered st) (room : HasRoom st base)
        (g : IsGood st t) where
      pub play-runs :
          (p : Playback A)
          → play bytes st t base p
            ≡ play_at bytes st t base (lateness st t (update_mark p)) (update_mark p)
      unfolding play
      play-runs p = simp (not_zero st.samples_per_sec b.rate) refl
        where
          not_zero : (n : ℕ) → 0 < n → (n == 0) ≡ false
          not_zero n h = ground arith

      pub update_mark-IsReady : (p : Playback A) → IsReady st p → IsReady st (update_mark p)
      update_mark-IsReady p r =
          let e = update_mark-runs p r.reached in
          record {
            valid = rw e r.valid;
            reached = omega (arith, update_mark-reached p r.reached, ap (λ q. q.queued_frames) e);
            coarse = rw e r.coarse;
          }

      known : (p : Playback A) → IsReady st p → p.is_playing ≡ true → IsCoarse st p.accuracy
      known p r playing = at_accuracy r.coarse
        where
          at_accuracy :
              (p.accuracy ≡ 0) × (p.is_playing ≡ false) ⊎ IsCoarse st p.accuracy
              → IsCoarse st p.accuracy
          at_accuracy (inl stopped) = absurd (cc (playing, stopped.1))
          at_accuracy (inr k) = k

      play_lem :
          (p : Playback A) → IsReady st p → p.is_playing ≡ true → Runs p (play bytes st t base p)
      play_lem p r playing =
          let e = update_mark-runs p r.reached in
          let ru = update_mark-IsReady p r in
          let s =
            play_at_lem bytes st t base b room g.log g.ok (lateness st t (update_mark p))
              (update_mark p) ru.valid
              (known (update_mark p) ru (ap (λ q. q.is_playing) e ∙ playing)) in
          record {
            output = s.output;
            next = s.next;
            runs = play-runs p ∙ s.runs;
            ready = IsReady-advance st ru s.advance;
            takes =
                Takes-trans
                  (none_taken (ap (λ q. q.queued_frames) e) (ap (λ q. contents q.fifo) e)
                    (ap (λ q. q.fifo.frame_count) e))
                  (advance-Takes s.advance);
            fits = s.fits;
          }

      noise_lem : (p : Playback A) → IsReady st p → Runs p (play_noise bytes st t base p)
      noise_lem p r =
          let s = play_noise_lem bytes st t base b room g.log g.ok p r.valid in
          record {
            output = s.output;
            next = s.next;
            runs = s.runs;
            ready = IsReady-advance st r s.advance;
            takes = advance-Takes s.advance;
            fits = s.fits;
          }

      started-Runs :
          (p : Playback A)
          → IsReady st p
          → Runs p (if p.is_playing then play bytes st t base p else play_noise bytes st t base p)
      started-Runs p r = elim (Bool-cases p.is_playing) [
        | inl playing ↦
            let s = play_lem p r playing in
            record {
              output = s.output;
              next = s.next;
              runs = simp playing s.runs;
              ready = s.ready;
              takes = s.takes;
              fits = s.fits;
            }
        | inr stopped ↦
            let s = noise_lem p r in
            record {
              output = s.output;
              next = s.next;
              runs = simp stopped s.runs;
              ready = s.ready;
              takes = s.takes;
              fits = s.fits;
            }
      ]

    -- If the buffers of the device are smaller than `MAX_BUFFER_SIZE` by a frame or more, rate and
    -- channels are not 0, half the resolution of the coarse clock is the time of a frame or more,
    -- and `Enqueue` succeeds or says that there are too many buffers: from a state between two
    -- calls the callback divides by no zero, writes within `tempBuffers`, ends its loop, enqueues
    -- no more than fits one buffer, takes only the oldest frames off the queue, counts them, and
    -- leaves such a state again.
    pub callback_lem :
        (t : Tick) (p : Playback A)
        → IsBuffered st
        → IsGood st t
        → IsReady st p
        → Runs p (callback bytes st t p)
    unfolding callback
    callback_lem t p b g r =
        let ix = (p.temp_ix + 1) % n_buffers in
        let base = place st p in
        let room = buf_ptr-HasRoom ix b (omega arith) in
        let (q, e, rq, k) =
          start_lem st t base b room (at_next p)
            (record { valid = r.valid; reached = r.reached; coarse = r.coarse }) g.coarse in
        let s = started-Runs t base b room g q rq in
        record {
          output = s.output;
          next = s.next;
          runs = simp e s.runs;
          ready = s.ready;
          takes = Takes-trans (none_taken refl refl refl) (Takes-trans k s.takes);
          fits = s.fits;
        }
