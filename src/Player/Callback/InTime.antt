-- ===== src/Player/Callback/InTime.antt =====
-- What `_bqPlayerCallback` (app/src/main/jni/audioplayer.cpp) enqueues while no jumps are enabled.
use audio_sync.Base.{
  ℕ, ◌+◌, ◌%◌, ◌<◌, ◌≡◌, refl, sym, ap, ◌∙◌, false, true, List, [], ◌∷◌, arith, ◌==◌, inl, inr,
  Bool-cases, length, take, drop, Option, some, none, ==_iff, min,
}
use audio_sync.Base.Int.{ℤ}
use audio_sync.Fifo.Inv.{IsValid}
use audio_sync.Fifo.Refine.{contents}
use audio_sync.Player.Callback.{
  at_next, place, n_buffers, Stream, max_frames, FrameBytes, Playback, Tick, Output, frames_of,
  start, update_mark, lateness, frames_at, count,
}
use audio_sync.Player.Callback.Play.{play_at, play_frames, callback}
use audio_sync.Player.Callback.Advance.{
  IsBuffered, HasRoom, buf_ptr-HasRoom, below_max, read_frames_lem, with_frames,
}
use audio_sync.Player.Callback.Latest.{update_mark-runs}
use audio_sync.Player.Callback.Ready.{IsReady, IsGood}
use audio_sync.Player.Callback.Whole.{play-runs}
use audio_sync.Player.Callback.Waits.{frames_at-put_frames, callback-playing}

-- A buffer that is enqueued holds a frame.
abbrev pub buffer_of : {A : Type 0} → List A → Output A
buffer_of [] = none
buffer_of (x ∷ xs) = some (x ∷ xs)

buffer_of-some : {A : Type 0} (xs : List A) → 0 < length xs → buffer_of xs ≡ some xs
buffer_of-some [] h = absurd (omega arith)
buffer_of-some (x ∷ xs) h = refl

positive : (n : ℕ) → (n == 0) ≡ false → 0 < n
positive n h = ground arith

module _ {A : Type 0} where
  module _ (st : Stream) (bytes : FrameBytes A) (t : Tick) where
    -- What a call in time hands over, counts and leaves.
    abbrev pub due : Playback A → ℕ
    due p = min st.frames_per_buffer (length (contents p.fifo))

    record InTime (p : Playback A) (result : Option (Output A × Playback A)) : Type 0 where
      next : Playback A
      runs : result ≡ some (buffer_of (take (due p) (contents p.fifo)), next)
      rest : contents next.fifo ≡ drop (due p) (contents p.fifo)
      queued : next.queued_frames ≡ p.queued_frames + due p

    play_frames-InTime :
        (base : ℕ) (p : Playback A)
        → IsBuffered st
        → HasRoom st base
        → IsGood st t
        → IsValid p.fifo
        → InTime p (play_frames bytes st t base st.frames_per_buffer none p)
    unfolding play_frames
    play_frames-InTime base p b room g v =
        let r =
          read_frames_lem st base st.frames_per_buffer (max_frames st) p v
            (omega (arith, below_max b)) room in
        let q = with_frames base r.frames r.next p in
        let frames_due : r.frames ≡ take (due p) (contents p.fifo) =
          r.took.oldest ∙ ap (λ n. take n (contents p.fifo)) r.took.amount in
        let rest_due : contents r.next ≡ drop (due p) (contents p.fifo) =
          r.took.rest ∙ ap (λ n. drop n (contents p.fifo)) r.took.amount in
        elim (Bool-cases (r.n == 0)) [
          | inl nothing ↦
              let zero_due : due p ≡ 0 = sym r.took.amount ∙ (==_iff r.n 0).0 nothing in
              record {
                next = q;
                runs =
                    simp (r.runs, nothing) refl
                    ∙ ap (λ n. some (buffer_of (take n (contents p.fifo)), q)) (sym zero_due);
                rest = rest_due;
                queued = omega (arith, zero_due);
              }
          | inr some_read ↦ record {
            next = count r.n q;
            runs =
                simp (r.runs, some_read, g.ok) refl
                ∙ ap (λ xs. some (xs, count r.n q))
                    (ap (λ n. some (frames_at q.temp_buffers base n)) (sym r.length_frames)
                      ∙ ap some (frames_at-put_frames p.temp_buffers base r.frames)
                      ∙ sym (
                          buffer_of-some r.frames
                            (omega (arith, r.length_frames, positive r.n some_read)))
                      ∙ ap buffer_of frames_due);
            rest = rest_due;
            queued = omega (arith, r.took.amount);
          }
        ]

    start-playing : (base : ℕ) (p : Playback A) → p.is_playing ≡ true → start st t base p ≡ some p
    unfolding start
    start-playing base p playing = simp playing refl

    play_at-steady :
        (base : ℕ) (diff : ℤ) (p : Playback A)
        → p.enable_jumps ≡ false
        → play_at bytes st t base diff p
          ≡ play_frames bytes st t base st.frames_per_buffer none
              (record p { drop = frames_of st diff; diff = diff })
    unfolding play_at
    play_at-steady base diff p steady = simp steady refl

    -- If the buffers of the device are smaller than `MAX_BUFFER_SIZE` by a frame or more, rate and
    -- channels are not 0, half the resolution of the coarse clock, as it is and as it was found, is
    -- the time of a frame or more, `Enqueue` succeeds or has too many buffers, the queue is valid
    -- and the last mark was reached: while playback runs and no jumps are enabled, the callback
    -- enqueues the oldest frames of the queue, as many as the device asks for or as there are,
    -- takes them off and counts them. From an empty queue it enqueues nothing.
    pub callback_plays :
        (p : Playback A)
        → IsBuffered st
        → IsGood st t
        → IsReady st p
        → p.is_playing ≡ true
        → p.enable_jumps ≡ false
        → (q : Playback A) × (callback bytes st t p
            ≡ some (buffer_of (take (due p) (contents p.fifo)), q))
          × (contents q.fifo ≡ drop (due p) (contents p.fifo))
          × (q.queued_frames ≡ p.queued_frames + due p)
    callback_plays p b g r playing steady =
        let room = buf_ptr-HasRoom ((p.temp_ix + 1) % n_buffers) b (omega arith) in
        let e = update_mark-runs (at_next p) r.reached in
        let diff = lateness st t (update_mark (at_next p)) in
        let u = update_mark (at_next p) in
        let f : u.fifo ≡ p.fifo = ap (λ q. q.fifo) e in
        let i =
          play_frames-InTime (place st p) (record u { drop = frames_of st diff; diff = diff }) b
            room g (rw f r.valid) in
        (
          i.next,
          callback-playing st bytes t p (at_next p) (start-playing (place st p) (at_next p) playing)
                playing
              ∙ play-runs st bytes t (place st p) b room g (at_next p)
              ∙ play_at-steady (place st p) diff u (ap (λ q. q.enable_jumps) e ∙ steady)
              ∙ i.runs
              ∙ ap
                  (λ g. some (
                    buffer_of (take (min st.frames_per_buffer (length (contents g))) (contents g)),
                    i.next,
                  ))
                  f,
          i.rest ∙ ap (λ g. drop (min st.frames_per_buffer (length (contents g))) (contents g)) f,
          i.queued
              ∙ ap (λ n. n + due u) (ap (λ q. q.queued_frames) e)
              ∙ ap (λ g. p.queued_frames + min st.frames_per_buffer (length (contents g))) f,
        )
