-- ===== src/Player/Callback/Waits.antt =====
-- What `_bqPlayerCallback` (app/src/main/jni/audioplayer.cpp) enqueues before the start.
use Prim.Native.String.{String}
use audio_sync.Base.{
  ℕ, zero, suc, ◌+◌, ◌%◌, ◌≤◌, ◌<◌, ◌≡◌, refl, ap, ◌∙◌, Bool, false, true, not, ◌&&◌, List, [], ◌∷◌,
  arith, leb, ltb, ◌==◌, inl, inr, Bool-cases, length, some, if◌then◌else◌,
}
use audio_sync.Base.Int.{ℤ, pos, negsuc, ◌-ℤ◌, ltb_ℤ}
use audio_sync.Player.{Memory}
use audio_sync.Player.Control.{is_zero}
use audio_sync.Player.OpenSl.{check_error}
use audio_sync.Player.Callback.{
  at_next, place, n_buffers, Stream, max_frames, FrameBytes, Playback, Tick, known_accuracy, start,
  frames_at, put_frames, fill,
}
use audio_sync.Player.Callback.Play.{play_noise, play, callback}
use audio_sync.Player.Callback.Advance.{IsBuffered, HasRoom, buf_ptr-HasRoom, below_max, in_bounds}
use audio_sync.Player.Callback.Ready.{IsGood}

abbrev pub copies : {A : Type 0} → ℕ → A → List A
copies zero x = []
copies (suc n) x = x ∷ copies n x

same : (a : ℕ) → (a == a) ≡ true
same a = ground arith

inside :
    (base total a : ℕ) → base ≤ a → a < base + total → (leb base a && ltb a (base + total)) ≡ true
inside base total a h k = ground arith

second_false : (a c : Bool) → a ≡ true → (a && c) ≡ false → c ≡ false
second_false true c e h = h
second_false false c e h = absurd (cc e)

not_late :
    (diff : ℤ) (accuracy : ℕ)
    → ltb_ℤ diff (pos accuracy) ≡ false
    → ltb_ℤ diff (pos 0 -ℤ pos accuracy) ≡ false
unfolding ◌-ℤ◌
not_late (pos n) zero h = ground arith
not_late (pos n) (suc a) h = ground arith
not_late (negsuc n) a h = absurd (ground arith)

module _ {A : Type 0} where
  pub put_frames-before :
      (memory : Memory A) (base : ℕ) (xs : List A) (j : ℕ)
      → j < base
      → put_frames memory base xs j ≡ memory j
  unfolding put_frames
  put_frames-before memory base [] j h = refl
  put_frames-before memory base (x ∷ xs) j h =
      put_frames-before (λ k. if k == base then x else memory k) (base + 1) xs j (omega (arith, h))
      ∙ simp (other j base h) refl
    where
      other : (a b : ℕ) → a < b → (a == b) ≡ false
      other a b k = ground arith

  pub frames_at-put_frames :
      (memory : Memory A) (base : ℕ) (xs : List A)
      → frames_at (put_frames memory base xs) base (length xs) ≡ xs
  unfolding put_frames
  frames_at-put_frames memory base [] = refl
  frames_at-put_frames memory base (x ∷ xs) =
      let set : Memory A = λ k. if k == base then x else memory k in
      rw (put_frames-before set (base + 1) xs base (omega arith), same base)
        (ap (λ ys. x ∷ ys) (frames_at-put_frames set (base + 1) xs))

  frames_at-fill :
      (memory : Memory A) (base total from n : ℕ) (x : A)
      → base ≤ from
      → from + n ≤ base + total
      → frames_at (fill memory base total x) from n ≡ copies n x
  frames_at-fill memory base total from zero x h k = refl
  frames_at-fill memory base total from (suc n) x h k =
      rw (inside base total from h (omega (arith, k))) (
        ap (λ xs. x ∷ xs)
          (frames_at-fill memory base total (from + 1) n x (omega (arith, h)) (omega (arith, k))))

  module _ (st : Stream) (bytes : FrameBytes A) (t : Tick) where
    pub callback-playing :
        (p q : Playback A)
        → start st t (place st p) (at_next p) ≡ some q
        → q.is_playing ≡ true
        → callback bytes st t p ≡ play bytes st t (place st p) q
    unfolding callback
    callback-playing p q e playing = simp (e, playing) refl

    callback-stopped :
        (p q : Playback A)
        → start st t (place st p) (at_next p) ≡ some q
        → q.is_playing ≡ false
        → callback bytes st t p ≡ play_noise bytes st t (place st p) q
    unfolding callback
    callback-stopped p q e stopped = simp (e, stopped) refl

    play_noise-runs :
        (base : ℕ) (p : Playback A) (log : List (String × String))
        → IsBuffered st
        → HasRoom st base
        → check_error t.result "_bqPlayerCallback" ≡ some log
        → (memory : Memory A) × (play_noise bytes st t base p
            ≡ some (
              some (copies st.frames_per_buffer bytes.noise),
              record p { temp_buffers = memory },
            ))
    unfolding play_noise
    play_noise-runs base p log b room ok =
        let memory = fill p.temp_buffers base st.frames_per_buffer bytes.noise in
        (
          memory,
          simp
              (
                in_bounds base st.frames_per_buffer (max_frames st) st.num_channels
                    (omega (arith, below_max b)) room,
                ok,
              )
              (ap (λ xs. some (some xs, record p { temp_buffers = memory }))
                (frames_at-fill p.temp_buffers base st.frames_per_buffer base st.frames_per_buffer
                  bytes.noise (omega arith) (omega arith))),
        )

    abbrev pub starts_now : Playback A → Bool
    starts_now p =
        not (is_zero p.sync_time) && ltb_ℤ (p.sync_time -ℤ t.now) (pos (known_accuracy t p))

    start-waits :
        (base : ℕ) (p : Playback A)
        → p.is_playing ≡ false
        → starts_now p ≡ false
        → (q : Playback A) × (start st t base p ≡ some q)
          × (q.is_playing ≡ false)
          × (q.fifo ≡ p.fifo)
          × (q.queued_frames ≡ p.queued_frames)
          × (q.marks ≡ p.marks)
    unfolding start
    start-waits base p stopped early = elim (Bool-cases (is_zero p.sync_time)) [
      | inl unsynced ↦ (p, simp (stopped, unsynced) refl, stopped, refl, refl, refl)
      | inr synced ↦
          let soon =
            second_false (not (is_zero p.sync_time))
              (ltb_ℤ (p.sync_time -ℤ t.now) (pos (known_accuracy t p))) (rw synced refl) early in
          let q = record p {
            accuracy = known_accuracy t p;
            is_playing = ltb_ℤ (p.sync_time -ℤ t.now) (pos (known_accuracy t p));
            started = t.now;
          } in
          (
            q,
            simp (stopped, synced, not_late (p.sync_time -ℤ t.now) (known_accuracy t p) soon) refl,
            soon,
            refl,
            refl,
            refl,
          )
    ]

    -- If the buffers of the device are smaller than `MAX_BUFFER_SIZE` by a frame or more, rate and
    -- channels are not 0, half the resolution of the coarse clock is the time of a frame or more,
    -- and `Enqueue` succeeds or has too many buffers: while playback does not run, and the coarse
    -- clock is before the start by its accuracy or more or there was no synchronisation, a buffer
    -- of bytes 1 is enqueued, and no frame and no mark is taken.
    pub callback_waits :
        (p : Playback A)
        → IsBuffered st
        → IsGood st t
        → p.is_playing ≡ false
        → starts_now p ≡ false
        → (q : Playback A) × (callback bytes st t p
            ≡ some (some (copies st.frames_per_buffer bytes.noise), q))
          × (q.is_playing ≡ false)
          × (q.fifo ≡ p.fifo)
          × (q.queued_frames ≡ p.queued_frames)
          × (q.marks ≡ p.marks)
    callback_waits p b g stopped early =
        let (q, e, still, fifo, queued, marks) =
          start-waits (place st p) (at_next p) stopped early in
        let (memory, runs) =
          play_noise-runs (place st p) q g.log b
            (buf_ptr-HasRoom ((p.temp_ix + 1) % n_buffers) b (omega arith)) g.ok in
        (
          record q { temp_buffers = memory },
          callback-stopped p q e still ∙ runs,
          still,
          fifo,
          queued,
          marks,
        )
