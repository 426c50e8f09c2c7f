-- ===== src/Player/Marks.antt =====
-- The playback marks, when the frame queue has room and when it is full.
use audio_sync.Base.{
  ℕ, zero, suc, ◌+◌, ◌*◌, ◌/◌, ◌%◌, ◌^◌, ◌≤◌, ◌<◌, ◌≡◌, refl, ap, sym, ◌∙◌, true, false, ◌&&◌, some,
  List, [], ◌∷◌, ◌++◌, ltb, ◌==◌, length, length-append, length-take, take, arith,
}
use mathlib.Core.List.{append-nil}
use audio_sync.Base.Int.{ℤ}
use audio_sync.Fifo.{Fifo, write}
use audio_sync.Fifo.Inv.{IsValid}
use audio_sync.Fifo.Refine.{contents}
use audio_sync.Fifo.Append.{write_lem}
use audio_sync.Player.Enqueue.{
  Rounds, finds_stopped, finds_playing, Queueing, add_mark, enqueue_pcm,
}

not_again : (written size : ℕ) → 0 < written → (written == 0 && ltb 0 size) ≡ false
not_again written size h = ground arith

more : (b c l n m : ℕ) → b ≡ c + l → b + n < 2 ^ 64 → m ≡ l + n → (b + n) % 2 ^ 64 ≡ c + m
more b c l n m h bound e = omega arith

count_once : (b n : ℕ) → (b + n) % 2 ^ 64 ≡ (b + (0 + 1) * n) % 2 ^ 64
count_once b n = omega arith

count_again :
    (b n k : ℕ) → ((b + n) % 2 ^ 64 + (k + 1) * n) % 2 ^ 64 ≡ (b + (suc k + 1) * n) % 2 ^ 64
count_again b n k = wrap ((k + 1) * n) ((suc k + 1) * n) (grind arith)
  where
    wrap : (p r : ℕ) → r ≡ p + n → ((b + n) % 2 ^ 64 + p) % 2 ^ 64 ≡ (b + r) % 2 ^ 64
    wrap p r h = omega arith

one_more : (a b k : ℕ) → a ≡ b + 1 → a + k + 1 ≡ b + suc k + 1
one_more a b k h = omega arith

again : (size : ℕ) → 0 < size → (0 == 0 && ltb 0 size) ≡ true
again size h = ground arith

module _ {A : Type 0} where
  written_once :
      (rounds : Rounds A) (frame_size : ℕ) (q : Queueing A) (pcm : List A) (pcm_size : ℕ) (time : ℤ)
      {n : ℕ} {g : Fifo A}
      → write q.fifo pcm (pcm_size / frame_size) ≡ some (n, g)
      → 0 < n
      → enqueue_pcm rounds frame_size q pcm pcm_size time
        ≡ some (add_mark q g (pcm_size / frame_size) time)
  unfolding enqueue_pcm
  written_once finds_stopped frame_size q pcm pcm_size time done some_written = simp done refl
  written_once (finds_playing wait rounds) frame_size q pcm pcm_size time {n} done some_written =
      simp (done, not_again n pcm_size some_written) refl

  -- With room for all frames of a call, and a count of buffered frames that is right (those that were
  -- read before and those in the queue): the frames are appended, the count is right again, and one
  -- mark is set, behind the last frame. No sleep is needed.
  pub enqueue_pcm_lem :
      (rounds : Rounds A) (frame_size : ℕ) (q : Queueing A) (pcm : List A) (pcm_size : ℕ) (time : ℤ)
      (consumed : ℕ)
      → IsValid q.fifo
      → 0 < pcm_size / frame_size
      → pcm_size / frame_size ≤ length pcm
      → length (contents q.fifo) + pcm_size / frame_size ≤ q.fifo.frame_count
      → q.buffered_frames ≡ consumed + length (contents q.fifo)
      → q.buffered_frames + pcm_size / frame_size < 2 ^ 64
      → (q' : Queueing A) × (enqueue_pcm rounds frame_size q pcm pcm_size time ≡ some q')
        × IsValid q'.fifo
        × (contents q'.fifo ≡ contents q.fifo ++ take (pcm_size / frame_size) pcm)
        × (q'.buffered_frames ≡ consumed + length (contents q'.fifo))
        × (q'.marks
            ≡ q.marks
              ++ record { frame_count = consumed + length (contents q'.fifo); playback_time = time }
                ∷ [])
  enqueue_pcm_lem rounds frame_size q pcm pcm_size time consumed valid some_frames enough room
        counted bound =
      let (n, g, done, w) = write_lem pcm (pcm_size / frame_size) valid enough in
      let all : n ≡ pcm_size / frame_size = omega (arith, w.amount, room) in
      let appended : contents g ≡ contents q.fifo ++ take (pcm_size / frame_size) pcm =
        w.appended ∙ ap (λ m. contents q.fifo ++ take m pcm) all in
      let right : (q.buffered_frames + pcm_size / frame_size) % 2 ^ 64
          ≡ consumed + length (contents g) =
        more q.buffered_frames consumed (length (contents q.fifo)) (pcm_size / frame_size)
          (length (contents g)) counted bound
          (ap length appended
            ∙ length-append (contents q.fifo) (take (pcm_size / frame_size) pcm)
            ∙ ap (λ m. length (contents q.fifo) + m)
                (length-take (pcm_size / frame_size) pcm ∙ omega (arith, enough))) in
      (
        add_mark q g (pcm_size / frame_size) time,
        written_once rounds frame_size q pcm pcm_size time done (omega (arith, all, some_frames)),
        w.valid,
        appended,
        right,
        ap (λ m. q.marks ++ record { frame_count = m; playback_time = time } ∷ []) right,
      )

  full_write :
      {f : Fifo A} (pcm : List A) (count : ℕ)
      → IsValid f
      → count ≤ length pcm
      → length (contents f) ≡ f.frame_count
      → (g : Fifo A) × (write f pcm count ≡ some (0, g))
        × IsValid g
        × (g.frame_count ≡ f.frame_count)
        × (contents g ≡ contents f)
  full_write {f} pcm count valid enough full =
      let (n, g, done, w) = write_lem pcm count valid enough in
      let nothing : n ≡ 0 = omega (arith, w.amount, full) in
      (
        g,
        rw nothing at done,
        w.valid,
        w.kept,
        w.appended ∙ ap (λ m. contents f ++ take m pcm) nothing ∙ append-nil (contents f),
      )

  one_mark :
      (q : Queueing A) (g : Fifo A) (frames : ℕ) (time : ℤ)
      → length (add_mark q g frames time).marks ≡ length q.marks + 1
  one_mark q g frames time =
      length-append q.marks
        (record { frame_count = (q.buffered_frames + frames) % 2 ^ 64; playback_time = time } ∷ [])

  -- So many sleeps in which nothing is read, and then playback is stopped.
  abbrev pub idle : ℕ → Rounds A
  idle zero = finds_stopped
  idle (suc k) = finds_playing (λ f. f) (idle k)

  -- If the queue is full, and playback is found running k times and nothing is read in the sleeps behind
  -- that, and then it does not run: nothing is written, but the frames of the
  -- call are counted k + 1 times, and k + 1 marks are set.
  pub enqueue_pcm_full :
      (k : ℕ) (frame_size : ℕ) (q : Queueing A) (pcm : List A) (pcm_size : ℕ) (time : ℤ)
      → IsValid q.fifo
      → 0 < pcm_size
      → pcm_size / frame_size ≤ length pcm
      → length (contents q.fifo) ≡ q.fifo.frame_count
      → q.buffered_frames < 2 ^ 64
      → (q' : Queueing A) × (enqueue_pcm (idle k) frame_size q pcm pcm_size time ≡ some q')
        × (contents q'.fifo ≡ contents q.fifo)
        × (q'.buffered_frames ≡ (q.buffered_frames + (k + 1) * (pcm_size / frame_size)) % 2 ^ 64)
        × (length q'.marks ≡ length q.marks + k + 1)
  unfolding enqueue_pcm
  enqueue_pcm_full zero frame_size q pcm pcm_size time valid some_bytes enough full bound =
      let (g, done, valid', kept, same) =
        full_write pcm (pcm_size / frame_size) valid enough full in
      (
        add_mark q g (pcm_size / frame_size) time,
        simp done refl,
        same,
        count_once q.buffered_frames (pcm_size / frame_size),
        one_mark q g (pcm_size / frame_size) time ∙ omega arith,
      )
  enqueue_pcm_full (suc k) frame_size q pcm pcm_size time valid some_bytes enough full bound =
      let (g, done, valid', kept, same) =
        full_write pcm (pcm_size / frame_size) valid enough full in
      let next = add_mark q g (pcm_size / frame_size) time in
      let (q', rest, contents', buffered, marks) =
        enqueue_pcm_full k frame_size next pcm pcm_size time valid' some_bytes enough
          (ap length same ∙ full ∙ sym kept) (omega arith) in
      (
        q',
        simp (done, again pcm_size some_bytes) rest,
        contents' ∙ same,
        buffered ∙ count_again q.buffered_frames (pcm_size / frame_size) k,
        marks
            ∙ one_more (length next.marks) (length q.marks) k
                (one_mark q g (pcm_size / frame_size) time),
      )
