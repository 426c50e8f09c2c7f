-- ===== src/Player/Enqueue.antt =====
-- `audioplayer_enqueuePCMFrames` of app/src/main/jni/audioplayer.cpp: decoded frames go into the frame
-- queue, and a mark says to which playback time they belong.
use audio_sync.Base.{
  ℕ, ◌+◌, ◌/◌, ◌%◌, ◌^◌, ◌&&◌, Option, some, List, [], ◌∷◌, ◌++◌, ◌>>=◌, ltb, ◌==◌, if◌then◌else◌,
}
use audio_sync.Base.Int.{ℤ}
use audio_sync.Fifo.{Fifo, write}

-- `_playbackMark`.
pub record Mark : Type 0 where
  pub frame_count : ℕ
  pub playback_time : ℤ

-- The queue of frames, `current_bufferedFrames`, and the queue of marks.
pub record Queueing (A : Type 0) : Type 0 where
  pub fifo : Fifo A
  pub buffered_frames : ℕ
  pub marks : List Mark

-- What the rounds of a call find in `current_isPlaying`, each where it wrote nothing: that playback
-- does not run, or that it runs, with what happens to the queue in the sleep behind that.
pub data Rounds (A : Type 0) : Type 0 where
  finds_stopped : Rounds A
  finds_playing : (Fifo A → Fifo A) → Rounds A → Rounds A

module _ {A : Type 0} where
  abbrev pub add_mark : Queueing A → Fifo A → ℕ → ℤ → Queueing A
  add_mark q g frames time =
      let buffered = (q.buffered_frames + frames) % 2 ^ 64 in
      record {
        fifo = g;
        buffered_frames = buffered;
        marks = q.marks ++ record { frame_count = buffered; playback_time = time } ∷ [];
      }

  abbrev pub with_fifo : Queueing A → Fifo A → Queueing A
  with_fifo q g = record { fifo = g; buffered_frames = q.buffered_frames; marks = q.marks }

  -- The call, with the bytes and the bytes of a frame. While playback runs and nothing was written it
  -- sleeps and calls itself. A call that never ends has no `Rounds`. Its calls of
  -- `audioplayer_monitorPlayback` change neither queue nor marks, and are left out.
  unfoldable pub enqueue_pcm : Rounds A → ℕ → Queueing A → List A → ℕ → ℤ → Option (Queueing A)
  enqueue_pcm finds_stopped frame_size q pcm pcm_size time =
      write q.fifo pcm (pcm_size / frame_size) >>= λ (written, g).
      some (add_mark q g (pcm_size / frame_size) time)
  enqueue_pcm (finds_playing wait rounds) frame_size q pcm pcm_size time =
      write q.fifo pcm (pcm_size / frame_size) >>= λ (written, g).
      (let q' = add_mark q g (pcm_size / frame_size) time in
        let again = enqueue_pcm rounds frame_size (with_fifo q' (wait g)) pcm pcm_size time in
        if written == 0 && ltb 0 pcm_size then again else some q')
