-- ===== src/Player/Callback/Flow.antt =====
-- Calls of `audioplayer_enqueuePCMFrames` and of the callback (app/src/main/jni/audioplayer.cpp), in any
-- order. No call of the one waits for the other here.
use audio_sync.Base.{
  ℕ, suc, ◌+◌, ◌-◌, min, ◌/◌, ◌≤◌, ◌≡◌, refl, ap, ◌∙◌, List, [], ◌∷◌, ◌++◌, length, drop, take,
  Option, some, none, ◌>>=◌,
}
use mathlib.Core.Path.{subst}
use audio_sync.Base.Int.{ℤ}
use audio_sync.Fifo.{Fifo}
use audio_sync.Fifo.Refine.{contents}
use audio_sync.Fifo.Append.{write_lem}
use audio_sync.Player.Enqueue.{finds_stopped, Queueing, add_mark, enqueue_pcm}
use audio_sync.Player.Callback.{Stream, frame_size, FrameBytes, Playback, Tick, Output}
use audio_sync.Player.Callback.Play.{callback}
use audio_sync.Player.Callback.Advance.{IsBuffered}
use audio_sync.Player.Callback.Ready.{Takes, IsReady, IsGood}
use audio_sync.Player.Callback.Whole.{callback_lem}

-- A call: decoded frames with the number of their bytes and their playback time, or a callback. A round
-- of `audioplayer_enqueuePCMFrames` that sleeps and calls itself is followed, after what happens in the
-- sleep, by the same frames again.
pub data Event (A : Type 0) : Type 0 where
  enqueue : (pcm : List A) → ℕ → ℤ → Event A
  tick : Tick → Event A

-- The player, with `current_bufferedFrames`.
pub record Player (A : Type 0) : Type 0 where
  pub playback : Playback A
  pub buffered_frames : ℕ

module _ {A : Type 0} (bytes : FrameBytes A) (st : Stream) where
  -- One call, and what it enqueues at the device.
  unfoldable pub happen : Event A → Player A → Option (Output A × Player A)
  unfolding enqueue_pcm callback
  happen (enqueue pcm size time) s =
      enqueue_pcm finds_stopped (frame_size st)
        (record {
          fifo = s.playback.fifo;
          buffered_frames = s.buffered_frames;
          marks = s.playback.marks;
        })
        pcm size time
      >>= λ q. some (
        none,
        record {
          playback = record s.playback { fifo = q.fifo; marks = q.marks };
          buffered_frames = q.buffered_frames;
        },
      )
  happen (tick t) s = callback bytes st t s.playback >>= λ (output, p).
      some (output, record { playback = p; buffered_frames = s.buffered_frames })

  unfoldable pub happen_all : List (Event A) → Player A → Option (List (Output A) × Player A)
  unfolding happen
  happen_all [] s = some ([], s)
  happen_all (e ∷ events) s = happen e s >>= λ (output, s').
      happen_all events s' >>= λ (outputs, s''). some (output ∷ outputs, s'')

  -- The buffers hold the frames that their sizes say, and the device behaves as documented.
  abbrev pub AllGood : List (Event A) → Type 0
  AllGood [] = Unit
  AllGood (enqueue pcm size time ∷ events) = (size / frame_size st ≤ length pcm) × AllGood events
  AllGood (tick t ∷ events) = IsGood st t × AllGood events

  -- The queue of frames as a list that has room for so many, and the number of those that left it: a
  -- call appends as many of its frames as there is room for, and a callback takes some of the oldest.
  pub data Follows (room : ℕ) : List A → ℕ → List (Event A) → List A → ℕ → Type 0 where
    ended : {queue : List A} {played : ℕ} → Follows room queue played [] queue played
    enqueued :
        {pcm : List A} {size : ℕ} {time : ℤ} {events : List (Event A)} {queue queue' : List A}
        {played played' : ℕ}
        → Follows room
            (queue ++ take (min (size / frame_size st) (room - length queue)) pcm)
            played
            events
            queue'
            played'
        → Follows room queue played (enqueue pcm size time ∷ events) queue' played'
    ticked :
        {t : Tick} {events : List (Event A)} {queue queue' : List A} {played played' : ℕ}
        (taken : ℕ)
        → taken ≤ length queue
        → Follows room (drop taken queue) (played + taken) events queue' played'
        → Follows room queue played (tick t ∷ events) queue' played'

  Follows-from :
      {room played played' : ℕ} {queue queue' : List A} {events : List (Event A)} {end : List A}
      {total : ℕ}
      → queue ≡ queue'
      → played ≡ played'
      → Follows room queue played events end total
      → Follows room queue' played' events end total
  Follows-from {room = room} {played = played} {queue' = queue'} {events = events} {end = end}
        {total = total} e k f =
      subst (λ n. Follows room queue' n events end total) k
        (subst (λ q. Follows room q played events end total) e f)

  -- A call that has a result, of which the next call can go on.
  record Happens (s : Player A) (e : Event A) : Type 0 where
    output : Output A
    next : Player A
    runs : happen e s ≡ some (output, next)
    ready : IsReady st next.playback
    kept : next.playback.fifo.frame_count ≡ s.playback.fifo.frame_count

  tick-Happens :
      (t : Tick) (s : Player A)
      → IsBuffered st
      → IsGood st t
      → IsReady st s.playback
      → (h : Happens s (tick t)) × Takes s.playback h.next.playback
  unfolding happen
  tick-Happens t s b g r =
      let c = callback_lem st bytes t s.playback b g r in
      (
        record {
          output = c.output;
          next = record { playback = c.next; buffered_frames = s.buffered_frames };
          runs = simp c.runs refl;
          ready = c.ready;
          kept = c.takes.kept;
        },
        c.takes,
      )

  abbrev added : Player A → Fifo A → ℕ → ℤ → Queueing A
  added s g frames time =
      add_mark
        (record {
          fifo = s.playback.fifo;
          buffered_frames = s.buffered_frames;
          marks = s.playback.marks;
        })
        g frames time

  enqueue-Happens :
      (pcm : List A) (size : ℕ) (time : ℤ) (s : Player A)
      → size / frame_size st ≤ length pcm
      → IsReady st s.playback
      → (h : Happens s (enqueue pcm size time)) × (contents h.next.playback.fifo
          ≡ contents s.playback.fifo
            ++ take
                (min
                  (size / frame_size st)
                  (s.playback.fifo.frame_count - length (contents s.playback.fifo)))
                pcm)
        × (h.next.playback.queued_frames ≡ s.playback.queued_frames)
  unfolding happen enqueue_pcm
  enqueue-Happens pcm size time s enough r =
      let (n, g, e, w) = write_lem pcm (size / frame_size st) r.valid enough in
      (
        record {
          output = none;
          next = record {
            playback = record s.playback {
              fifo = g;
              marks = (added s g (size / frame_size st) time).marks;
            };
            buffered_frames = (added s g (size / frame_size st) time).buffered_frames;
          };
          runs = simp e refl;
          ready = record { valid = w.valid; reached = r.reached; coarse = r.coarse };
          kept = w.kept;
        },
        w.appended ∙ ap (λ m. contents s.playback.fifo ++ take m pcm) w.amount,
        refl,
      )

  -- The frames of both ends of a run.
  abbrev pub Moves : ℕ → List (Event A) → Player A → Player A → Type 0
  Moves room events s s' =
      Follows room (contents s.playback.fifo) s.playback.queued_frames events
        (contents s'.playback.fifo) s'.playback.queued_frames

  -- If the buffers of the device are smaller than `MAX_BUFFER_SIZE` by a frame or more, rate and
  -- channels are not 0, the device and the clock behave as documented, and each call brings as many
  -- frames as its size says: from a state between two calls, no call fails in any order of
  -- enqueuing and playing. The queue then is as a list to which each call of enqueuePCMFrames
  -- appends as many of its frames as there is room for, and from which each callback takes some of
  -- the oldest; the callback's count of frames is the number of these.
  pub happen_all_lem :
      (events : List (Event A)) (s : Player A)
      → IsBuffered st
      → IsReady st s.playback
      → AllGood events
      → (outputs : List (Output A)) × (s' : Player A) × (happen_all events s ≡ some (outputs, s'))
        × (length outputs ≡ length events)
        × IsReady st s'.playback
        × Moves s.playback.fifo.frame_count events s s'
  unfolding happen_all
  happen_all_lem [] s b r good = ([], s, refl, refl, r, ended)
  happen_all_lem (enqueue pcm size time ∷ events) s b r good =
      let (h, appended, counted) = enqueue-Happens pcm size time s good.0 r in
      let (outputs, s', e, len, ready, moves) = happen_all_lem events h.next b h.ready good.1 in
      (
        h.output ∷ outputs,
        s',
        simp (h.runs, e) refl,
        ap suc len,
        ready,
        enqueued (
            Follows-from appended counted
              (subst (λ room. Moves room events h.next s') h.kept moves)),
      )
  happen_all_lem (tick t ∷ events) s b r good =
      let (h, takes) = tick-Happens t s b good.0 r in
      let (outputs, s', e, len, ready, moves) = happen_all_lem events h.next b h.ready good.1 in
      (
        h.output ∷ outputs,
        s',
        simp (h.runs, e) refl,
        ap suc len,
        ready,
        ticked takes.taken takes.enough (
            Follows-from takes.rest takes.queued
              (subst (λ room. Moves room events h.next s') h.kept moves)),
      )
