-- ===== src/Player/Init/Fresh.antt =====
-- What `audioplayer_initPlayback` (app/src/main/jni/audioplayer.cpp) sets up.
use audio_sync.Base.{
  ℕ, ◌*◌, ◌^◌, ◌<◌, ◌≡◌, ◌⊎◌, refl, sym, ap, ◌∙◌, inl, inr, Bool, true, false, Option, some, List,
  [], ◌∷◌, arith, length,
}
use audio_sync.Fifo.Refine.{contents}
use audio_sync.Fifo.Take.{init_lem}
use audio_sync.Player.Enqueue.{Mark}
use audio_sync.Player.OpenSl.{SlResult, success}
use audio_sync.Player.Device.{SlCall}
use audio_sync.Player.Device.Lawful.{IsLawful}
use audio_sync.Player.Device.Turns.{device_opened, device_played}
use audio_sync.Player.Callback.{Stream, FrameBytes, Playback, Tick}
use audio_sync.Player.Callback.Advance.{IsBuffered}
use audio_sync.Player.Callback.Safe.{IsCoarse}
use audio_sync.Player.Callback.Ready.{IsReady, IsGood}
use audio_sync.Player.Callback.Whole.{callback_lem}
use audio_sync.Player.Callback.Waits.{copies, callback_waits}
use audio_sync.Player.Init.{Audio, pop_all, queue_frames, reset, init_fifo, init_playback}

pop_all-nil : (marks : List Mark) → pop_all marks ≡ []
pop_all-nil [] = refl
pop_all-nil (m ∷ marks) = pop_all-nil marks

same_next :
    {O P : Type 0} (a b : O) (x y : P)
    → ◌≡◌ {A = Option (O × P)} (some (a, x)) (some (b, y))
    → x ≡ y
same_next a b x y h = cc h

module _ {A : Type 0} (bytes : FrameBytes A) (answer : List SlCall → SlCall → SlResult) where
  abbrev new_stream : ℕ → ℕ → Audio A → Stream
  new_stream rate channels s = record s.stream { samples_per_sec = rate; num_channels = channels }

  -- The player at the start of a stream.
  pub record IsFresh (s : Audio A) : Type 0 where
    pub device : IsLawful true true s.device
    pub ready : IsReady s.stream s.playback
    pub empty : contents s.playback.fifo ≡ []
    pub marks : s.playback.marks ≡ []
    pub queued : s.playback.queued_frames ≡ 0
    pub buffered : s.buffered_frames ≡ 0
    pub stopped : s.playback.is_playing ≡ false

  -- If each call of OpenSL ES succeeds, no player is left, there is memory for five minutes of
  -- frames, which are fewer than 2 ^ 31, rate and channels are not 0, the buffers of the device are
  -- smaller than `MAX_BUFFER_SIZE` by a frame or more, and half the resolution of the coarse clock
  -- is the time of a frame or more: the call succeeds, enqueues one buffer of bytes 1, and leaves
  -- the player of a new stream: an empty queue, no marks, no frames counted, nothing played, and a
  -- realized player.
  pub init_playback_lem :
      (memory : List A) (t : Tick) (rate channels : ℕ) (opened : Bool) (s : Audio A)
      → ((calls : List SlCall) (c : SlCall) → answer calls c ≡ success)
      → IsLawful opened false s.device
      → length memory ≡ rate * 300
      → rate * 300 < 2 ^ 31
      → IsBuffered (new_stream rate channels s)
      → IsGood (new_stream rate channels s) t
      → (s.playback.accuracy ≡ 0) ⊎ IsCoarse (new_stream rate channels s) s.playback.accuracy
      → (s' : Audio A) × (init_playback bytes answer (λ frames size. some memory) t rate channels s
          ≡ some (some (copies s.stream.frames_per_buffer bytes.noise), s'))
        × IsFresh s'
  unfolding init_playback reset init_fifo
  init_playback_lem memory t rate channels opened s works l len small b g acc =
      let o = device_opened answer works s.global_samples_per_sec rate channels opened s.device l in
      let pl = device_played answer works o.device o.lawful in
      let whole : queue_frames rate ≡ rate * 300 = omega (arith, small) in
      let (f, fe, v, kept, nothing) =
        init_lem (queue_frames rate) (channels * 2) memory (omega (arith, b.rate))
          (omega (arith, whole, small)) (omega (arith, b.channels)) (len ∙ sym whole) in
      let p : Playback A = record (reset rate channels s).playback { fifo = f } in
      let r : IsReady (new_stream rate channels s) p = record {
        valid = v;
        reached = omega arith;
        coarse = at_rest acc;
      } in
      let c = callback_lem (new_stream rate channels s) bytes t p b g r in
      let (q, runs, still, fifo, queued, marks) =
        callback_waits (new_stream rate channels s) bytes t p b g refl refl in
      let same : c.next ≡ q =
        same_next c.output (some (copies s.stream.frames_per_buffer bytes.noise)) c.next q
          (sym c.runs ∙ runs) in
      (
        record (reset rate channels s) { device = pl.device; playback = q; fifo_buffer = true },
        simp (o.runs, fe, pl.runs, runs) refl,
        record {
          device = pl.lawful;
          ready = rw same at c.ready;
          empty = ap contents fifo ∙ nothing;
          marks = marks ∙ pop_all-nil s.playback.marks;
          queued = queued;
          buffered = refl;
          stopped = still;
        },
      )
    where
      at_rest :
          (s.playback.accuracy ≡ 0) ⊎ IsCoarse (new_stream rate channels s) s.playback.accuracy
          → (s.playback.accuracy ≡ 0) × (false ≡ false)
            ⊎ IsCoarse (new_stream rate channels s) s.playback.accuracy
      at_rest (inl unknown) = inl (unknown, refl)
      at_rest (inr known) = inr known
