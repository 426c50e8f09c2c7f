-- ===== src/Player/Callback/Early.antt =====
-- What `_bqPlayerCallback` (app/src/main/jni/audioplayer.cpp) enqueues when the playback is early.
use Prim.Native.String.{String}
use audio_sync.Base.{
  ℕ, zero, suc, ◌+◌, ◌-◌, ◌/◌, ◌%◌, ◌<◌, ◌≡◌, refl, ap, ◌∙◌, false, true, ◌&&◌, List, [], ◌∷◌,
  arith, ltb, ◌==◌, length, take, Option, some, none, min, if◌then◌else◌, get_elem?,
}
use audio_sync.Fifo.Refine.{contents}
use audio_sync.Player.{Memory}
use audio_sync.Player.OpenSl.{check_error}
use audio_sync.Player.Callback.{Stream, FrameBytes, Playback, Tick, frames_at, put_frames}
use audio_sync.Player.Callback.Advance.{IsBuffered, HasRoom}
use audio_sync.Player.Callback.Waits.{put_frames-before}

abbrev pub or_else : {A : Type 0} → Option A → A → A
or_else none y = y
or_else (some x) y = x

same : (a : ℕ) → (a == a) ≡ true
same a = ground arith

module _ {A : Type 0} where
  pub get_elem?-frames_at :
      (memory : Memory A) (base n i : ℕ)
      → i < n
      → get_elem? (frames_at memory base n) i ≡ some (memory (base + i))
  get_elem?-frames_at memory base zero i h = absurd (omega arith)
  get_elem?-frames_at memory base (suc n) zero h = ap (λ j. some (memory j)) (omega arith)
  get_elem?-frames_at memory base (suc n) (suc i) h =
      get_elem?-frames_at memory (base + 1) n i (omega (arith, h))
      ∙ ap (λ j. some (memory j)) (omega arith)

  pub put_frames-at :
      (memory : Memory A) (base : ℕ) (xs : List A) (i : ℕ)
      → put_frames memory base xs (base + i) ≡ or_else (get_elem? xs i) (memory (base + i))
  unfolding put_frames
  put_frames-at memory base [] i = refl
  put_frames-at memory base (x ∷ xs) zero =
      ap (put_frames (λ j. if j == base then x else memory j) (base + 1) xs) (omega arith)
      ∙ put_frames-before (λ j. if j == base then x else memory j) (base + 1) xs base (omega arith)
      ∙ simp (same base) refl
  put_frames-at memory base (x ∷ xs) (suc i) =
      ap (put_frames (λ j. if j == base then x else memory j) (base + 1) xs) (omega arith)
      ∙ put_frames-at (λ j. if j == base then x else memory j) (base + 1) xs i
      ∙ ap (or_else (get_elem? xs i)) (rest ∙ ap memory (omega arith))
    where
      other : (a b : ℕ) → b < a → (a == b) ≡ false
      other a b k = ground arith

      rest : (if base + 1 + i == base then x else memory (base + 1 + i)) ≡ memory (base + 1 + i)
      rest = simp (other (base + 1 + i) base (omega arith)) refl

  -- What is to be heard in a pause of `ahead` frames and behind it, by the code as it is. `old` is what
  -- the buffer held before.
  unfoldable pub paused : FrameBytes A → (ahead : ℕ) (old : Memory A) (frames : List A) → ℕ → A
  paused bytes ahead old frames i =
      if ltb i (ahead / 2)
      then bytes.silent
      else if i == ahead / 2 && ahead % 2 == 1
      then bytes.half_silent (old i)
      else if ltb i ahead
      then old i
      else or_else (get_elem? frames (i - ahead)) (old i)

  module _ (st : Stream) (bytes : FrameBytes A) (t : Tick) (base : ℕ) (b : IsBuffered st)
      (room : HasRoom st base) (log : List (String × String))
      (ok : check_error t.result "_bqPlayerCallback" ≡ some log) where
    -- The frames that go behind a pause.
    abbrev pub next_frames : ℕ → Playback A → List A
    next_frames ahead p =
        take (min (st.frames_per_buffer - ahead) (length (contents p.fifo))) (contents p.fifo)
