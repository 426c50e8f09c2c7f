-- ===== src/Player/Callback/Frames.antt =====
-- `_bqPlayerCallback` (app/src/main/jni/audioplayer.cpp) plays frames of the queue, all of them or
-- without those that it takes out, and has a result.
use Prim.Native.String.{String}
use audio_sync.Base.{
  ℕ, zero, suc, ◌+◌, ◌-◌, ◌*◌, ◌/◌, ◌≤◌, ◌<◌, ◌≡◌, refl, ◌∙◌, false, true, List, arith, leb, ltb,
  ◌==◌, if◌then◌else◌, inl, inr, Bool-cases, Option, some, none, ==_iff,
}
use audio_sync.Base.Int.{ℤ, pos, negsuc, ◌-ℤ◌}
use audio_sync.Fifo.Inv.{IsValid}
use audio_sync.Player.{Memory, stretch, Stretching, stretch_from}
use audio_sync.Player.OpenSl.{check_error}
use audio_sync.Player.Callback.{
  max_buffer_size, Stream, frame_size, max_frames, FrameBytes, Playback, Tick, Output, frames_at,
  count, emit,
}
use audio_sync.Player.Callback.Play.{stretch_at, play_frames, play_late}
use audio_sync.Player.Callback.Advance.{
  IsBuffered, HasRoom, below_max, request_fits, Reads, read_frames_lem, counted, uncounted,
  with_frames, repainted,
}
use audio_sync.Player.Callback.Safe.{Plays, length-frames_at}

-- What the number of frames can be divided by.
abbrev Divides : ℤ → Type 0
Divides (pos n) = 0 < n
Divides (negsuc n) = Unit

sub-Divides : (a b : ℕ) → b < a → Divides (pos a -ℤ pos b)
unfolding ◌-ℤ◌
sub-Divides a b h = rw (below a b h) (omega arith)
  where
    below : (x y : ℕ) → y < x → leb (0 + y) (x + 0) ≡ true
    below x y k = ground arith

stretch-runs :
    {A : Type 0} (blend : A → A → A) (memory : Memory A) (n d : ℕ)
    → 0 < d
    → (s : Stretching A) × (stretch blend memory n d ≡ some s)
unfolding stretch
stretch-runs blend memory n d h = (
  stretch_from blend (n / d) n 0 (record { memory = memory; n_frame = 0; drop = d }),
  simp (positive d h) refl,
)
  where
    positive : (x : ℕ) → 0 < x → (x == 0) ≡ false
    positive x k = ground arith

module _ {A : Type 0} (bytes : FrameBytes A) where
  module _ (st : Stream) (t : Tick) (base : ℕ) (b : IsBuffered st) (room : HasRoom st base)
      (log : List (String × String))
      (ok : check_error t.result "_bqPlayerCallback" ≡ some log) where
    -- The frames that were read are enqueued as they are, or after some were taken out.
    Plays-read :
        {request : ℕ} {p : Playback A} (r : Reads st base request p)
        (result : Option (Output A × Playback A))
        → request ≤ max_frames st
        → result ≡ emit t base r.n (count r.n (with_frames base r.frames r.next p))
        → Plays bytes st p result
    Plays-read {request} {p} r result le e =
        let q = with_frames base r.frames r.next p in
        record {
          output = some (frames_at q.temp_buffers base r.n);
          next = count r.n q;
          runs = e ∙ simp ok refl;
          advance = counted r;
          fits = omega (arith, le, r.took.amount, length-frames_at q.temp_buffers base r.n);
        }

    Plays-stretched :
        {request : ℕ} {p : Playback A} (r : Reads st base request p) (memory : Memory A)
        (result : Option (Output A × Playback A))
        → result
          ≡ emit t base st.frames_per_buffer
              (count r.n (record (with_frames base r.frames r.next p) { temp_buffers = memory }))
        → Plays bytes st p result
    Plays-stretched {request} {p} r memory result e = record {
      output = some (frames_at memory base st.frames_per_buffer);
      next = count r.n (record (with_frames base r.frames r.next p) { temp_buffers = memory });
      runs = e ∙ simp ok refl;
      advance = repainted memory (counted r);
      fits = omega (arith, below_max b, length-frames_at memory base st.frames_per_buffer);
    }

    -- The loop that takes frames out is left with a result, unless none are to go.
    stretch_at-runs :
        (memory : Memory A) (n : ℕ) (drop : ℤ)
        → Divides drop
        → (after : Memory A) × (stretch_at bytes memory base n drop ≡ some after)
    unfolding stretch_at
    stretch_at-runs memory n (pos zero) h = absurd (omega arith)
    stretch_at-runs memory n (pos (suc d)) h =
        let (s, e) = stretch-runs bytes.blend (λ i. memory (base + i)) n (suc d) h in
        (λ j. if leb base j then s.memory (j - base) else memory j, simp e refl)
    stretch_at-runs memory n (negsuc d) h = (_, refl)

    pub play_frames_lem :
        (request : ℕ) (p : Playback A)
        → IsValid p.fifo
        → request ≤ max_frames st
        → Plays bytes st p (play_frames bytes st t base request none p)
    unfolding play_frames
    play_frames_lem request p v le =
        let r = read_frames_lem st base request (max_frames st) p v le room in
        elim (Bool-cases (r.n == 0)) [
          | inl nothing ↦ record {
            output = none;
            next = with_frames base r.frames r.next p;
            runs = simp (r.runs, nothing) refl;
            advance = uncounted r ((==_iff r.n 0).0 nothing);
            fits = tt;
          }
          | inr some_read ↦
              Plays-read r (play_frames bytes st t base request none p) le
                (simp (r.runs, some_read) refl)
        ]

    play_frames_late :
        (request : ℕ) (drop : ℤ) (p : Playback A)
        → IsValid p.fifo
        → request ≤ max_frames st
        → Divides drop
        → Plays bytes st p (play_frames bytes st t base request (some drop) p)
    unfolding play_frames
    play_frames_late request drop p v le h =
        let r = read_frames_lem st base request (max_frames st) p v le room in
        let q = with_frames base r.frames r.next p in
        elim (Bool-cases (r.n == 0)) [
          | inl nothing ↦ record {
            output = none;
            next = q;
            runs = simp (r.runs, nothing) refl;
            advance = uncounted r ((==_iff r.n 0).0 nothing);
            fits = tt;
          }
          | inr some_read ↦ elim (Bool-cases (r.n == request)) [
            | inl all ↦
                let (after, e) = stretch_at-runs q.temp_buffers r.n drop h in
                Plays-stretched r after (play_frames bytes st t base request (some drop) p)
                  (simp (r.runs, some_read, all, e) refl)
            | inr fewer ↦
                Plays-read r (play_frames bytes st t base request (some drop) p) le
                  (simp (r.runs, some_read, fewer) refl)
          ]
        ]

    pub play_late_lem :
        (drop : ℕ) (p : Playback A)
        → IsValid p.fifo
        → 0 < drop
        → Plays bytes st p (play_late bytes st t base (pos drop) p)
    unfolding play_late
    play_late_lem drop p v h =
        elim (Bool-cases (ltb max_buffer_size ((st.frames_per_buffer + drop) * frame_size st))) [
          | inl more ↦
              let s =
                play_frames_late (max_frames st) (pos (max_frames st) -ℤ pos st.frames_per_buffer) p
                  v (omega arith)
                  (sub-Divides (max_frames st) st.frames_per_buffer (below_max b)) in
              record {
                output = s.output;
                next = s.next;
                runs = simp more s.runs;
                advance = s.advance;
                fits = s.fits;
              }
          | inr within ↦
              let s =
                play_frames_late (st.frames_per_buffer + drop) (pos drop) p v
                  (request_fits (st.frames_per_buffer + drop) b within) h in
              record {
                output = s.output;
                next = s.next;
                runs = simp within s.runs;
                advance = s.advance;
                fits = s.fits;
              }
        ]
