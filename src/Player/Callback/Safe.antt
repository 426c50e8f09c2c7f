-- ===== src/Player/Callback/Safe.antt =====
-- `_bqPlayerCallback` (app/src/main/jni/audioplayer.cpp) neither fails nor leaves its buffers: the ways
-- to fill a buffer, one by one.
use Prim.Native.String.{String}
use audio_sync.Base.{
  ℕ, zero, suc, ◌+◌, ◌-◌, ◌*◌, ◌/◌, ◌≤◌, ◌<◌, ◌≡◌, refl, List, arith, ltb, ◌==◌, ltb→lt, inl, inr,
  Bool-cases, length, Option, some, none, ==_iff,
}
use audio_sync.Base.Int.{pos}
use audio_sync.AppPacket.{second_micro}
use audio_sync.Fifo.Inv.{IsValid}
use audio_sync.Player.{Memory}
use audio_sync.Player.OpenSl.{check_error}
use audio_sync.Player.Callback.{
  Stream, max_frames, FrameBytes, Playback, Tick, Output, frames_at, count, fill,
}
use audio_sync.Player.Callback.Play.{play_noise, play_early, fill_silence}
use audio_sync.Player.Callback.Advance.{
  IsBuffered, HasRoom, below_max, Advance, stand, read_frames_lem, counted, uncounted,
  advance_trans, with_frames, repainted, in_bounds,
}

-- A buffer that is enqueued fits.
abbrev pub Fits : {A : Type 0} → Stream → Output A → Type 0
Fits st none = Unit
Fits st (some xs) = length xs ≤ max_frames st

-- Half the accuracy of the clock is the time of at least one frame.
abbrev pub IsCoarse : Stream → ℕ → Type 0
IsCoarse st accuracy = second_micro ≤ accuracy / 2 * st.samples_per_sec

pub length-frames_at :
    {A : Type 0} (memory : Memory A) (base n : ℕ) → length (frames_at memory base n) ≡ n
length-frames_at memory base zero = refl
length-frames_at memory base (suc n) = omega (arith, length-frames_at memory (base + 1) n)

pub room_ahead :
    (base ahead f m c : ℕ)
    → ahead < f
    → f < m
    → (base + m) * c ≤ 24576
    → (base + ahead + (f - ahead)) * c ≤ 24576
room_ahead base ahead f m c less below room =
    ap_le (base + ahead + (f - ahead)) (base + m) (omega arith) room
  where
    ap_le : (x y : ℕ) → x ≤ y → y * c ≤ 24576 → x * c ≤ 24576
    ap_le x y h k = grind arith

module _ {A : Type 0} (bytes : FrameBytes A) where
  -- A call that does not fail, what it enqueues, and how the state moves on.
  pub record Plays (st : Stream) (p : Playback A) (result : Option (Output A × Playback A))
      : Type 0 where
    pub output : Output A
    pub next : Playback A
    pub runs : result ≡ some (output, next)
    pub advance : Advance p next
    pub fits : Fits st output

  module _ (st : Stream) (t : Tick) (base : ℕ) (b : IsBuffered st) (room : HasRoom st base)
      (log : List (String × String))
      (ok : check_error t.result "_bqPlayerCallback" ≡ some log) where
    pub play_noise_lem :
        (p : Playback A) → IsValid p.fifo → Plays st p (play_noise bytes st t base p)
    unfolding play_noise
    play_noise_lem p v = record {
      output = some (
          frames_at (fill p.temp_buffers base st.frames_per_buffer bytes.noise) base
            st.frames_per_buffer);
      next = record p { temp_buffers = fill p.temp_buffers base st.frames_per_buffer bytes.noise };
      runs =
          simp
            (
              in_bounds base st.frames_per_buffer (max_frames st) st.num_channels
                  (omega (arith, below_max b)) room,
              ok,
            )
            refl;
      advance = repainted (fill p.temp_buffers base st.frames_per_buffer bytes.noise) (stand v);
      fits = omega (
        arith,
        below_max b,
        length-frames_at (fill p.temp_buffers base st.frames_per_buffer bytes.noise) base
            st.frames_per_buffer,
      );
    }

    pub play_early_lem :
        (ahead : ℕ) (p : Playback A)
        → IsValid p.fifo
        → Plays st p (play_early bytes st t base (pos ahead) p)
    unfolding play_early
    play_early_lem ahead p v = elim (Bool-cases (ltb ahead st.frames_per_buffer)) [
      | inr much ↦
          let s = play_noise_lem p v in
          record {
            output = s.output;
            next = s.next;
            runs = simp much s.runs;
            advance = s.advance;
            fits = s.fits;
          }
      | inl less ↦
          let wanted = st.frames_per_buffer - ahead in
          let r = read_frames_lem st (base + ahead) wanted wanted p v (omega arith) (
            room_ahead base ahead st.frames_per_buffer (max_frames st) st.num_channels
              (ltb→lt ahead st.frames_per_buffer less) (below_max b) room) in
          elim (Bool-cases (r.n == 0)) [
            | inl nothing ↦
                let q = with_frames (base + ahead) r.frames r.next p in
                let s = play_noise_lem q r.took.valid in
                record {
                  output = s.output;
                  next = s.next;
                  runs = simp (less, r.runs, nothing) s.runs;
                  advance = advance_trans (uncounted r ((==_iff r.n 0).0 nothing)) s.advance;
                  fits = s.fits;
                }
            | inr some_read ↦
                let q = with_frames (base + ahead) r.frames r.next p in
                let memory = fill_silence bytes q.temp_buffers base ahead in
                record {
                  output = some (frames_at memory base st.frames_per_buffer);
                  next = count r.n (record q { temp_buffers = memory });
                  runs = simp (less, r.runs, some_read, ok) refl;
                  advance = repainted memory (counted r);
                  fits =
                      omega (arith, below_max b, length-frames_at memory base st.frames_per_buffer);
                }
          ]
    ]
