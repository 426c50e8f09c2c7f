-- ===== src/Fifo/Take.antt =====
-- `audio_utils_fifo_read`, `audio_utils_fifo_init` and `audio_utils_fifo_available` as a whole.
use audio_sync.Base.{
  ℕ, ◌-◌, ◌<◌, ◌^◌, ◌%◌, ◌≡◌, refl, ◌∙◌, some, inl, List, [], arith, length, take, drop, ℕ_discrete,
  min, eq-nil_of_length,
}
use native.Mathlib.Nat.{mod-eq_of_lt}
use audio_sync.Fifo.{Fifo, init, roundup, read, available}
use audio_sync.Fifo.Roundup.{roundup_bounds}
use audio_sync.Fifo.Index.{position}
use audio_sync.Fifo.Inv.{IsValid, distance, distance-le, diff_lem}
use audio_sync.Fifo.Copy.{fetch_lem}
use audio_sync.Fifo.Refine.{contents}
use audio_sync.Fifo.Append.{length-contents}
use audio_sync.Fifo.Read.{
  to_end, without_frames, read-avail, read_avail_zero, read_avail_runs, oldest_frames, read_valid,
}

module _ {A : Type 0} where
  -- What a read of `count` frames hands over and leaves behind it.
  pub record Took (f : Fifo A) (count : ℕ) (n : ℕ) (frames : List A) (g : Fifo A) : Type 0 where
    pub amount : n ≡ min count (length (contents f))
    pub oldest : frames ≡ take n (contents f)
    pub valid : IsValid g
    pub kept : g.frame_count ≡ f.frame_count
    pub rest : contents g ≡ drop n (contents f)

  -- On a valid queue `read` never fails: it hands over the oldest frames, as many of `count` as
  -- there are, returns their number, and leaves a valid queue of the frames behind them.
  pub read_lem :
      {f : Fifo A} (count : ℕ)
      → IsValid f
      → (n : ℕ) × (frames : List A) × (g : Fifo A) × (read f count ≡ some (n, frames, g))
        × Took f count n frames g
  read_lem {f} count v = elim (ℕ_discrete (min count (distance f f.rear f.front)) 0) [
    | yes e ↦ (
      0,
      [],
      f,
      read-avail count v ∙ rw e (read_avail_zero v),
      record {
        amount = rw (length-contents v) (omega (arith, e));
        oldest = refl;
        valid = v;
        kept = refl;
        rest = refl;
      },
    )
    | no ne ↦
        let n : ℕ = min count (distance f f.rear f.front) in
        let part1 : ℕ = to_end f n in
        let (out, fetched, fe) =
          fetch_lem f (position f.frame_count_p2 f.front) part1 (n - part1)
            (omega (arith, v.sized.memory, v.spans.front_in))
            (omega (arith, v.sized.memory, distance-le v.sized v.spans)) in
        let (valid, rest) = read_valid n v (omega arith) in
        (
          n,
          out,
          without_frames f n,
          read-avail count v
              ∙ read_avail_runs n v ne (omega (arith, distance-le v.sized v.spans)) fetched,
          record {
            amount = rw (length-contents v) refl;
            oldest = oldest_frames n v (omega arith) fe;
            valid = valid;
            kept = refl;
            rest = rest;
          },
        )
  ]

  -- `available` is the number of frames in the queue.
  pub available_lem : {f : Fifo A} → IsValid f → available f ≡ some (length (contents f))
  unfolding available
  available_lem v = rw (length-contents v) (diff_lem v.sized v.spans)

  abbrev fresh : ℕ → ℕ → List A → Fifo A
  fresh frame_count frame_size buffer = record {
    frame_count = frame_count;
    frame_count_p2 = roundup frame_count;
    fudge_factor = roundup frame_count - frame_count;
    frame_size = frame_size;
    buffer = buffer;
    front = 0;
    rear = 0;
  }

  fresh-IsValid :
      (frame_count frame_size : ℕ) (buffer : List A)
      → 0 < frame_count
      → frame_count < 2 ^ 31
      → length buffer ≡ frame_count
      → IsValid (fresh frame_count frame_size buffer)
  fresh-IsValid frame_count frame_size buffer pos small len =
      let (k, le, power, above, below) = roundup_bounds frame_count pos (omega arith) in
      let turn : 0 % roundup frame_count ≡ 0 = mod-eq_of_lt (omega arith) in
      record {
        sized = record {
          exponent = k;
          power = power;
          small = le;
          some_frames = pos;
          fits = above;
          signed = small;
          fudged = refl;
          memory = len;
        };
        spans = record {
          rear_word = omega arith;
          front_word = omega arith;
          rear_in = rw turn pos;
          front_in = rw turn pos;
          order = inl (refl, omega arith);
        };
      }

  -- `init` makes a valid empty queue of `frame_count` frames over a buffer of that many.
  pub init_lem :
      (frame_count frame_size : ℕ) (buffer : List A)
      → 0 < frame_count
      → frame_count < 2 ^ 31
      → 0 < frame_size
      → length buffer ≡ frame_count
      → (f : Fifo A) × (init frame_count frame_size (some buffer) ≡ some f)
        × IsValid f
        × (f.frame_count ≡ frame_count)
        × (contents f ≡ [])
  unfolding init distance
  init_lem frame_count frame_size buffer pos small size len =
      let v = fresh-IsValid frame_count frame_size buffer pos small len in
      (
        fresh frame_count frame_size buffer,
        ground (
          arith,
          roundup_bounds frame_count pos (omega arith),
          mod-eq_of_lt {n = frame_count} {m = 2 ^ 32} (omega arith),
        ),
        v,
        refl,
        eq-nil_of_length (contents (fresh frame_count frame_size buffer))
            (length-contents v ∙ empty),
      )
    where
      empty : distance (fresh frame_count frame_size buffer) 0 0 ≡ 0
      empty = ground arith
