-- ===== src/Fifo/Append.antt =====
-- `audio_utils_fifo_write` as a whole.
use audio_sync.Base.{
  ℕ, ◌-◌, ◌≤◌, ◌≡◌, refl, ◌∙◌, some, List, ◌++◌, arith, length, take, ℕ_discrete, min,
}
use mathlib.Core.List.{append-nil}
use audio_sync.Fifo.{Fifo, write}
use audio_sync.Fifo.Index.{position}
use audio_sync.Fifo.Inv.{IsValid, distance, distance-le}
use audio_sync.Fifo.Copy.{store_lem}
use audio_sync.Fifo.Refine.{contents, length-between}
use audio_sync.Fifo.Write.{
  written, with_frames, before_end, write-avail, write_avail_zero, write_avail_runs, append_frames,
}

module _ {A : Type 0} where
  pub length-contents : {f : Fifo A} → IsValid f → length (contents f) ≡ distance f f.rear f.front
  unfolding contents
  length-contents v = length-between v.sized v.spans

  -- What a write of `count` frames leaves behind it.
  pub record Wrote (f : Fifo A) (source : List A) (count : ℕ) (n : ℕ) (g : Fifo A) : Type 0 where
    pub amount : n ≡ min count (f.frame_count - length (contents f))
    pub valid : IsValid g
    pub kept : g.frame_count ≡ f.frame_count
    pub appended : contents g ≡ contents f ++ take n source

  -- On a valid queue `write` never fails: it takes as many of the `count` frames as there is room
  -- for, returns their number, appends exactly them, and leaves a valid queue of the same size.
  pub write_lem :
      {f : Fifo A} (source : List A) (count : ℕ)
      → IsValid f
      → count ≤ length source
      → (n : ℕ) × (g : Fifo A) × (write f source count ≡ some (n, g)) × Wrote f source count n g
  write_lem {f} source count v enough = elim (ℕ_discrete (written f count) 0) [
    | yes e ↦ (
      0,
      f,
      write-avail source count v ∙ rw e (write_avail_zero source v),
      record {
        amount = rw (length-contents v) (omega (arith, e));
        valid = v;
        kept = refl;
        appended = rw append-nil;
      },
    )
    | no ne ↦
        let n : ℕ = written f count in
        let part1 : ℕ = before_end f n in
        let (out, stored, st) =
          store_lem f source (position f.frame_count_p2 f.rear) part1 (n - part1)
            (omega (arith, v.sized.memory, v.spans.rear_in)) (omega (arith, v.sized.memory))
            (omega arith) in
        let (valid, frames) =
          append_frames source n v (omega (arith, distance-le v.sized v.spans)) (omega arith) st in
        (
          n,
          with_frames f out n,
          write-avail source count v ∙ write_avail_runs source n v ne (omega arith) stored,
          record {
            amount = rw (length-contents v) refl;
            valid = valid;
            kept = refl;
            appended = frames;
          },
        )
  ]
