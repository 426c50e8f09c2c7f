-- ===== src/Fifo/Write.antt =====
-- The branches of `audio_utils_fifo_write`.
use audio_sync.Base.{
  ℕ, ◌+◌, ◌-◌, ◌^◌, ◌≤◌, ◌<◌, ◌≡◌, ◌≢◌, refl, sym, ◌∙◌, ◌&&◌, none, some, false, List, ◌++◌, arith,
  ap, ltb, leb, ◌==◌, if◌then◌else◌, length, get_elem?, take, get_elem?-append, get_elem?-take,
  list_ext, min,
}
use native.Mathlib.Nat.{mod-eq_of_lt}
use audio_sync.Fifo.Size.{smaller_lem, sub64_lem, min-zero}
use audio_sync.Fifo.{Fifo, store, write_avail, write}
use audio_sync.Fifo.Index.{position, Generations}
use audio_sync.Fifo.Inv.{
  IsSized, Spans, IsValid, IsSized-generations, distance, distance-le, diff_lem, position-rear,
}
use audio_sync.Fifo.Advance.{advance, sum_lem, write-Spans}
use audio_sync.Fifo.Copy.{Stored}
use audio_sync.Fifo.Refine.{contents, get_elem?-between, length-between}

-- An index into the memory, which goes round at the frame count.
abbrev wrap : ℕ → ℕ → ℕ
wrap count i = if leb count i then i - count else i

module _ {A : Type 0} where
  -- The frames that a write of `count` frames takes, and the parts in which it copies them.
  abbrev pub written : Fifo A → ℕ → ℕ
  written f count = min count (f.frame_count - distance f f.rear f.front)

  abbrev pub before_end : Fifo A → ℕ → ℕ
  before_end f n = min n (f.frame_count - position f.frame_count_p2 f.rear)

  abbrev pub with_frames : Fifo A → List A → ℕ → Fifo A
  with_frames f out n = record f { buffer = out; rear = advance f f.rear n }

  -- The rest of a write of 0 frames changes nothing.
  pub write_avail_zero :
      {f : Fifo A} (source : List A) → IsValid f → write_avail f source 0 ≡ some (0, f)
  unfolding write_avail
  write_avail_zero {f} source v = rw (
    g.low_size f.rear,
    smaller_lem 0 f.frame_count (position f.frame_count_p2 f.rear) (omega (arith, v.spans.rear_in))
        v.sized.signed,
    min-zero (f.frame_count - position f.frame_count_p2 f.rear),
  )
    where
      g : Generations f.frame_count_p2
      g = IsSized-generations v.sized

  pub write_avail_runs :
      {f : Fifo A} (source : List A) (n : ℕ) {out : List A}
      → IsValid f
      → n ≢ 0
      → n ≤ f.frame_count
      → store f source (position f.frame_count_p2 f.rear) (before_end f n) (n - before_end f n)
        ≡ some out
      → write_avail f source n ≡ some (n, with_frames f out n)
  unfolding write_avail
  write_avail_runs {f} source n v ne le stored = rw (
    g.low_size f.rear,
    smaller_lem n f.frame_count (position f.frame_count_p2 f.rear) (omega (arith, v.spans.rear_in))
        v.sized.signed,
    nonzero,
    sub64_lem n (before_end f n) (omega arith) (omega (arith, v.sized.signed)),
    stored,
    mod-eq_of_lt {n = n} {m = 2 ^ 32} (omega (arith, v.sized.signed)),
    sum_lem v.sized f.rear n (v.spans.rear_word, v.spans.rear_in, le),
  )
    where
      g : Generations f.frame_count_p2
      g = IsSized-generations v.sized

      nonzero : (before_end f n == 0) ≡ false
      nonzero = ground (arith, v.spans.rear_in)

  -- A write copies as many frames as there is room for.
  pub write-avail :
      {f : Fifo A} (source : List A) (count : ℕ)
      → IsValid f
      → write f source count ≡ write_avail f source (written f count)
  unfolding write
  write-avail {f} source count v = rw (diff_lem v.sized v.spans) (
      ap (write_avail f source) (
        smaller_lem count f.frame_count (distance f f.rear f.front) (distance-le v.sized v.spans)
          v.sized.signed))

  -- Frame `i` of the queue after a write, from the memory that `store` leaves.
  appended :
      (memory out source : List A) (count pf d n i : ℕ)
      → d + n ≤ count
      → pf < count
      → (let pr = wrap count (pf + d) in
          let part1 = min n (count - pr) in
          let j = wrap count (pf + i) in
          get_elem? out j ≡ (
            if ltb j (n - part1)
            then get_elem? source (part1 + j)
            else if leb pr j && ltb j (pr + part1)
            then get_elem? source (j - pr)
            else get_elem? memory j))
      → (if ltb i (d + n) then get_elem? out (wrap count (pf + i)) else none) ≡ (
          if ltb i d
          then get_elem? memory (wrap count (pf + i))
          else if ltb (i - d) n
          then get_elem? source (i - d)
          else none)
  appended memory out source count pf d n i room inside at = ground arith

  same_distance :
      (f : Fifo A) (out : List A) (n rear front : ℕ)
      → distance (with_frames f out n) rear front ≡ distance f rear front
  unfolding distance
  same_distance f out n rear front = refl

  -- The frames of `source` in memory, as `write_avail` puts them there.
  pub append_frames :
      {f : Fifo A} (source : List A) (n : ℕ) {out : List A}
      → IsValid f
      → n + distance f f.rear f.front ≤ f.frame_count
      → n ≤ length source
      → Stored f source (position f.frame_count_p2 f.rear) (before_end f n) (n - before_end f n) out
      → IsValid (with_frames f out n)
        × (contents (with_frames f out n) ≡ contents f ++ take n source)
  unfolding contents
  append_frames {f} source n {out} v room enough st = (valid, list_ext _ _ same)
    where
      moved :
          Spans f (advance f f.rear n) f.front
          × (distance f (advance f f.rear n) f.front ≡ distance f f.rear f.front + n)
      moved = write-Spans n v.sized v.spans (omega arith)

      sized : IsSized (with_frames f out n)
      sized = record {
        exponent = v.sized.exponent;
        power = v.sized.power;
        small = v.sized.small;
        some_frames = v.sized.some_frames;
        fits = v.sized.fits;
        signed = v.sized.signed;
        fudged = v.sized.fudged;
        memory = omega (arith, st.length_kept, v.sized.memory);
      }

      spans : Spans (with_frames f out n) (advance f f.rear n) f.front
      spans = record {
        rear_word = moved.0.rear_word;
        front_word = moved.0.front_word;
        rear_in = moved.0.rear_in;
        front_in = moved.0.front_in;
        order = moved.0.order;
      }

      valid : IsValid (with_frames f out n)
      valid = record { sized = sized; spans = spans }

      before :
          (i : ℕ)
          → get_elem? (contents f ++ take n source) i ≡ (
              if ltb i (distance f f.rear f.front)
              then get_elem? f.buffer (wrap f.frame_count (position f.frame_count_p2 f.front + i))
              else if ltb (i - distance f f.rear f.front) n
              then get_elem? source (i - distance f f.rear f.front)
              else none)
      before i = ground (
        arith,
        get_elem?-append (contents f) (take n source) i,
        length-between v.sized v.spans,
        get_elem?-between i v.sized v.spans,
        get_elem?-take n source (i - length (contents f)),
      )

      same :
          (i : ℕ)
          → get_elem? (contents (with_frames f out n)) i ≡ get_elem? (contents f ++ take n source) i
      same i =
          get_elem?-between i sized spans
          ∙ rw (same_distance f out n (advance f f.rear n) f.front, moved.1)
              (appended f.buffer out source f.frame_count (position f.frame_count_p2 f.front)
                (distance f f.rear f.front) n i (omega arith) v.spans.front_in
                (rw (← position-rear v.sized v.spans) (st.frame_at _)))
          ∙ sym (before i)
