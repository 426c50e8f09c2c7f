-- ===== src/Fifo/Read.antt =====
-- The branches of `audio_utils_fifo_read`.
use audio_sync.Base.{
  ℕ, ◌+◌, ◌-◌, ◌≤◌, ◌≡◌, ◌≢◌, refl, ap, false, some, List, [], arith, ◌==◌, get_elem?, take, drop,
  get_elem?-take, get_elem?-drop, list_ext, min, ◌^◌,
}
use native.Mathlib.Nat.{mod-eq_of_lt}
use audio_sync.Fifo.Size.{smaller_lem, sub64_lem, min-zero}
use audio_sync.Fifo.{Fifo, fetch, read, read_avail}
use audio_sync.Fifo.Index.{position}
use audio_sync.Fifo.Inv.{
  IsSized, Spans, IsValid, IsSized-generations, distance, distance-le, diff_lem,
}
use audio_sync.Fifo.Advance.{advance, sum_lem, read-Spans, position-advance}
use audio_sync.Fifo.Copy.{Fetched}
use audio_sync.Fifo.Refine.{contents, get_elem?-between}

module _ {A : Type 0} where
  abbrev pub to_end : Fifo A → ℕ → ℕ
  to_end f n = min n (f.frame_count - position f.frame_count_p2 f.front)

  abbrev pub without_frames : Fifo A → ℕ → Fifo A
  without_frames f n = record f { front = advance f f.front n }

  pub read_avail_zero : {f : Fifo A} → IsValid f → read_avail f 0 ≡ some (0, [], f)
  unfolding read_avail
  read_avail_zero {f} v = rw (
    (IsSized-generations v.sized).low_size f.front,
    smaller_lem 0 f.frame_count (position f.frame_count_p2 f.front)
        (omega (arith, v.spans.front_in)) v.sized.signed,
    min-zero (f.frame_count - position f.frame_count_p2 f.front),
  )

  pub read_avail_runs :
      {f : Fifo A} (n : ℕ) {out : List A}
      → IsValid f
      → n ≢ 0
      → n ≤ f.frame_count
      → fetch f (position f.frame_count_p2 f.front) (to_end f n) (n - to_end f n) ≡ some out
      → read_avail f n ≡ some (n, out, without_frames f n)
  unfolding read_avail
  read_avail_runs {f} n v ne le fetched = rw (
    (IsSized-generations v.sized).low_size f.front,
    smaller_lem n f.frame_count (position f.frame_count_p2 f.front)
        (omega (arith, v.spans.front_in)) v.sized.signed,
    nonzero,
    sub64_lem n (to_end f n) (omega arith) (omega (arith, v.sized.signed)),
    fetched,
    mod-eq_of_lt {n = n} {m = 2 ^ 32} (omega (arith, v.sized.signed)),
    sum_lem v.sized f.front n (v.spans.front_word, v.spans.front_in, le),
  )
    where
      nonzero : (to_end f n == 0) ≡ false
      nonzero = ground (arith, v.spans.front_in)

  pub read-avail :
      {f : Fifo A} (count : ℕ)
      → IsValid f
      → read f count ≡ read_avail f (min count (distance f f.rear f.front))
  unfolding read
  read-avail {f} count v = rw (diff_lem v.sized v.spans) (ap (read_avail f) (ground arith))

  same_distance :
      (f : Fifo A) (n rear front : ℕ)
      → distance (without_frames f n) rear front ≡ distance f rear front
  unfolding distance
  same_distance f n rear front = refl

  -- The frames that `fetch` copies are the oldest ones.
  pub oldest_frames :
      {f : Fifo A} (n : ℕ) {out : List A}
      → IsValid f
      → n ≤ distance f f.rear f.front
      → Fetched f (position f.frame_count_p2 f.front) (to_end f n) (n - to_end f n) out
      → out ≡ take n (contents f)
  unfolding contents
  oldest_frames {f} n {out} v le fe = list_ext out (take n (contents f)) λ i. ground (
    arith,
    fe.frame_at i,
    get_elem?-take n (contents f) i,
    get_elem?-between i v.sized v.spans,
    distance-le v.sized v.spans,
  )

  pub read_valid :
      {f : Fifo A} (n : ℕ)
      → IsValid f
      → n ≤ distance f f.rear f.front
      → IsValid (without_frames f n) × (contents (without_frames f n) ≡ drop n (contents f))
  unfolding contents
  read_valid {f} n v le = (record { sized = sized; spans = spans }, list_ext _ _ same)
    where
      moved :
          Spans f f.rear (advance f f.front n)
          × (distance f f.rear (advance f f.front n) + n ≡ distance f f.rear f.front)
      moved = read-Spans n v.sized v.spans le

      sized : IsSized (without_frames f n)
      sized = record {
        exponent = v.sized.exponent;
        power = v.sized.power;
        small = v.sized.small;
        some_frames = v.sized.some_frames;
        fits = v.sized.fits;
        signed = v.sized.signed;
        fudged = v.sized.fudged;
        memory = v.sized.memory;
      }

      spans : Spans (without_frames f n) f.rear (advance f f.front n)
      spans = record {
        rear_word = moved.0.rear_word;
        front_word = moved.0.front_word;
        rear_in = moved.0.rear_in;
        front_in = moved.0.front_in;
        order = moved.0.order;
      }

      same :
          (i : ℕ) → get_elem? (contents (without_frames f n)) i ≡ get_elem? (drop n (contents f)) i
      same i = ground (
        arith,
        get_elem?-between i sized spans,
        get_elem?-drop n (contents f) i,
        get_elem?-between (n + i) v.sized v.spans,
        same_distance f n f.rear (advance f f.front n),
        moved.1,
        distance-le v.sized v.spans,
        position-advance v.sized f.front n
            (v.spans.front_word, v.spans.front_in, omega (arith, distance-le v.sized v.spans)),
      )
