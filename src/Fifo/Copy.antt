-- ===== src/Fifo/Copy.antt =====
-- The `memcpy` calls of audioutils/fifo.cpp, element by element.
use audio_sync.Base.{
  ℕ, ◌+◌, ◌-◌, ◌≤◌, ◌≡◌, ◌&&◌, none, some, List, ◌++◌, arith, ltb, leb, if◌then◌else◌, length,
  get_elem?, take, drop, length-append, length-take, length-drop, get_elem?-append, get_elem?-take,
  get_elem?-drop, ℕ_discrete,
}
use audio_sync.Fifo.{Fifo, slice, overwrite, store, fetch}

module _ {A : Type 0} where
  abbrev pub spliced : List A → ℕ → List A → List A
  spliced frames at xs = take at frames ++ xs ++ drop (at + length xs) frames

  overwrite_lem :
      (frames : List A) (at : ℕ) (xs : List A)
      → at + length xs ≤ length frames
      → overwrite frames at xs ≡ some (spliced frames at xs)
  unfolding overwrite
  overwrite_lem frames at xs h = ground arith

  slice_lem :
      (frames : List A) (at n : ℕ)
      → at + n ≤ length frames
      → slice frames at n ≡ some (take n (drop at frames))
  unfolding slice
  slice_lem frames at n h = ground arith

  length-spliced :
      (frames : List A) (at : ℕ) (xs : List A)
      → at + length xs ≤ length frames
      → length (spliced frames at xs) ≡ length frames
  length-spliced frames at xs h = omega (
    arith,
    length-append (take at frames ++ xs) (drop (at + length xs) frames),
    length-append (take at frames) xs,
    length-take at frames,
    length-drop (at + length xs) frames,
  )

  get_elem?-spliced :
      (frames : List A) (at : ℕ) (xs : List A) (j : ℕ)
      → at + length xs ≤ length frames
      → get_elem? (spliced frames at xs) j
        ≡ (if leb at j && ltb j (at + length xs) then get_elem? xs (j - at) else get_elem? frames j)
  get_elem?-spliced frames at xs j h = ground (
    arith,
    get_elem?-append (take at frames ++ xs) (drop (at + length xs) frames) j,
    get_elem?-append (take at frames) xs j,
    length-append (take at frames) xs,
    length-take at frames,
    get_elem?-take at frames j,
    get_elem?-drop (at + length xs) frames (j - (at + length xs)),
  )

  length-slice :
      (frames : List A) (at n : ℕ) → at + n ≤ length frames → length (take n (drop at frames)) ≡ n
  length-slice frames at n h = omega (arith, length-take n (drop at frames), length-drop at frames)

  get_elem?-slice :
      (frames : List A) (at n j : ℕ)
      → get_elem? (take n (drop at frames)) j
        ≡ (if ltb j n then get_elem? frames (at + j) else none)
  get_elem?-slice frames at n j =
      ground (arith, get_elem?-take n (drop at frames) j, get_elem?-drop at frames j)

  -- What `store` leaves in memory: the second part at the start, the first part from `pos` on, and
  -- the old frames elsewhere.
  pub record Stored (f : Fifo A) (source : List A) (pos part1 part2 : ℕ) (out : List A)
      : Type 0 where
    pub length_kept : length out ≡ length f.buffer
    pub frame_at :
        (j : ℕ)
        → get_elem? out j ≡ (
            if ltb j part2
            then get_elem? source (part1 + j)
            else if leb pos j && ltb j (pos + part1)
            then get_elem? source (j - pos)
            else get_elem? f.buffer j)

  pub store_lem :
      (f : Fifo A) (source : List A) (pos part1 part2 : ℕ)
      → pos + part1 ≤ length f.buffer
      → part2 ≤ length f.buffer
      → part1 + part2 ≤ length source
      → (out : List A) × (store f source pos part1 part2 ≡ some out)
        × Stored f source pos part1 part2 out
  unfolding store
  store_lem f source pos part1 part2 h1 h2 h3 = elim (ℕ_discrete part2 0) [
    | yes e ↦ (
      spliced f.buffer pos first,
      ground (
        arith,
        slice_lem source 0 part1,
        overwrite_lem f.buffer pos first,
        length-slice source 0 part1,
      ),
      record {
        length_kept = omega (arith, length-spliced f.buffer pos first, length-slice source 0 part1);
        frame_at = λ j. ground (
          arith,
          get_elem?-spliced f.buffer pos first j,
          length-slice source 0 part1,
          get_elem?-slice source 0 part1 (j - pos),
        );
      },
    )
    | no ne ↦ (
      spliced (spliced f.buffer pos first) 0 second,
      ground (
        arith,
        slice_lem source 0 part1,
        overwrite_lem f.buffer pos first,
        length-slice source 0 part1,
        slice_lem source part1 part2,
        overwrite_lem (spliced f.buffer pos first) 0 second,
        length-slice source part1 part2,
        length-spliced f.buffer pos first,
      ),
      record {
        length_kept = omega (
          arith,
          length-spliced f.buffer pos first,
          length-slice source 0 part1,
          length-spliced (spliced f.buffer pos first) 0 second,
          length-slice source part1 part2,
        );
        frame_at = λ j. ground (
          arith,
          get_elem?-spliced f.buffer pos first j,
          length-slice source 0 part1,
          get_elem?-slice source 0 part1 (j - pos),
          get_elem?-spliced (spliced f.buffer pos first) 0 second j,
          length-slice source part1 part2,
          length-spliced f.buffer pos first,
          get_elem?-slice source part1 part2 j,
        );
      },
    )
  ]
    where
      first : List A
      first = take part1 (drop 0 source)

      second : List A
      second = take part2 (drop part1 source)

  pub record Fetched (f : Fifo A) (pos part1 part2 : ℕ) (out : List A) : Type 0 where
    pub length_out : length out ≡ part1 + part2
    pub frame_at :
        (j : ℕ)
        → get_elem? out j ≡ (
            if ltb j part1
            then get_elem? f.buffer (pos + j)
            else if ltb j (part1 + part2)
            then get_elem? f.buffer (j - part1)
            else none)

  pub fetch_lem :
      (f : Fifo A) (pos part1 part2 : ℕ)
      → pos + part1 ≤ length f.buffer
      → part2 ≤ length f.buffer
      → (out : List A) × (fetch f pos part1 part2 ≡ some out) × Fetched f pos part1 part2 out
  unfolding fetch
  fetch_lem f pos part1 part2 h1 h2 = elim (ℕ_discrete part2 0) [
    | yes e ↦ (
      first,
      ground (arith, slice_lem f.buffer pos part1),
      record {
        length_out = omega (arith, length-slice f.buffer pos part1);
        frame_at = λ j. ground (arith, get_elem?-slice f.buffer pos part1 j);
      },
    )
    | no ne ↦ (
      first ++ second,
      ground (arith, slice_lem f.buffer pos part1, slice_lem f.buffer 0 part2),
      record {
        length_out = omega (
          arith,
          length-append first second,
          length-slice f.buffer pos part1,
          length-slice f.buffer 0 part2,
        );
        frame_at = λ j. ground (
          arith,
          get_elem?-append first second j,
          length-slice f.buffer pos part1,
          get_elem?-slice f.buffer pos part1 j,
          get_elem?-slice f.buffer 0 part2 (j - part1),
        );
      },
    )
  ]
    where
      first : List A
      first = take part1 (drop pos f.buffer)

      second : List A
      second = take part2 (drop 0 f.buffer)
