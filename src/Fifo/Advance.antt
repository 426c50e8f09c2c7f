-- ===== src/Fifo/Advance.antt =====
-- `audio_utils_fifo_sum` moves an index over frames, and how far apart the indices then are.
use audio_sync.Base.{ℕ, ◌+◌, ◌-◌, ◌%◌, ◌^◌, ◌≤◌, ◌<◌, ◌≡◌, some, arith, dec_lt, leb, if◌then◌else◌}
use audio_sync.Base.Word.{add32}
use audio_sync.Fifo.{Fifo, sum}
use audio_sync.Fifo.Index.{position, base, Generations}
use audio_sync.Fifo.Inv.{IsSized, Spans, IsSized-generations, Ordered, gap, distance, distance-le}

-- A position `n` frames on, and the base that goes with it, for `count` frames.
abbrev moved : (count n pos : ℕ) → ℕ
moved count n pos = if leb count (pos + n) then pos + n - count else pos + n

abbrev lifted : (count p n b pos : ℕ) → ℕ
lifted count p n b pos = if leb count (pos + n) then (b + p) % 2 ^ 32 else b

-- How the order and the gap change when one index moves over `n` frames.
module _ (count p br pr bf pf n : ℕ) (fits : count ≤ p) (bounded : p ≤ 2 ^ 31) (positive : 0 < p)
    (rear_room : br + p ≤ 2 ^ 32) (front_room : bf + p ≤ 2 ^ 32) (rear_in : pr < count)
    (front_in : pf < count) (order : Ordered p br pr bf pf) where
  write_numbers :
      gap count br pr bf pf + n ≤ count
      → Ordered p (lifted count p n br pr) (moved count n pr) bf pf
        × (gap count (lifted count p n br pr) (moved count n pr) bf pf ≡ gap count br pr bf pf + n)
  write_numbers h = ground arith

  read_numbers :
      n ≤ gap count br pr bf pf
      → Ordered p br pr (lifted count p n bf pf) (moved count n pf)
        × (gap count br pr (lifted count p n bf pf) (moved count n pf) + n ≡ gap count br pr bf pf)
  read_numbers h = ground arith

module _ {A : Type 0} where
  unfoldable pub advance : Fifo A → ℕ → ℕ → ℕ
  advance f i n =
      let pos = position f.frame_count_p2 i + n in
      let start = base f.frame_count_p2 i in
      if leb f.frame_count pos
      then (start + f.frame_count_p2 + (pos - f.frame_count)) % 2 ^ 32
      else (start + pos) % 2 ^ 32

  module _ {f : Fifo A} (s : IsSized f) (i n : ℕ) where
    abbrev Placed : Type 0
    Placed = (i < 2 ^ 32) × (position f.frame_count_p2 i < f.frame_count) × (n ≤ f.frame_count)

    g : Generations f.frame_count_p2
    g = IsSized-generations s

    pub position-advance :
        Placed
        → (position f.frame_count_p2 (advance f i n)
            ≡ moved f.frame_count n (position f.frame_count_p2 i))
          × (position f.frame_count_p2 (advance f i n) < f.frame_count)
          × (advance f i n < 2 ^ 32)
    unfolding advance
    position-advance h = elim (dec_lt (position f.frame_count_p2 i + n) f.frame_count) [
      | yes lt ↦ ground (arith, g.stays i (position f.frame_count_p2 i + n) h.0)
      | no ge ↦ ground (arith, g.turns i (position f.frame_count_p2 i + n - f.frame_count) h.0)
    ]

    pub base-advance :
        Placed
        → base f.frame_count_p2 (advance f i n)
          ≡ lifted f.frame_count f.frame_count_p2 n
              (base f.frame_count_p2 i)
              (position f.frame_count_p2 i)
    unfolding advance
    base-advance h = elim (dec_lt (position f.frame_count_p2 i + n) f.frame_count) [
      | yes lt ↦ ground (arith, g.stays i (position f.frame_count_p2 i + n) h.0)
      | no ge ↦ ground (arith, g.turns i (position f.frame_count_p2 i + n - f.frame_count) h.0)
    ]

    -- The increment with the correction that `sum` makes.
    abbrev step : ℕ
    step =
        if leb f.frame_count (add32 (position f.frame_count_p2 i) n)
        then add32 n f.fudge_factor
        else n

    add-step : Placed → add32 i step ≡ advance f i n
    unfolding advance
    add-step h = ground (arith, g.bounded, g.room i h.0, s.fudged)

    pub sum_lem : Placed → sum f i n ≡ some (advance f i n)
    unfolding sum
    sum_lem h = ground (
      arith,
      g.low i,
      g.low (add32 i step),
      add-step h,
      position-advance h,
      s.fudged,
      s.fits,
      g.room i h.0,
      g.bounded,
    )

  -- The writer takes `n` free frames.
  pub write-Spans :
      {f : Fifo A} {rear front : ℕ} (n : ℕ)
      → IsSized f
      → Spans f rear front
      → distance f rear front + n ≤ f.frame_count
      → Spans f (advance f rear n) front
        × (distance f (advance f rear n) front ≡ distance f rear front + n)
  unfolding distance
  write-Spans {f} {rear} {front} n s v h =
      let g = IsSized-generations s in
      let placed : Placed s rear n = (v.rear_word, v.rear_in, omega arith) in
      let (pos, inside, word) = position-advance s rear n placed in
      let b = base-advance s rear n placed in
      let (order, more) =
        write_numbers f.frame_count f.frame_count_p2 _ _ _ _ n s.fits g.bounded g.positive
          (g.room rear v.rear_word) (g.room front v.front_word) v.rear_in v.front_in v.order h in
      (
        record {
          rear_word = word;
          front_word = v.front_word;
          rear_in = inside;
          front_in = v.front_in;
          order = rw (b, pos) order;
        },
        rw (b, pos) more,
      )

  -- The reader gives back `n` frames.
  pub read-Spans :
      {f : Fifo A} {rear front : ℕ} (n : ℕ)
      → IsSized f
      → Spans f rear front
      → n ≤ distance f rear front
      → Spans f rear (advance f front n)
        × (distance f rear (advance f front n) + n ≡ distance f rear front)
  unfolding distance
  read-Spans {f} {rear} {front} n s v h =
      let g = IsSized-generations s in
      let placed : Placed s front n = (v.front_word, v.front_in, omega (arith, distance-le s v)) in
      let (pos, inside, word) = position-advance s front n placed in
      let b = base-advance s front n placed in
      let (order, fewer) =
        read_numbers f.frame_count f.frame_count_p2 _ _ _ _ n s.fits g.bounded g.positive
          (g.room rear v.rear_word) (g.room front v.front_word) v.rear_in v.front_in v.order h in
      (
        record {
          rear_word = v.rear_word;
          front_word = word;
          rear_in = v.rear_in;
          front_in = inside;
          order = rw (b, pos) order;
        },
        rw (b, pos) fewer,
      )
