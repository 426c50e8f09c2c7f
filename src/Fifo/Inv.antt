-- ===== src/Fifo/Inv.antt =====
-- When a queue of audioutils/fifo.cpp is well formed, and what its index arithmetic then gives.
use audio_sync.Base.{
  ℕ, ◌+◌, ◌-◌, ◌%◌, ◌^◌, ◌≤◌, ◌<◌, ◌≡◌, ◌≢◌, ◌⊎◌, some, arith, ℕ_discrete, leb, ◌==◌, if◌then◌else◌,
  length,
}
use audio_sync.Base.Word.{sub32}
use audio_sync.Fifo.{Fifo, checked, diff}
use audio_sync.Fifo.Index.{position, base, Generations, generations}

-- The write index, of base `br` and position `pr`, is in the generation of the read index and not
-- before it, or in the next one and not past it.
abbrev pub Ordered : (p br pr bf pf : ℕ) → Type 0
Ordered p br pr bf pf = (br ≡ bf) × (pf ≤ pr) ⊎ (br ≡ (bf + p) % 2 ^ 32) × (pr ≤ pf)

abbrev pub gap : (n br pr bf pf : ℕ) → ℕ
gap n br pr bf pf = if br == bf then pr - pf else n + pr - pf

module _ {A : Type 0} where
  -- What `audio_utils_fifo_init` fixes: fewer than 2 ^ 31 frames, and memory for all of them.
  pub record IsSized (f : Fifo A) : Type 0 where
    pub exponent : ℕ
    pub power : f.frame_count_p2 ≡ 2 ^ exponent
    pub small : exponent ≤ 31
    pub some_frames : 0 < f.frame_count
    pub fits : f.frame_count ≤ f.frame_count_p2
    pub signed : f.frame_count < 2 ^ 31
    pub fudged : f.fudge_factor ≡ f.frame_count_p2 - f.frame_count
    pub memory : length f.buffer ≡ f.frame_count

  abbrev pub InOrder : Fifo A → ℕ → ℕ → Type 0
  InOrder f rear front =
      let p = f.frame_count_p2 in
      Ordered p (base p rear) (position p rear) (base p front) (position p front)

  pub record Spans (f : Fifo A) (rear front : ℕ) : Type 0 where
    pub rear_word : rear < 2 ^ 32
    pub front_word : front < 2 ^ 32
    pub rear_in : position f.frame_count_p2 rear < f.frame_count
    pub front_in : position f.frame_count_p2 front < f.frame_count
    pub order : InOrder f rear front

  pub record IsValid (f : Fifo A) : Type 0 where
    pub sized : IsSized f
    pub spans : Spans f f.rear f.front

  pub IsSized-generations : {f : Fifo A} → IsSized f → Generations f.frame_count_p2
  IsSized-generations {f} s = generations f.frame_count_p2 s.exponent s.power s.small

  -- The frames between two indices, as numbers without wrap-around.
  unfoldable pub distance : Fifo A → ℕ → ℕ → ℕ
  distance f rear front =
      let p = f.frame_count_p2 in
      gap f.frame_count (base p rear) (position p rear) (base p front) (position p front)

  pub distance-le :
      {f : Fifo A} {rear front : ℕ}
      → IsSized f
      → Spans f rear front
      → distance f rear front ≤ f.frame_count
  unfolding distance
  distance-le {f} s v = ground arith

  checked_lem :
      (f : Fifo A) (d : ℕ) → f.frame_count < 2 ^ 31 → d ≤ f.frame_count → checked f d ≡ some d
  unfolding checked
  checked_lem f d signed le = ground arith

  -- The difference of the indices, before and after the correction by the fudge factor.
  same_generation :
      {f : Fifo A} {rear front : ℕ}
      → IsSized f
      → Spans f rear front
      → base f.frame_count_p2 rear ≡ base f.frame_count_p2 front
      → sub32 rear front ≡ distance f rear front
  unfolding distance
  same_generation {f} {rear} {front} s v e = ground (
    arith,
    (IsSized-generations s).positive,
    (IsSized-generations s).room front v.front_word,
    (IsSized-generations s).bounded,
  )

  next_generation :
      {f : Fifo A} {rear front : ℕ}
      → IsSized f
      → Spans f rear front
      → base f.frame_count_p2 rear ≢ base f.frame_count_p2 front
      → (sub32 rear front ≡ distance f rear front + f.fudge_factor)
        × (sub32 (base f.frame_count_p2 rear) (base f.frame_count_p2 front) ≡ f.frame_count_p2)
  unfolding distance
  next_generation {f} {rear} {front} s v ne =
      ground
        (arith, (IsSized-generations s).room front v.front_word, (IsSized-generations s).bounded)

  pub diff_lem :
      {f : Fifo A} {rear front : ℕ}
      → IsSized f
      → Spans f rear front
      → diff f rear front ≡ some (distance f rear front)
  unfolding diff
  diff_lem {f} {rear} {front} s v =
      elim (ℕ_discrete (base f.frame_count_p2 rear) (base f.frame_count_p2 front)) [
        | yes e ↦ ground (
          arith,
          g.high rear v.rear_word,
          g.high front v.front_word,
          same_generation s v e,
          distance-le s v,
          checked_lem f (distance f rear front) s.signed,
        )
        | no ne ↦ ground (
          arith,
          g.high rear v.rear_word,
          g.high front v.front_word,
          g.positive,
          g.bounded,
          next_generation s v ne,
          distance-le s v,
          checked_lem f (distance f rear front) s.signed,
        )
      ]
    where
      g : Generations f.frame_count_p2
      g = IsSized-generations s

  -- The write index stands `distance` places behind the read index.
  pub position-rear :
      {f : Fifo A} {rear front : ℕ}
      → IsSized f
      → Spans f rear front
      → position f.frame_count_p2 rear ≡ (
          if leb f.frame_count (position f.frame_count_p2 front + distance f rear front)
          then position f.frame_count_p2 front + distance f rear front - f.frame_count
          else position f.frame_count_p2 front + distance f rear front)
  unfolding distance
  position-rear {f} {rear} {front} s v = ground (
    arith,
    (IsSized-generations s).room front v.front_word,
    (IsSized-generations s).positive,
    (IsSized-generations s).bounded,
  )
