-- ===== src/Fifo/Queue.antt =====
-- The contract of audioutils/fifo.h: a first-in first-out queue of at most `count` frames.
use audio_sync.Base.{ℕ, ◌-◌, Option, some, List, [], ◌∷◌, ◌++◌, ◌>>=◌, length, take, drop, min}
use audio_sync.Fifo.{Fifo, write, read, available}

-- The caller's buffer of `write` holds at least the frames that it offers.
pub data Call (A : Type 0) : Type 0 where
  put : (source : List A) → ℕ → Call A
  get : ℕ → Call A
  ask : Call A

-- What a call returns: a number of frames, and the frames that a read hands over.
abbrev pub Reply : Type 0 → Type 0
Reply A = ℕ × List A

module _ {A : Type 0} where
  abbrev pub accepted : ℕ → List A → ℕ → ℕ
  accepted capacity q count = min count (capacity - length q)

  -- The specification.
  unfoldable pub step : ℕ → List A → Call A → Reply A × List A
  step capacity q (put source count) =
      let n = accepted capacity q count in ((n, []), q ++ take n source)
  step capacity q (get count) = let n = min count (length q) in ((n, take n q), drop n q)
  step capacity q ask = ((length q, []), q)

  unfoldable pub replies : ℕ → List A → List (Call A) → List (Reply A)
  replies capacity q [] = []
  replies capacity q (c ∷ calls) = let (r, q') = step capacity q c in r ∷ replies capacity q' calls

  -- The calls of the code.
  unfoldable pub call : Fifo A → Call A → Option (Reply A × Fifo A)
  call f (put source count) = do (n, g) ← write f source count; some ((n, []), g)
  call f (get count) = do (n, frames, g) ← read f count; some ((n, frames), g)
  call f ask = do n ← available f; some ((n, []), f)

  unfoldable pub run : Fifo A → List (Call A) → Option (List (Reply A))
  run f [] = some []
  run f (c ∷ calls) = do (r, g) ← call f c; rest ← run g calls; some (r ∷ rest)
