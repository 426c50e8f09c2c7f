-- ===== src/Fifo/Tests.antt =====
-- Runs of the queue of audioutils/fifo.cpp at small sizes.
use audio_sync.Base.{
  ℕ, ◌≤◌, ◌<◌, ◌^◌, ◌*◌, ◌≡◌, refl, List, [], ◌∷◌, Option, some, ◌>>=◌, map, arith, length,
}
use mathlib.Core.Option
use audio_sync.Fifo.{
  Fifo, clz, roundup, init, write, write_avail, store, read, read_avail, fetch, available, diff,
  checked, sum,
}
use audio_sync.Fifo.Roundup.{roundup_bounds}
use audio_sync.Fifo.Inv.{IsValid}
use audio_sync.Fifo.Refine.{contents}
use audio_sync.Fifo.Append.{Wrote, write_lem}
use audio_sync.Fifo.Take.{Took, read_lem, available_lem, init_lem}
use audio_sync.Fifo.Queue.{Call, put, get, ask, replies, run}
use audio_sync.Fifo.Trace.{run_refines}

rounds :
    map roundup (0 ∷ 1 ∷ 2 ∷ 3 ∷ 4 ∷ 5 ∷ 13230000 ∷ 2147483649 ∷ [])
    ≡ 1 ∷ 1 ∷ 2 ∷ 4 ∷ 4 ∷ 8 ∷ 16777216 ∷ 2147483648 ∷ []
unfolding roundup clz
rounds = refl

abbrev script : Option (ℕ × List ℕ × Fifo ℕ)
script = do
  f ← init 3 4 (some (0 ∷ 0 ∷ 0 ∷ []))
  (a, f1) ← write f (1 ∷ 2 ∷ 3 ∷ 4 ∷ []) 4
  (b, xs, f2) ← read f1 2
  (c, f3) ← write f2 (5 ∷ 6 ∷ 7 ∷ []) 3
  read f3 9

-- Three frames fit; two are read, two more go round the end, and three come out in order.
goes_round : Option.map {B = ℕ × List ℕ} (λ r. (r.0, r.1)) script ≡ some (3, 3 ∷ 5 ∷ 6 ∷ [])
unfolding init roundup clz write write_avail store read read_avail fetch diff checked sum
goes_round = refl

-- Three places in a ring of four; the last frame lies before the first one in memory, and the
-- write index has gone round the 32-bit range.
abbrev wrapped : Fifo ℕ
wrapped = record {
  frame_count = 3;
  frame_count_p2 = 4;
  fudge_factor = 1;
  frame_size = 4;
  buffer = 9 ∷ 7 ∷ 8 ∷ [];
  front = 4294967294;
  rear = 1;
}

abbrev wrapped-IsValid : IsValid wrapped
wrapped-IsValid = record {
  sized = record {
    exponent = 2;
    power = refl;
    small = omega arith;
    some_frames = omega arith;
    fits = omega arith;
    signed = omega arith;
    fudged = refl;
    memory = refl;
  };
  spans = record {
    rear_word = omega arith;
    front_word = omega arith;
    rear_in = omega arith;
    front_in = omega arith;
    order = omega arith;
  };
}

roundup_bounds_example :
    (k : ℕ) × (k ≤ 31) × (roundup 5 ≡ 2 ^ k) × (5 ≤ roundup 5) × (roundup 5 < 2 * 5)
roundup_bounds_example = roundup_bounds 5 (omega arith) (omega arith)

init_lem_example :
    (f : Fifo ℕ) × (init 3 4 (some (0 ∷ 0 ∷ 0 ∷ [])) ≡ some f)
    × IsValid f
    × (f.frame_count ≡ 3)
    × (contents f ≡ [])
init_lem_example = init_lem 3 4 (0 ∷ 0 ∷ 0 ∷ []) (omega arith) (omega arith) (omega arith) refl

write_lem_example :
    (n : ℕ) × (g : Fifo ℕ) × (write wrapped (5 ∷ 6 ∷ []) 2 ≡ some (n, g))
    × Wrote wrapped (5 ∷ 6 ∷ []) 2 n g
write_lem_example = write_lem (5 ∷ 6 ∷ []) 2 wrapped-IsValid (omega arith)

read_lem_example :
    (n : ℕ) × (frames : List ℕ) × (g : Fifo ℕ) × (read wrapped 2 ≡ some (n, frames, g))
    × Took wrapped 2 n frames g
read_lem_example = read_lem 2 wrapped-IsValid

available_lem_example : available wrapped ≡ some (length (contents wrapped))
available_lem_example = available_lem wrapped-IsValid

abbrev calls : List (Call ℕ)
calls = put (1 ∷ 2 ∷ []) 2 ∷ get 1 ∷ ask ∷ get 5 ∷ []

run_refines_example : run wrapped calls ≡ some (replies 3 (contents wrapped) calls)
run_refines_example = run_refines calls wrapped-IsValid (omega arith)
