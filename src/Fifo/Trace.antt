-- ===== src/Fifo/Trace.antt =====
-- Sequences of calls of audioutils/fifo.cpp.
use audio_sync.Base.{ℕ, ◌≤◌, ◌≡◌, refl, some, List, [], ◌∷◌, length}
use audio_sync.Fifo.{Fifo}
use audio_sync.Fifo.Queue.{Call, put, get, ask, Reply, step, replies, call, run}
use audio_sync.Fifo.Inv.{IsValid}
use audio_sync.Fifo.Refine.{contents}
use audio_sync.Fifo.Append.{write_lem}
use audio_sync.Fifo.Take.{read_lem, available_lem}

module _ {A : Type 0} where
  -- Each write's buffer holds the frames that it offers.
  abbrev pub Offered : List (Call A) → Type 0
  Offered [] = Unit
  Offered (put source count ∷ calls) = (count ≤ length source) × Offered calls
  Offered (get count ∷ calls) = Offered calls
  Offered (ask ∷ calls) = Offered calls

  -- One call: it succeeds, replies as specified, and leaves the specified contents.
  record Served (f : Fifo A) (c : Call A) : Type 0 where
    reply : Reply A
    next : Fifo A
    runs : call f c ≡ some (reply, next)
    agrees : (reply, contents next) ≡ step f.frame_count (contents f) c
    valid : IsValid next
    kept : next.frame_count ≡ f.frame_count

  serve_put :
      {f : Fifo A} (source : List A) (count : ℕ)
      → IsValid f
      → count ≤ length source
      → Served f (put source count)
  unfolding call step
  serve_put {f} source count v enough =
      let (n, g, e, w) = write_lem source count v enough in
      record {
        reply = (n, []);
        next = g;
        runs = rw e;
        agrees = rw (w.appended, w.amount);
        valid = w.valid;
        kept = w.kept;
      }

  serve_get : {f : Fifo A} (count : ℕ) → IsValid f → Served f (get count)
  unfolding call step
  serve_get {f} count v =
      let (n, frames, g, e, t) = read_lem count v in
      record {
        reply = (n, frames);
        next = g;
        runs = rw e;
        agrees = rw (t.oldest, t.rest, t.amount);
        valid = t.valid;
        kept = t.kept;
      }

  serve_ask : {f : Fifo A} → IsValid f → Served f ask
  unfolding call step
  serve_ask {f} v = record {
    reply = (length (contents f), []);
    next = f;
    runs = rw (available_lem v);
    agrees = refl;
    valid = v;
    kept = refl;
  }

  run_cons :
      {f : Fifo A} (c : Call A) (calls : List (Call A)) (s : Served f c)
      → run s.next calls ≡ some (replies s.next.frame_count (contents s.next) calls)
      → run f (c ∷ calls) ≡ some (replies f.frame_count (contents f) (c ∷ calls))
  unfolding run replies
  run_cons {f} c calls s rest = rw (s.runs, rest, ← s.agrees, s.kept)

  -- On a valid queue, if each write offers no more frames than its buffer holds, no call fails, and
  -- the replies are those of the first-in first-out queue of at most `frame_count` frames.
  pub run_refines :
      (calls : List (Call A)) {f : Fifo A}
      → IsValid f
      → Offered calls
      → run f calls ≡ some (replies f.frame_count (contents f) calls)
  unfolding run replies
  run_refines [] v h = refl
  run_refines (put source count ∷ calls) v h =
      let s = serve_put source count v h.0 in
      run_cons (put source count) calls s (run_refines calls s.valid h.1)
  run_refines (get count ∷ calls) v h =
      let s = serve_get count v in run_cons (get count) calls s (run_refines calls s.valid h)
  run_refines (ask ∷ calls) v h =
      let s = serve_ask v in run_cons ask calls s (run_refines calls s.valid h)
