-- ===== src/Player/Callback/Ready.antt =====
-- The state between two calls of `_bqPlayerCallback` (app/src/main/jni/audioplayer.cpp), and the start.
use Prim.Native.String.{String}
use audio_sync.Base.{
  ℕ, suc, ◌+◌, ◌≤◌, ◌≡◌, ◌⊎◌, refl, ap, ◌∙◌, false, not, ◌&&◌, List, arith, ◌==◌, inl, inr,
  Bool-cases, length, drop, some, length-drop,
}
use audio_sync.Base.Int.{ℤ, pos, negsuc, ◌-ℤ◌, ltb_ℤ}
use audio_sync.Fifo.Inv.{IsValid}
use audio_sync.Fifo.Refine.{contents}
use audio_sync.Player.Control.{is_zero}
use audio_sync.Player.OpenSl.{check_error}
use audio_sync.Player.Callback.{Stream, Playback, Tick, frames_of, skip_late, known_accuracy, start}
use audio_sync.Player.Callback.Advance.{IsBuffered, HasRoom, Advance, stand, drop-drop}
use audio_sync.Player.Callback.Skip.{skip_frames_lem}
use audio_sync.Player.Callback.Safe.{IsCoarse}

-- What a call can do to the frame queue.
pub record Takes {A : Type 0} (p q : Playback A) : Type 0 where
  pub taken : ℕ
  pub enough : taken ≤ length (contents p.fifo)
  pub queued : q.queued_frames ≡ p.queued_frames + taken
  pub rest : contents q.fifo ≡ drop taken (contents p.fifo)
  pub kept : q.fifo.frame_count ≡ p.fifo.frame_count

-- The state between two calls: the last mark was reached, and playback runs only if the accuracy of
-- the clock is known.
pub record IsReady {A : Type 0} (st : Stream) (p : Playback A) : Type 0 where
  pub valid : IsValid p.fifo
  pub reached : p.last_mark.frame_count ≤ p.queued_frames
  pub coarse : (p.accuracy ≡ 0) × (p.is_playing ≡ false) ⊎ IsCoarse st p.accuracy

-- The documented behaviour of what is outside: `Enqueue` succeeds or has too many buffers, and the
-- resolution of the coarse clock.
pub record IsGood (st : Stream) (t : Tick) : Type 0 where
  pub log : List (String × String)
  pub ok : check_error t.result "_bqPlayerCallback" ≡ some log
  pub coarse : IsCoarse st t.coarse_accuracy

pub none_taken :
    {A : Type 0} {p q : Playback A}
    → q.queued_frames ≡ p.queued_frames
    → contents q.fifo ≡ contents p.fifo
    → q.fifo.frame_count ≡ p.fifo.frame_count
    → Takes p q
none_taken e k c = record {
  taken = 0;
  enough = omega arith;
  queued = omega (arith, e);
  rest = k;
  kept = c;
}

pub advance-Takes : {A : Type 0} {p q : Playback A} → Advance p q → Takes p q
advance-Takes a = record {
  taken = a.taken;
  enough = a.enough;
  queued = a.queued;
  rest = a.rest;
  kept = a.kept;
}

pub Takes-trans : {A : Type 0} {p q r : Playback A} → Takes p q → Takes q r → Takes p r
Takes-trans {A} {p} {q} {r} a b = record {
  taken = a.taken + b.taken;
  enough =
      omega (arith, a.enough, b.enough, ap length a.rest, length-drop a.taken (contents p.fifo));
  queued = omega (arith, a.queued, b.queued);
  rest = b.rest ∙ ap (drop b.taken) a.rest ∙ drop-drop a.taken b.taken (contents p.fifo);
  kept = b.kept ∙ a.kept;
}

module _ {A : Type 0} (st : Stream) where
  pub IsReady-advance : {p q : Playback A} → IsReady st p → Advance p q → IsReady st q
  IsReady-advance {p} {q} r a = record {
    valid = a.valid;
    reached = omega (arith, r.reached, a.queued, ap (λ m. m.frame_count) a.last_mark);
    coarse = rw (a.accuracy, a.is_playing) r.coarse;
  }

  skip_late_lem :
      (base : ℕ) (b : IsBuffered st) (room : HasRoom st base) (drop : ℤ) (p : Playback A)
      → IsValid p.fifo
      → (q : Playback A) × (skip_late st base drop p ≡ some q) × Advance p q
  unfolding skip_late
  skip_late_lem base b room (pos n) p v =
      let s = skip_frames_lem st base b room (suc n) n p v (omega arith) in
      (s.next, s.runs, s.advance)
  skip_late_lem base b room (negsuc n) p v = (p, refl, stand v)

  -- The state at a start, before frames are skipped.
  abbrev started_at : Tick → Playback A → Playback A
  started_at t p = record p {
    accuracy = known_accuracy t p;
    is_playing = ltb_ℤ (p.sync_time -ℤ t.now) (pos (known_accuracy t p));
    started = t.now;
  }

  known_accuracy-IsCoarse :
      (t : Tick) (p : Playback A)
      → IsReady st p
      → IsCoarse st t.coarse_accuracy
      → IsCoarse st (known_accuracy t p)
  known_accuracy-IsCoarse t p r c = elim (Bool-cases (p.accuracy == 0)) [
    | inl unknown ↦ rw unknown c
    | inr known ↦ rw known (other p.accuracy known r.coarse)
  ]
    where
      other :
          (a : ℕ)
          → (a == 0) ≡ false
          → (a ≡ 0) × (p.is_playing ≡ false) ⊎ IsCoarse st a
          → IsCoarse st a
      other a e (inl none_known) = absurd (ground arith)
      other a e (inr k) = k

  -- Either nothing changes, or it starts.
  pub start_lem :
      (t : Tick) (base : ℕ) (b : IsBuffered st) (room : HasRoom st base) (p : Playback A)
      → IsReady st p
      → IsCoarse st t.coarse_accuracy
      → (q : Playback A) × (start st t base p ≡ some q) × IsReady st q × Takes p q
  unfolding start
  start_lem t base b room p r c =
      elim (Bool-cases (not p.is_playing && not (is_zero p.sync_time))) [
        | inr waits ↦ (p, simp waits refl, r, none_taken refl refl refl)
        | inl starts ↦
            let q = started_at t p in
            let rq : IsReady st q = record {
              valid = r.valid;
              reached = r.reached;
              coarse = inr (known_accuracy-IsCoarse t p r c);
            } in
            elim (Bool-cases (ltb_ℤ (p.sync_time -ℤ t.now) (pos 0 -ℤ pos (known_accuracy t p)))) [
              | inl late ↦
                  let (next, e, a) =
                    skip_late_lem base b room (frames_of st (pos 0 -ℤ (p.sync_time -ℤ t.now))) q
                      r.valid in
                  (
                    next,
                    simp (starts, late) e,
                    IsReady-advance rq a,
                    Takes-trans (none_taken refl refl refl) (advance-Takes a),
                  )
              | inr soon ↦ (q, simp (starts, soon) refl, rq, none_taken refl refl refl)
            ]
      ]
