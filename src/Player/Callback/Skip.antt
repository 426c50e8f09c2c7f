-- ===== src/Player/Callback/Skip.antt =====
-- The loop of `_bqPlayerCallback` (app/src/main/jni/audioplayer.cpp) that skips frames when the
-- playback starts late.
use audio_sync.Base.{
  ℕ, zero, suc, ◌+◌, ◌-◌, ◌*◌, ◌≤◌, ◌<◌, ◌≡◌, ◌⊎◌, refl, ap, ◌∙◌, false, true, some, arith, ltb,
  leb, ◌==◌, length, min, length-drop, inl, inr, Bool-cases, ==_iff, leb→le,
}
use native.Mathlib.Nat.{div-mul-le_self}
use audio_sync.Fifo.Inv.{IsValid}
use audio_sync.Fifo.Refine.{contents}
use audio_sync.Player.Callback.{
  max_buffer_size, Stream, frame_size, max_frames, Playback, count, skip_request, skip_frames,
}
use audio_sync.Player.Callback.Advance.{
  IsBuffered, HasRoom, below_max, request_fits, Advance, advance_trans, read_frames_lem, counted,
  uncounted, with_frames,
}

-- The request is no more than what is left, fits, and is 0 only if nothing is left.
smaller : (m d c : ℕ) → m * c ≤ 8192 → 8192 < d * c → m < d
smaller m d c h k = grind arith

more_than : (x : ℕ) → ltb 8192 x ≡ true → 8192 < x
more_than x e = ground arith

positive_or_zero : (d : ℕ) → (0 < d) ⊎ (d ≡ 0)
positive_or_zero zero = inr refl
positive_or_zero (suc d) = inl (omega arith)

asked :
    {st : Stream} (d : ℕ)
    → IsBuffered st
    → (skip_request st d ≤ d)
      × (skip_request st d ≤ max_frames st)
      × ((0 < skip_request st d) ⊎ (d ≡ 0))
asked {st} d b = elim (Bool-cases (ltb max_buffer_size (d * frame_size st))) [
  | inl more ↦
      let below : max_frames st < d =
        smaller (max_frames st) d (frame_size st)
          (omega (arith, div-mul-le_self 8192 (frame_size st)))
          (more_than (d * frame_size st) more) in
      rw more (omega (arith, below), omega arith, inl (omega (arith, below_max b)))
  | inr fits ↦ rw fits (omega arith, request_fits d b fits, positive_or_zero d)
]

nothing_left :
    (request d n l q : ℕ) → (0 < request) ⊎ (d ≡ 0) → n ≡ min request l → n ≡ 0 → q ≡ q + min d l
nothing_left request d n l q (inl some_asked) e z = omega arith
nothing_left request d n l q (inr none_left) e z = omega arith

fewer : (d n fuel : ℕ) → (n == 0) ≡ false → leb d n ≡ false → d < suc fuel → d - n < fuel
fewer d n fuel some_read left h = ground arith

module _ {A : Type 0} (st : Stream) (base : ℕ) (b : IsBuffered st) (room : HasRoom st base) where
  -- What the loop leaves.
  pub record Skipped (fuel d : ℕ) (p : Playback A) : Type 0 where
    pub next : Playback A
    pub runs : skip_frames fuel st base d p ≡ some next
    pub advance : Advance p next
    pub amount : next.queued_frames ≡ p.queued_frames + min d (length (contents p.fifo))

  pub skip_frames_lem : (fuel d : ℕ) (p : Playback A) → IsValid p.fifo → d < fuel → Skipped fuel d p
  unfolding skip_frames
  skip_frames_lem zero d p v enough = absurd (omega arith)
  skip_frames_lem (suc fuel) d p v enough =
      let (le, fits, some_asked) = asked d b in
      let r = read_frames_lem st base (skip_request st d) (max_frames st) p v fits room in
      elim (Bool-cases (r.n == 0)) [
        | inl nothing ↦ record {
          next = with_frames base r.frames r.next p;
          runs = simp (r.runs, nothing) refl;
          advance = uncounted r ((==_iff r.n 0).0 nothing);
          amount =
              nothing_left (skip_request st d) d r.n (length (contents p.fifo)) p.queued_frames
                some_asked r.took.amount ((==_iff r.n 0).0 nothing);
        }
        | inr more ↦ elim (Bool-cases (leb d r.n)) [
          | inl done ↦ record {
            next = count r.n (with_frames base r.frames r.next p);
            runs = simp (r.runs, more, done) refl;
            advance = counted r;
            amount = omega (arith, leb→le d r.n done, r.took.amount, le);
          }
          | inr left ↦
              let next = count r.n (with_frames base r.frames r.next p) in
              let s =
                skip_frames_lem fuel (d - r.n) next r.took.valid
                  (fewer d r.n fuel more left enough) in
              record {
                next = s.next;
                runs = simp (r.runs, more, left) s.runs;
                advance = advance_trans (counted r) s.advance;
                amount =
                    s.amount
                    ∙ omega (
                      arith,
                      ap length r.took.rest,
                      length-drop r.n (contents p.fifo),
                      r.took.amount,
                      le,
                    );
              }
        ]
      ]
