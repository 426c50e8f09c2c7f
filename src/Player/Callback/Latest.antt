-- ===== src/Player/Callback/Latest.antt =====
-- The playback mark that `_bqPlayerCallback` (app/src/main/jni/audioplayer.cpp) goes by.
use audio_sync.Base.{
  ℕ, ◌+◌, ◌-◌, ◌*◌, ◌/◌, ◌%◌, ◌^◌, ◌≤◌, ◌<◌, ◌≡◌, refl, ap, false, true, List, [], ◌∷◌, ◌++◌, arith,
  leb, leb→le, inl, inr, Bool-cases,
}
use audio_sync.Base.Int.{pos, ◌+ℤ◌, ◌-ℤ◌}
use audio_sync.AppPacket.{second_micro}
use audio_sync.Player.Enqueue.{Mark}
use audio_sync.Player.Callback.{Stream, Playback, Tick, dequeue_marks, update_mark, lateness}

abbrev pub last_of : Mark → List Mark → Mark
last_of m [] = m
last_of m (x ∷ marks) = last_of x marks

abbrev pub AllReached : ℕ → List Mark → Type 0
AllReached queued [] = Unit
AllReached queued (m ∷ marks) = (m.frame_count ≤ queued) × AllReached queued marks

abbrev pub FirstAhead : ℕ → List Mark → Type 0
FirstAhead queued [] = Unit
FirstAhead queued (m ∷ marks) = queued < m.frame_count

-- The queue is cut in two behind the last mark that is reached.
record Cut (queued : ℕ) (last : Mark) (marks : List Mark) : Type 0 where
  passed : List Mark
  whole : marks ≡ passed ++ (dequeue_marks queued last marks).1
  latest : (dequeue_marks queued last marks).0 ≡ last_of last passed
  all_reached : AllReached queued passed
  ahead : FirstAhead queued (dequeue_marks queued last marks).1

not_reached : (a b : ℕ) → leb a b ≡ false → b < a
not_reached a b h = ground arith

dequeue_marks_lem : (queued : ℕ) (last : Mark) (marks : List Mark) → Cut queued last marks
unfolding dequeue_marks
dequeue_marks_lem queued last [] = record {
  passed = [];
  whole = refl;
  latest = refl;
  all_reached = tt;
  ahead = tt;
}
dequeue_marks_lem queued last (m ∷ marks) = elim (Bool-cases (leb m.frame_count queued)) [
  | inl there ↦
      let rest = dequeue_marks_lem queued m marks in
      record {
        passed = m ∷ rest.passed;
        whole = rw there (ap (λ xs. m ∷ xs) rest.whole);
        latest = rw there rest.latest;
        all_reached = (leb→le m.frame_count queued there, rest.all_reached);
        ahead = rw there rest.ahead;
      }
  | inr behind ↦ record {
    passed = [];
    whole = rw behind refl;
    latest = rw behind refl;
    all_reached = tt;
    ahead = rw behind (not_reached m.frame_count queued behind);
  }
]

last_reached :
    (queued : ℕ) (last : Mark) (marks : List Mark)
    → last.frame_count ≤ queued
    → AllReached queued marks
    → (last_of last marks).frame_count ≤ queued
last_reached queued last [] h all = h
last_reached queued last (m ∷ marks) h all = last_reached queued m marks all.0 all.1

exact :
    (queued count rate : ℕ)
    → count ≤ queued
    → second_micro * queued < 2 ^ 64
    → second_micro * ((queued + 2 ^ 64 - count) % 2 ^ 64) % 2 ^ 64 / rate
      ≡ second_micro * (queued - count) / rate
exact queued count rate h small = ap (λ x. x / rate) (omega arith)

module _ {A : Type 0} where
  pub update_mark-runs :
      (p : Playback A)
      → p.last_mark.frame_count ≤ p.queued_frames
      → update_mark p ≡ record p {
        last_mark = (dequeue_marks p.queued_frames p.last_mark p.marks).0;
        marks = (dequeue_marks p.queued_frames p.last_mark p.marks).1;
      }
  unfolding update_mark
  update_mark-runs p h = simp (reached p.last_mark.frame_count p.queued_frames h) refl
    where
      reached : (a b : ℕ) → a ≤ b → leb a b ≡ true
      reached a b e = ground arith

  pub update_mark-reached :
      (p : Playback A)
      → p.last_mark.frame_count ≤ p.queued_frames
      → (update_mark p).last_mark.frame_count ≤ p.queued_frames
  update_mark-reached p h =
      let cut = dequeue_marks_lem p.queued_frames p.last_mark p.marks in
      rw (update_mark-runs p h, cut.latest)
        (last_reached p.queued_frames p.last_mark cut.passed h cut.all_reached)

  -- If the last mark was reached: the marks that the frames have reached leave the queue in their
  -- order, up to one that is ahead, and the latest of them is the one to go by. With fewer than
  -- 2 ^ 64 / 1000000 frames played, the callback is late by the time since the start, less the time of
  -- that mark and that of the frames since it.
  pub lateness_lem :
      (st : Stream) (t : Tick) (p : Playback A)
      → p.last_mark.frame_count ≤ p.queued_frames
      → second_micro * p.queued_frames < 2 ^ 64
      → (passed : List Mark) × (p.marks ≡ passed ++ (update_mark p).marks)
        × AllReached p.queued_frames passed
        × FirstAhead p.queued_frames (update_mark p).marks
        × ((update_mark p).last_mark ≡ last_of p.last_mark passed)
        × (lateness st t (update_mark p)
            ≡ t.now
              -ℤ (p.sync_time
                  +ℤ ((last_of p.last_mark passed).playback_time
                      +ℤ pos (
                          second_micro
                          * (p.queued_frames - (last_of p.last_mark passed).frame_count)
                          / st.samples_per_sec))))
  lateness_lem st t p h small =
      let cut = dequeue_marks_lem p.queued_frames p.last_mark p.marks in
      let runs = update_mark-runs p h in
      (
        cut.passed,
        rw runs cut.whole,
        cut.all_reached,
        rw runs cut.ahead,
        rw runs cut.latest,
        rw
            (
              runs,
              cut.latest,
              exact p.queued_frames (last_of p.last_mark cut.passed).frame_count st.samples_per_sec
                  (last_reached p.queued_frames p.last_mark cut.passed h cut.all_reached) small,
            )
            refl,
      )
