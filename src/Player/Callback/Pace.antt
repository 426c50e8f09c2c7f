-- ===== src/Player/Callback/Pace.antt =====
-- How `_bqPlayerCallback` (app/src/main/jni/audioplayer.cpp) keeps pace, in time, late or early: it has a
-- result.
use Prim.Native.String.{String}
use audio_sync.Base.{
  ℕ, zero, suc, ◌+◌, ◌*◌, ◌/◌, ◌≤◌, ◌<◌, ◌≡◌, refl, ap, ◌∙◌, Bool, false, true, not, ◌&&◌, List,
  arith, inl, inr, Bool-cases, Option, some,
}
use audio_sync.Base.Int.{ℤ, pos, negsuc, sub_ℕ, ◌*ℤ◌, ◌-ℤ◌, quot, ltb_ℤ}
use audio_sync.AppPacket.{second_micro}
use audio_sync.Fifo.Inv.{IsValid}
use audio_sync.Player.OpenSl.{check_error}
use audio_sync.Player.Callback.{Stream, FrameBytes, Playback, Tick, Output, frames_of}
use audio_sync.Player.Callback.Play.{play_early, play_late, play_at}
use audio_sync.Player.Callback.Advance.{IsBuffered, below_max, HasRoom, Advance, advance_trans}
use audio_sync.Player.Callback.Frames.{play_frames_lem, play_late_lem}
use audio_sync.Player.Callback.Safe.{IsCoarse, Plays, play_early_lem}

-- The frames of a time that is not negative, and of one that is.
sub-nothing : (a b : ℕ) → b ≡ 0 → sub_ℕ a b ≡ pos a
sub-nothing a b h = ground arith

quot-sub : (a b : ℕ) → a ≡ 0 → pos 0 -ℤ quot (sub_ℕ a b) second_micro ≡ pos (b / second_micro)
unfolding ◌-ℤ◌
quot-sub a zero h = ground arith
quot-sub a (suc b) h = ground arith

frames_of-pos :
    (st : Stream) (n : ℕ) → frames_of st (pos n) ≡ pos (n * st.samples_per_sec / second_micro)
unfolding ◌*ℤ◌
frames_of-pos st n =
    ap (λ z. quot z second_micro)
      (sub-nothing (n * st.samples_per_sec + 0) (n * 0 + 0 * st.samples_per_sec) (omega arith))
    ∙ ap (λ x. pos (x / second_micro)) (omega arith)

frames_of-negsuc :
    (st : Stream) (n : ℕ)
    → pos 0 -ℤ frames_of st (negsuc n) ≡ pos (suc n * st.samples_per_sec / second_micro)
unfolding ◌*ℤ◌
frames_of-negsuc st n =
    quot-sub (0 * st.samples_per_sec + suc n * 0) (0 + suc n * st.samples_per_sec) (omega arith)
    ∙ ap (λ x. pos (x / second_micro)) (omega arith)

late_pos : (diff : ℤ) (h : ℕ) → not (ltb_ℤ diff (pos h)) ≡ true → (n : ℕ) × (diff ≡ pos n) × (h ≤ n)
late_pos (pos n) h e = (n, refl, ground arith)
late_pos (negsuc n) h e = absurd (ground arith)

early_negsuc :
    (diff : ℤ) (h : ℕ)
    → 0 < h
    → not (ltb_ℤ (pos 0 -ℤ pos h) diff) ≡ true
    → (n : ℕ) × (diff ≡ negsuc n)
unfolding ◌-ℤ◌
early_negsuc (pos n) h some_time e = absurd (ground arith)
early_negsuc (negsuc n) h some_time e = (n, refl)

some_frames : (n h rate : ℕ) → second_micro ≤ h * rate → h ≤ n → 0 < n * rate / second_micro
some_frames n h rate le more = positive (n * rate) (grind arith)
  where
    positive : (x : ℕ) → second_micro ≤ x → 0 < x / second_micro
    positive x k = omega arith

some_time : (h rate : ℕ) → second_micro ≤ h * rate → 0 < h
some_time zero rate le = absurd (omega arith)
some_time (suc h) rate le = omega arith

second_true : (a c : Bool) → (a && c) ≡ true → c ≡ true
second_true true c h = h
second_true false c h = absurd (cc h)

module _ {A : Type 0} (bytes : FrameBytes A) where
  module _ (st : Stream) (t : Tick) (base : ℕ) (b : IsBuffered st) (room : HasRoom st base)
      (log : List (String × String))
      (ok : check_error t.result "_bqPlayerCallback" ≡ some log) where
    -- A call that comes to another one, at a state that differs in what is noted there.
    comes_to :
        {p q : Playback A} {result result' : Option (Output A × Playback A)}
        → Advance p q
        → result ≡ result'
        → Plays bytes st q result'
        → Plays bytes st p result
    comes_to a e s = record {
      output = s.output;
      next = s.next;
      runs = e ∙ s.runs;
      advance = advance_trans a s.advance;
      fits = s.fits;
    }

    abbrev noted : ℤ → Playback A → Playback A
    noted diff p = record p { drop = frames_of st diff; diff = diff }

    noted-Advance : (diff : ℤ) (p : Playback A) → IsValid p.fifo → Advance p (noted diff p)
    noted-Advance diff p v = record {
      taken = 0;
      enough = omega arith;
      queued = omega arith;
      rest = refl;
      valid = v;
      accuracy = refl;
      is_playing = refl;
      last_mark = refl;
      kept = refl;
    }

    abbrev is_late : ℤ → Playback A → Bool
    is_late diff p = p.enable_jumps && not (ltb_ℤ diff (pos (p.accuracy / 2)))

    abbrev is_early : ℤ → Playback A → Bool
    is_early diff p = p.enable_jumps && not (ltb_ℤ (pos 0 -ℤ pos (p.accuracy / 2)) diff)

    play_at-late :
        (diff : ℤ) (p : Playback A)
        → IsValid p.fifo
        → IsCoarse st p.accuracy
        → is_late diff p ≡ true
        → Plays bytes st p (play_at bytes st t base diff p)
    unfolding play_at
    play_at-late diff p v coarse late =
        let (n, e, le) =
          late_pos diff (p.accuracy / 2)
            (second_true p.enable_jumps (not (ltb_ℤ diff (pos (p.accuracy / 2)))) late) in
        comes_to (noted-Advance diff p v)
          (simp late refl
            ∙ ap (λ d. play_late bytes st t base d (noted diff p))
                (ap (frames_of st) e ∙ frames_of-pos st n))
          (play_late_lem bytes st t base b room log ok (n * st.samples_per_sec / second_micro)
            (noted diff p) v (some_frames n (p.accuracy / 2) st.samples_per_sec coarse le))

    play_at-early :
        (diff : ℤ) (p : Playback A)
        → IsValid p.fifo
        → IsCoarse st p.accuracy
        → is_late diff p ≡ false
        → is_early diff p ≡ true
        → Plays bytes st p (play_at bytes st t base diff p)
    unfolding play_at
    play_at-early diff p v coarse in_time early =
        let (n, e) =
          early_negsuc diff (p.accuracy / 2) (some_time (p.accuracy / 2) st.samples_per_sec coarse)
            (second_true p.enable_jumps (not (ltb_ℤ (pos 0 -ℤ pos (p.accuracy / 2)) diff)) early) in
        comes_to (noted-Advance diff p v)
          (simp (in_time, early) refl
            ∙ ap (λ d. play_early bytes st t base d (noted diff p))
                (ap (λ z. pos 0 -ℤ frames_of st z) e ∙ frames_of-negsuc st n))
          (play_early_lem bytes st t base b room log ok (suc n * st.samples_per_sec / second_micro)
            (noted diff p) v)

    pub play_at_lem :
        (diff : ℤ) (p : Playback A)
        → IsValid p.fifo
        → IsCoarse st p.accuracy
        → Plays bytes st p (play_at bytes st t base diff p)
    unfolding play_at
    play_at_lem diff p v coarse = elim (Bool-cases (is_late diff p)) [
      | inl late ↦ play_at-late diff p v coarse late
      | inr in_time ↦ elim (Bool-cases (is_early diff p)) [
        | inl early ↦ play_at-early diff p v coarse in_time early
        | inr near ↦ comes_to (noted-Advance diff p v) (simp (in_time, near) refl) (
            play_frames_lem bytes st t base b room log ok st.frames_per_buffer (noted diff p) v
              (omega (arith, below_max b)))
      ]
    ]
