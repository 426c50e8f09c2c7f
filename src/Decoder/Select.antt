-- ===== src/Decoder/Select.antt =====
-- Which track `decoder_selectAudioTrack` selects.
use audio_sync.Base.{
  ℕ, zero, suc, ◌+◌, ◌≤◌, ◌≡◌, ◌↔◌, ap, inl, inr, refl, true, false, Option, none, some, List, [],
  ◌∷◌, ◌++◌, arith, length, length-append, Bool-cases,
}
use audio_sync.Base.Int.{ℤ}
use audio_sync.Ndk.{Extractor}
use audio_sync.Decoder.{
  audio_prefix, strncmp_equal, starts_with, is_ok, is_audio, Selection, create_extractor,
  select_from, select_audio_track,
}

strncmp_prefix :
    (pre str : List ℕ)
    → length pre ≤ length str
    → strncmp_equal (length pre) pre str ≡ true
    → (rest : List ℕ) × (str ≡ pre ++ rest)
unfolding strncmp_equal
strncmp_prefix [] str le e = (str, refl)
strncmp_prefix (x ∷ pre) [] le e = cc
strncmp_prefix (x ∷ pre) (y ∷ str) le e =
    let (rest, same) = strncmp_prefix pre str (omega arith) (ground arith) in (rest, ground arith)

strncmp_append : (pre rest : List ℕ) → strncmp_equal (length pre) pre (pre ++ rest) ≡ true
unfolding strncmp_equal
strncmp_append [] rest = refl
strncmp_append (x ∷ pre) rest = ground (arith, strncmp_append pre rest)

-- `startsWith` tests for a prefix.
pub starts_with_iff :
    (pre str : List ℕ) → (starts_with pre str ≡ true) ↔ ((rest : List ℕ) × (str ≡ pre ++ rest))
unfolding starts_with
starts_with_iff pre str =
    (λ e. strncmp_prefix pre str (ground arith) (ground arith), λ (rest, e). from rest e)
  where
    from : (rest : List ℕ) → str ≡ pre ++ rest → starts_with pre str ≡ true
    from rest e = rw e (ground (arith, length-append pre rest, strncmp_append pre rest))

-- A MIME type that begins with `audio/`.
abbrev pub BeginsAudio : Option (List ℕ) → Type 0
BeginsAudio mime = (rest : List ℕ) × (mime ≡ some (b'a' ∷ b'u' ∷ b'd' ∷ b'i' ∷ b'o' ∷ b'/' ∷ rest))

-- The track at an index is the first one with a MIME type of audio.
abbrev pub FirstAudio : List (Option (List ℕ)) → ℕ → Type 0
FirstAudio [] k = ⊥
FirstAudio (mime ∷ tracks) zero = BeginsAudio mime
FirstAudio (mime ∷ tracks) (suc k) = (¬ BeginsAudio mime) × FirstAudio tracks k

abbrev pub NoAudio : List (Option (List ℕ)) → Type 0
NoAudio [] = Unit
NoAudio (mime ∷ tracks) = (¬ BeginsAudio mime) × NoAudio tracks

module _ (e : Extractor) where
  open e use {State, track_mimes, select_track}

  is_audio-BeginsAudio : (mime : Option (List ℕ)) → is_audio e mime ≡ true → BeginsAudio mime
  is_audio-BeginsAudio none h = absurd (cc h)
  is_audio-BeginsAudio (some text) h =
      let (rest, same) = (starts_with_iff audio_prefix text).0 h in (rest, ap some same)

  not_audio : (mime : Option (List ℕ)) → is_audio e mime ≡ false → ¬ BeginsAudio mime
  not_audio none h (rest, same) = absurd (cc same)
  not_audio (some text) h (rest, same) =
      let begins : starts_with audio_prefix text ≡ true =
        (starts_with_iff audio_prefix text).1 (rest, cc same) in
      absurd (cc (h, begins))

  abbrev selected_track : State → ℕ → Selection State
  selected_track st at = record {
    result = true;
    state = (select_track st at).1;
    selected = some at;
    leaked = 0;
  }

  abbrev refused_track : State → ℕ → Selection State
  refused_track st at = record {
    result = false;
    state = (select_track st at).1;
    selected = none;
    leaked = 1;
  }

  abbrev no_track : State → Selection State
  no_track st = record { result = true; state = st; selected = none; leaked = 0 }

  -- What the loop may do from track `idx` on: select the first audio track, which stands at `at`,
  -- fail to, or find none.
  pub data Chosen (st : State) (idx : ℕ) (tracks : List (Option (List ℕ))) (s : Selection State)
      : Type 0 where
    found :
        (k at : ℕ)
        → at ≡ idx + k
        → FirstAudio tracks k
        → is_ok (select_track st at).0 ≡ true
        → s ≡ selected_track st at
        → Chosen st idx tracks s
    refused :
        (k at : ℕ)
        → at ≡ idx + k
        → FirstAudio tracks k
        → is_ok (select_track st at).0 ≡ false
        → s ≡ refused_track st at
        → Chosen st idx tracks s
    no_audio : NoAudio tracks → s ≡ no_track st → Chosen st idx tracks s

  later :
      (st : State) (idx : ℕ) (mime : Option (List ℕ)) (tracks : List (Option (List ℕ)))
      (s : Selection State)
      → (¬ BeginsAudio mime)
      → Chosen st (idx + 1) tracks s
      → Chosen st idx (mime ∷ tracks) s
  later st idx mime tracks s skip (found k at place first accepted out) =
      found (suc k) at (omega arith) (skip, first) accepted out
  later st idx mime tracks s skip (refused k at place first denied out) =
      refused (suc k) at (omega arith) (skip, first) denied out
  later st idx mime tracks s skip (no_audio none_left out) = no_audio (skip, none_left) out

  select_from-Chosen :
      (st : State) (idx : ℕ) (tracks : List (Option (List ℕ)))
      → Chosen st idx tracks (select_from e st idx tracks)
  unfolding select_from
  select_from-Chosen st idx [] = no_audio tt refl
  select_from-Chosen st idx (mime ∷ tracks) = elim (Bool-cases (is_audio e mime)) [
    | inl audio ↦ elim (Bool-cases (is_ok (select_track st idx).0)) [
      | inl accepted ↦
          found 0 idx (omega arith) (is_audio-BeginsAudio mime audio) accepted
            (rw (audio, accepted))
      | inr denied ↦
          refused 0 idx (omega arith) (is_audio-BeginsAudio mime audio) denied (rw (audio, denied))
    ]
    | inr skip ↦
        rw skip (
          later st idx mime tracks _ (not_audio mime skip) (select_from-Chosen st (idx + 1) tracks))
  ]

  -- The first track whose MIME type begins with `audio/` is selected; where that fails the result
  -- is false and a format is leaked; where there is no such track the result is true and nothing
  -- is selected.
  pub select_audio_track-Chosen :
      (st : State) → Chosen st 0 (track_mimes st) (select_audio_track e st)
  unfolding select_audio_track
  select_audio_track-Chosen st = select_from-Chosen st 0 (track_mimes st)

  FirstAudio-silent :
      (tracks : List (Option (List ℕ))) (k : ℕ) → NoAudio tracks → FirstAudio tracks k → ⊥
  FirstAudio-silent [] k silent first = first
  FirstAudio-silent (mime ∷ tracks) zero silent first = silent.0 first
  FirstAudio-silent (mime ∷ tracks) (suc k) silent first =
      FirstAudio-silent tracks k silent.1 first.1

  Chosen-silent :
      {st : State} {idx : ℕ} {tracks : List (Option (List ℕ))} {s : Selection State}
      → NoAudio tracks
      → Chosen st idx tracks s
      → s ≡ no_track st
  Chosen-silent {tracks = tracks} silent (found k at place first accepted out) =
      absurd (FirstAudio-silent tracks k silent first)
  Chosen-silent {tracks = tracks} silent (refused k at place first denied out) =
      absurd (FirstAudio-silent tracks k silent first)
  Chosen-silent silent (no_audio none_left out) = out

  -- An extractor is made also for a file with no audio track, and it has no track selected.
  pub create_extractor-NoAudio :
      (st : State) (status : ℤ)
      → is_ok status ≡ true
      → NoAudio (track_mimes st)
      → (create_extractor e status st ≡ (some st, 0)) × ((select_audio_track e st).selected ≡ none)
  unfolding create_extractor
  create_extractor-NoAudio st status good silent =
      let none_chosen = Chosen-silent silent (select_audio_track-Chosen st) in
      (rw (good, none_chosen), rw none_chosen)
