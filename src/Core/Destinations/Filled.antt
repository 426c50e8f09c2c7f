-- ===== src/Core/Destinations/Filled.antt =====
-- What `getAudioDestinations` of app/src/main/jni/AudioCore.cpp returns.
use audio_sync.Base.{
  ℕ, suc, ◌+◌, ◌≤◌, ◌<◌, ◌≡◌, refl, ap, sym, ◌∙◌, inl, inr, Bool, true, false, Option, none, some,
  List, [], ◌∷◌, map, ◌>>=◌, arith, ltb, leb, lt→ltb, leb→le, dec_lt, ◌==◌, if◌then◌else◌, length,
  Bool-cases,
}
use audio_sync.Core.Destinations.{
  Source, AudioDestination, count_sources, destination, fill_destination, fill_array,
  get_audio_destinations, others, NamesFit,
}

pub count_sources-others :
    (sources : List (Option Source)) → count_sources sources ≡ length (others sources)
unfolding count_sources others
count_sources-others [] = refl
count_sources-others (none ∷ sources) = count_sources-others sources
count_sources-others (some s ∷ sources) = elim (Bool-cases s.is_own_ssrc) [
  | inl own ↦ rw own (count_sources-others sources)
  | inr other ↦ rw other (ap suc (count_sources-others sources))
]

fill_destination-runs :
    (size i : ℕ) (s : Source)
    → length s.name < 256
    → i < size
    → fill_destination size i s ≡ some (destination s)
unfolding fill_destination
fill_destination-runs size i s fits inside =
    simp (lt→ltb (length s.name) 256 fits, lt→ltb i size inside) refl

-- The steps of both functions at a source.
others-own :
    (s : Source) (sources : List (Option Source))
    → s.is_own_ssrc ≡ true
    → others (some s ∷ sources) ≡ others sources
unfolding others
others-own s sources own = ap (λ o. if o then others sources else s ∷ others sources) own

others-other :
    (s : Source) (sources : List (Option Source))
    → s.is_own_ssrc ≡ false
    → others (some s ∷ sources) ≡ s ∷ others sources
unfolding others
others-other s sources other = ap (λ o. if o then others sources else s ∷ others sources) other

abbrev filled_at : ℕ → ℕ → Source → List (Option Source) → Option (List AudioDestination)
filled_at size i s sources =
    fill_destination size i s >>= λ d. fill_array size (i + 1) sources >>= λ ds. some (d ∷ ds)

fill_array-own :
    (size i : ℕ) (s : Source) (sources : List (Option Source))
    → s.is_own_ssrc ≡ true
    → fill_array size i (some s ∷ sources) ≡ fill_array size i sources
unfolding fill_array
fill_array-own size i s sources own =
    ap (λ o. if o then fill_array size i sources else filled_at size i s sources) own

fill_array-other :
    (size i : ℕ) (s : Source) (sources : List (Option Source))
    → s.is_own_ssrc ≡ false
    → fill_array size i (some s ∷ sources) ≡ filled_at size i s sources
unfolding fill_array
fill_array-other size i s sources other =
    ap (λ o. if o then fill_array size i sources else filled_at size i s sources) other

fill_destination-outside :
    (size i : ℕ) (s : Source) → length s.name < 256 → size ≤ i → fill_destination size i s ≡ none
unfolding fill_destination
fill_destination-outside size i s fits over =
    simp (lt→ltb (length s.name) 256 fits, not_below i size over) refl
  where
    not_below : (a b : ℕ) → b ≤ a → ltb a b ≡ false
    not_below a b h = ground arith

longer : (a b : ℕ) → leb a b ≡ false → b < 0 + a
longer a b h = ground arith

fill_array-others :
    (size i : ℕ) (sources : List (Option Source))
    → NamesFit sources
    → i + length (others sources) ≤ size
    → fill_array size i sources ≡ some (map destination (others sources))
unfolding fill_array others
fill_array-others size i [] fits enough = refl
fill_array-others size i (none ∷ sources) fits enough = fill_array-others size i sources fits enough
fill_array-others size i (some s ∷ sources) fits enough = elim (Bool-cases s.is_own_ssrc) [
  | inl own ↦
      fill_array-own size i s sources own
      ∙ fill_array-others size i sources fits.1
          (omega (arith, enough, ap length (others-own s sources own)))
      ∙ ap (λ xs. some (map destination xs)) (sym (others-own s sources own))
  | inr other ↦
      let room = ap length (others-other s sources other) in
      fill_array-other size i s sources other
      ∙ simp
          (
            fill_destination-runs size i s fits.0 (omega (arith, enough, room)),
            fill_array-others size (i + 1) sources fits.1 (omega (arith, enough, room)),
          )
          refl
      ∙ ap (λ xs. some (map destination xs)) (sym (others-other s sources other))
]

full-stops :
    (size i : ℕ) (sources : List (Option Source))
    → NamesFit sources
    → i ≤ size
    → size < i + length (others sources)
    → fill_array size i sources ≡ none
unfolding fill_array others
full-stops size i [] fits le over = absurd (omega arith)
full-stops size i (none ∷ sources) fits le over = full-stops size i sources fits le over
full-stops size i (some s ∷ sources) fits le over = elim (Bool-cases s.is_own_ssrc) [
  | inl own ↦
      fill_array-own size i s sources own
      ∙ full-stops size i sources fits.1 le
          (omega (arith, over, ap length (others-own s sources own)))
  | inr other ↦
      let room = ap length (others-other s sources other) in
      fill_array-other size i s sources other ∙ elim (dec_lt i size) [
        | yes inside ↦
            simp
              (
                fill_destination-runs size i s fits.0 inside,
                full-stops size (i + 1) sources fits.1 (omega arith) (omega (arith, over, room)),
              )
              refl
        | no outside ↦ simp (fill_destination-outside size i s fits.0 (omega (arith, outside))) refl
      ]
]

abbrev listed :
    List (Option Source) → List (Option Source) → Option (Option (List AudioDestination))
listed first second =
    if length (others first) == 0
    then some none
    else if leb (length (others second)) (length (others first))
    then some (some (map destination (others second)))
    else none

-- If names have at most 255 bytes: without a session or another source at the first visit there is no
-- list. Else it has the other sources of the second visit, all of them and in their order, if these are
-- no more than at the first visit; if they are more, an element is set behind the end of the array.
pub get_audio_destinations_lem :
    (has_session : Bool) (first second : List (Option Source))
    → NamesFit second
    → get_audio_destinations has_session first second
      ≡ (if has_session then listed first second else some none)
unfolding get_audio_destinations
get_audio_destinations_lem false first second fits = refl
get_audio_destinations_lem true first second fits =
    rw (count_sources-others first) (elim (Bool-cases (length (others first) == 0)) [
      | inl empty ↦ rw empty refl
      | inr some_others ↦
          rw some_others (elim (Bool-cases (leb (length (others second)) (length (others first)))) [
            | inl enough ↦
                simp
                  (
                    enough,
                    fill_array-others (length (others first)) 0 second fits (
                        omega
                          (arith, leb→le (length (others second)) (length (others first)) enough)),
                  )
                  refl
            | inr more ↦
                simp
                  (
                    more,
                    full-stops (length (others first)) 0 second fits (omega arith)
                        (longer (length (others second)) (length (others first)) more),
                  )
                  refl
          ])
    ])
