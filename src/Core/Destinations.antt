-- ===== src/Core/Destinations.antt =====
-- `getAudioDestinations` of app/src/main/jni/AudioCore.cpp: the list of receivers for the user
-- interface. The sources of the session are visited twice, and another thread can change them between
-- the visits. `none` is a write outside of the buffer of the name, or of the Java array.
pub mod Filled
mod Tests
use audio_sync.Base.{
  ℕ, zero, suc, ◌+◌, ◌^◌, ◌≤◌, ◌<◌, ◌≡◌, refl, ap, ◌∙◌, Bool, true, false, not, ◌&&◌, Option, none,
  some, List, [], ◌∷◌, ◌++◌, map, ◌>>=◌, ◌>>◌, assert, arith, ltb, leb, ◌==◌, if◌then◌else◌, length,
}
use audio_sync.Base.Int.{ℤ}
use audio_sync.Sender.{to_uint32}

-- What is asked of an `RTPSourceData`.
pub record Source : Type 0 where
  pub is_own_ssrc : Bool
  pub name : List ℕ
  pub jitter : ℤ
  pub clock_offset : ℤ
  pub packets_lost : ℤ

-- An `AudioDestination`; a `jint` is kept as its bit pattern.
pub record AudioDestination : Type 0 where
  pub name : List ℕ
  pub jitter : ℕ
  pub time_offset : ℕ
  pub packets_lost : ℕ

-- The test of a source that `GetCurrentSourceInfo` gave, if it gave one.
abbrev pub is_other : Option Source → Bool
is_other none = false
is_other (some s) = not s.is_own_ssrc

-- The first visit.
unfoldable pub count_sources : List (Option Source) → ℕ
count_sources [] = 0
count_sources (source ∷ sources) =
    let rest = count_sources sources in if is_other source then suc rest else rest

abbrev pub name_size : ℕ
name_size = 256

-- The text of a buffer of zeros with bytes copied into it.
abbrev pub c_string : List ℕ → List ℕ
c_string [] = []
c_string (zero ∷ bytes) = []
c_string (suc ch ∷ bytes) = suc ch ∷ c_string bytes

unfoldable pub destination : Source → AudioDestination
destination s = record {
  name = c_string s.name;
  jitter = to_uint32 s.jitter;
  time_offset = to_uint32 s.clock_offset;
  packets_lost = to_uint32 s.packets_lost;
}

-- A source of the second visit: the name and the zero behind it are within the buffer, and the index
-- within the array.
unfoldable pub fill_destination : ℕ → ℕ → Source → Option AudioDestination
fill_destination size i s =
    assert (ltb (length s.name) name_size) >> assert (ltb i size) >> some (destination s)

-- The elements that the second visit sets, from an index of the array on.
unfoldable pub fill_array : ℕ → ℕ → List (Option Source) → Option (List AudioDestination)
unfolding fill_destination
fill_array size i [] = some []
fill_array size i (none ∷ sources) = fill_array size i sources
fill_array size i (some s ∷ sources) =
    let rest = fill_array size (i + 1) sources in
    let skipped = fill_array size i sources in
    if s.is_own_ssrc
    then skipped
    else fill_destination size i s >>= λ d. rest >>= λ ds. some (d ∷ ds)

-- The result is NULL if there is no session, or no receiver.
unfoldable pub get_audio_destinations :
    Bool → List (Option Source) → List (Option Source) → Option (Option (List AudioDestination))
unfolding count_sources fill_array
get_audio_destinations has_session first second =
    let filled = fill_array (count_sources first) 0 second >>= λ ds. some (some ds) in
    if has_session && not (count_sources first == 0) then filled else some none

-- The other sources, in their order.
unfoldable pub others : List (Option Source) → List Source
others [] = []
others (none ∷ sources) = others sources
others (some s ∷ sources) = let rest = others sources in if s.is_own_ssrc then rest else s ∷ rest

-- RFC 3550 gives the length of a name one byte.
abbrev pub NamesFit : List (Option Source) → Type 0
NamesFit [] = Unit
NamesFit (none ∷ sources) = NamesFit sources
NamesFit (some s ∷ sources) = (length s.name < 256) × NamesFit sources
