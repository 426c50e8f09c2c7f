-- ===== src/Core/Destinations/Tests.antt =====
-- The list of receivers at concrete sources.
use audio_sync.Base.{◌≡◌, true, false, none, some, [], ◌∷◌, arith}
use audio_sync.Base.Int.{pos, negsuc}
use audio_sync.Core.Destinations.{Source, get_audio_destinations, others}
use audio_sync.Core.Destinations.Filled.{get_audio_destinations_lem}

abbrev own : Source
own = record {
  is_own_ssrc = true;
  name = [];
  jitter = pos 0;
  clock_offset = pos 0;
  packets_lost = pos 0;
}

abbrev phone : Source
phone = record {
  is_own_ssrc = false;
  name = 112 ∷ 49 ∷ [];
  jitter = pos 3;
  clock_offset = negsuc 0;
  packets_lost = pos 2;
}

-- A second phone comes between the two visits.
get_audio_destinations_lem_example :
    get_audio_destinations true
      (some own ∷ some phone ∷ [])
      (some own ∷ some phone ∷ none ∷ some phone ∷ [])
    ≡ none
unfolding others
get_audio_destinations_lem_example =
    get_audio_destinations_lem true (some own ∷ some phone ∷ [])
      (some own ∷ some phone ∷ none ∷ some phone ∷ [])
      (omega arith, (omega arith, (omega arith, tt)))
