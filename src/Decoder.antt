-- ===== src/Decoder.antt =====
-- app/src/main/jni/decoder.c and decoder.h: choosing the audio track of a file, reading its samples,
-- and passing compressed packets to a codec and decoded audio from it.
pub mod Stream
pub mod Enqueue
pub mod Dequeue
pub mod Select
mod Tests
use audio_sync.Base.{
  ℕ, zero, suc, ◌+◌, ◌-◌, ◌≤◌, ◌<◌, ◌≡◌, Bool, true, false, not, Option, none, some, List, [], ◌∷◌,
  ◌++◌, ltb, leb, ◌==◌, if◌then◌else◌, ◌>>=◌, length, take, drop,
}
use audio_sync.Base.Int.{ℤ, pos, negsuc}
use audio_sync.Ndk.{BufferInfo, Codec, Extractor, amedia_ok}

-- `strncmp(a, b, n) == 0` on C strings, kept without their terminators.
unfoldable pub strncmp_equal : ℕ → List ℕ → List ℕ → Bool
strncmp_equal zero a b = true
strncmp_equal (suc n) [] [] = true
strncmp_equal (suc n) [] (y ∷ b) = false
strncmp_equal (suc n) (x ∷ a) [] = false
strncmp_equal (suc n) (x ∷ a) (y ∷ b) = if x == y then strncmp_equal n a b else false

-- `startsWith`.
pub starts_with : List ℕ → List ℕ → Bool
unfolding strncmp_equal
starts_with pre str =
    if ltb (length str) (length pre) then false else strncmp_equal (length pre) pre str

-- The text `audio/`.
abbrev pub audio_prefix : List ℕ
audio_prefix = b'a' ∷ b'u' ∷ b'd' ∷ b'i' ∷ b'o' ∷ b'/' ∷ []

abbrev pub is_ok : ℤ → Bool
is_ok (pos n) = n == 0
is_ok (negsuc n) = false

-- A format that the NDK gave out and that was not deleted is leaked.
pub record Selection (S : Type 0) : Type 0 where
  pub result : Bool
  pub state : S
  pub selected : Option ℕ
  pub leaked : ℕ

module _ (e : Extractor) where
  open e use {State, track_mimes, select_track, read_sample, sample_time, advance}

  -- Whether the format of a track has a MIME type of audio.
  abbrev pub is_audio : Option (List ℕ) → Bool
  is_audio none = false
  is_audio (some mime) = starts_with audio_prefix mime

  -- The loop of `decoder_selectAudioTrack` from track `idx` on.
  select_from : State → ℕ → List (Option (List ℕ)) → Selection State
  select_from st idx [] = record { result = true; state = st; selected = none; leaked = 0 }
  select_from st idx (mime ∷ tracks) =
      let rest = select_from st (idx + 1) tracks in
      let (status, st') = select_track st idx in
      if is_audio mime
      then if is_ok status
        then record { result = true; state = st'; selected = some idx; leaked = 0 }
        else record { result = false; state = st'; selected = none; leaked = 1 }
      else rest

  pub select_audio_track : State → Selection State
  unfolding select_from
  select_audio_track st = select_from st 0 (track_mimes st)

  -- `decoder_createExtractorFromFd` and `decoder_createExtractorFromUri`, from the status that
  -- `setDataSource` gave for the new extractor: the extractor, or none for the null pointer, and
  -- the number of extractors and formats that are never deleted.
  pub create_extractor : ℤ → State → Option State × ℕ
  create_extractor status st =
      if not (is_ok status)
      then (none, 1)
      else let s = select_audio_track st in
        if not s.result then (none, 1 + s.leaked) else (some s.state, s.leaked)

  -- `decoder_extractData`: the size, the bytes, the time of the sample, and the extractor at the
  -- next sample.
  unfoldable pub extract_data : State → ℕ → ℤ × List ℕ × ℤ × State
  extract_data st capacity =
      let (written, bytes) = read_sample st capacity in (written, bytes, sample_time st, advance st)
