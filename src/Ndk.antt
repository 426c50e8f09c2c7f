-- ===== src/Ndk.antt =====
-- What app/src/main/jni/decoder.c uses of the Android NDK: media codecs and extractors. Their code
-- is not in the repository, so each is a record of operations on a state of its own.
use audio_sync.Base.{ℕ, Bool, Option, List}
use audio_sync.Base.Int.{ℤ}

-- A status code of the NDK; AMEDIA_OK is 0.
abbrev pub amedia_ok : ℤ
amedia_ok = ℤ.pos 0

-- `AMediaCodecBufferInfo`; the flag is AMEDIACODEC_BUFFER_FLAG_END_OF_STREAM.
pub record BufferInfo : Type 0 where
  pub offset : ℕ
  pub size : ℤ
  pub presentation_time_us : ℤ
  pub end_of_stream : Bool

-- `AMediaCodec`: input buffers are named by an index and have a capacity, output buffers hold the
-- decoded bytes. A negative index says that there is no buffer.
pub record Codec : Type 1 where
  pub State : Type 0
  pub dequeue_input : State → ℤ × State
  pub input_capacity : State → ℕ → ℕ
  pub queue_input : State → ℕ → List ℕ → ℤ → Bool → ℤ × State
  pub dequeue_output : State → ℤ × BufferInfo × State
  pub output_bytes : State → ℕ → List ℕ
  pub release_output : State → ℕ → ℤ × State

-- `AMediaExtractor`. A track has a MIME type or none; `read_sample` fills at most the given number
-- of bytes and is negative at the end of the data.
pub record Extractor : Type 1 where
  pub State : Type 0
  pub track_mimes : State → List (Option (List ℕ))
  pub select_track : State → ℕ → ℤ × State
  pub read_sample : State → ℕ → ℤ × List ℕ
  pub sample_time : State → ℤ
  pub advance : State → State
