-- ===== src/Decoder/Dequeue.antt =====
-- The answer of `decoder_dequeueBuffer` where the codec has no output.
use audio_sync.Base.{ℕ, ◌≡◌, refl, Bool, not, none, some, arith}
use audio_sync.Base.Int.{pos, negsuc}
use audio_sync.Ndk.{BufferInfo, Codec}
use audio_sync.Decoder.Stream.{Dequeued, dequeue_buffer}

abbrev stack_with : Bool → BufferInfo
stack_with eos = record {
  offset = 0;
  size = pos 0;
  presentation_time_us = pos 0;
  end_of_stream = eos;
}

module _ (c : Codec) where
  open c use {State, dequeue_output}

  -- With no output buffer the answer is read from an uninitialised variable: for each answer there
  -- is a value of it that gives that answer, and neither calls the sink.
  pub dequeue_uninitialised :
      (st : State) (k : ℕ) (answer : Bool)
      → (dequeue_output st).0 ≡ negsuc k
      → (garbage : BufferInfo) × (r : Dequeued State) × (dequeue_buffer c garbage st ≡ some r)
        × (r.more ≡ answer)
  unfolding dequeue_buffer
  dequeue_uninitialised st k answer missing = (
    stack_with (not answer),
    record { more = answer; state = (dequeue_output st).2; sink = none },
    ground (arith, missing),
    refl,
  )
