-- ===== src/Decoder/Stream.antt =====
-- The streaming half of app/src/main/jni/decoder.c: `decoder_enqueueBuffer` and
-- `decoder_dequeueBuffer`.
use audio_sync.Base.{
  ℕ, zero, suc, ◌+◌, ◌-◌, Bool, true, false, not, ◌&&◌, Option, none, some, List, [], ◌∷◌, ◌++◌,
  ltb, leb, ◌==◌, if◌then◌else◌, ◌>>=◌, length, take, drop,
}
use audio_sync.Base.Int.{ℤ, pos, negsuc}
use audio_sync.Ndk.{BufferInfo, Codec, amedia_ok}
use audio_sync.Decoder.{is_ok}

-- Where `inBuffer` points: at the bytes that are left of the caller's data, or past the end of a
-- buffer of the codec.
pub data Source : Type 0 where
  caller : List ℕ → Source
  past_end : Source

-- `memcpy` of `n` bytes; `none` is a read outside of the memory.
unfoldable pub copy_from : Source → ℕ → Option (List ℕ)
copy_from (caller bytes) n = if leb n (length bytes) then some (take n bytes) else none
copy_from past_end n = if n == 0 then some [] else none

-- What was queued to the codec.
pub record Packet : Type 0 where
  pub bytes : List ℕ
  pub timestamp : ℤ
  pub end_of_stream : Bool

pub data Outcome (S : Type 0) : Type 0 where
  done : ℤ → S → List Packet → Outcome S
  fault : Outcome S
  out_of_fuel : Outcome S

-- What `sinkFunc` is called with.
pub record SinkCall : Type 0 where
  pub pcm : List ℕ
  pub playback_time : ℤ

pub record Dequeued (S : Type 0) : Type 0 where
  pub more : Bool
  pub state : S
  pub sink : Option SinkCall

-- The call of `sinkFunc` in `decoder_dequeueBuffer`, if there are bytes.
unfoldable pub deliver : BufferInfo → List ℕ → Option (Option SinkCall)
deliver info bytes = elim info.size [
  | negsuc _ ↦ some none
  | pos n ↦
      if n == 0
      then some none
      else if leb (info.offset + n) (length bytes)
      then some (
          some (record {
            pcm = take n (drop info.offset bytes);
            playback_time = info.presentation_time_us;
          }))
      else none
]

module _ (c : Codec) where
  open c use {
    State, dequeue_input, input_capacity, queue_input, dequeue_output, output_bytes, release_output,
  }

  -- `AMediaCodec_queueInputBuffer`, with what was queued before.
  abbrev pub queue : State → ℕ → List ℕ → ℤ → Bool → List Packet → ℤ × State × List Packet
  queue st idx bytes timestamp eos queued =
      let (status, st') = queue_input st idx bytes timestamp eos in
      (
        status,
        st',
        queued ++ record { bytes = bytes; timestamp = timestamp; end_of_stream = eos } ∷ [],
      )

  -- The branch of `decoder_enqueueBuffer` where the data fits into buffer `idx`, or is cut there.
  unfoldable pub queue_whole : State → ℕ → Source → ℕ → ℤ → List Packet → Outcome State
  queue_whole st idx source n timestamp queued = elim (copy_from source n) [
    | none ↦ fault
    | some bytes ↦
        let (status, st', log) = queue st idx bytes timestamp false queued in done status st' log
  ]

  -- `decoder_enqueueBuffer`. The recursive call takes fuel; it passes a pointer past the end of the
  -- codec's buffer, as the code does.
  unfoldable pub enqueue_buffer : ℕ → State → Source → ℤ → ℤ → List Packet → Outcome State
  enqueue_buffer zero st source size timestamp queued = out_of_fuel
  enqueue_buffer (suc fuel) st source size timestamp queued =
      let (idx, st1) = dequeue_input st in
      elim idx [
        | negsuc _ ↦ done amedia_ok st1 queued
        | pos i ↦ elim size [
          | negsuc _ ↦
              let (status, st2, log) = queue st1 i [] timestamp true queued in done status st2 log
          | pos n ↦
              let capacity = input_capacity st1 i in
              let cut : Outcome State = elim (copy_from source capacity) [
                | none ↦ fault
                | some bytes ↦
                    let (status, st2, log) = queue st1 i bytes timestamp false queued in
                    let rest =
                      enqueue_buffer fuel st2 past_end (pos (n - capacity)) timestamp log in
                    if is_ok status then rest else done status st2 log
              ] in
              if ltb capacity n then cut else queue_whole st1 i source n timestamp queued
        ]
      ]

  -- `decoder_dequeueBuffer`. `info` is not initialised: where the codec has no buffer it holds
  -- whatever was on the stack. `none` is a read outside of the output buffer.
  unfoldable pub dequeue_buffer : BufferInfo → State → Option (Dequeued State)
  unfolding deliver
  dequeue_buffer garbage st =
      let (idx, info, st1) = dequeue_output st in
      elim idx [
        | negsuc _ ↦ some (record { more = not garbage.end_of_stream; state = st1; sink = none })
        | pos i ↦
            let (status, st2) = release_output st1 i in
            deliver info (output_bytes st1 i) >>= λ sink.
            some
              (record { more = is_ok status && not info.end_of_stream; state = st2; sink = sink })
      ]
