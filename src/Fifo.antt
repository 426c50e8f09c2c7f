-- ===== src/Fifo.antt =====
-- app/src/main/jni/audioutils/fifo.h and fifo.cpp: the single-writer single-reader queue of audio
-- frames. A frame is an element of `A`; the memory of the queue is a list of frames. The two
-- indices are `int32_t`, kept as their bit patterns below 2 ^ 32. `none` is a failed ALOG_ASSERT,
-- which aborts the program, or a `memcpy` outside of one of the two buffers.
pub mod Roundup
pub mod Index
pub mod Inv
pub mod Advance
pub mod Copy
pub mod Refine
pub mod Size
pub mod Queue
pub mod Write
pub mod Append
pub mod Read
pub mod Take
pub mod Trace
mod Tests
use Prim.Native.Nat.{bit_and}
use audio_sync.Base.{
  ℕ, zero, suc, ◌+◌, ◌-◌, ◌*◌, ◌/◌, ◌%◌, ◌^◌, Bool, ◌&&◌, not, Option, none, some, List, ◌++◌, ltb,
  leb, ◌==◌, if◌then◌else◌, ◌>>=◌, ◌>>◌, assert, [], length, take, drop,
}
use audio_sync.Base.Word.{add32, sub32, sub64}

-- The number of binary digits of `n`, as far as the fuel goes; 32 is enough for an `unsigned`.
bit_length : ℕ → ℕ → ℕ
bit_length zero n = 0
bit_length (suc fuel) n = let rest = suc (bit_length fuel (n / 2)) in if n == 0 then 0 else rest

-- `__builtin_clz` of a 32-bit value other than 0.
clz : ℕ → ℕ
unfolding bit_length
clz v = 32 - bit_length 32 v

-- The shifts of `roundup`, at a value and its number of leading zeros.
round_shifted : ℕ → ℕ → ℕ
round_shifted v lz =
    let rounded = 2 ^ 31 / 2 ^ lz in
    if ltb rounded v && ltb 0 lz then rounded * 2 % 2 ^ 32 else rounded

pub roundup : ℕ → ℕ
unfolding round_shifted
roundup v = let w = if v == 0 then 1 else v in round_shifted w (clz w)

-- `struct audio_utils_fifo`.
pub record Fifo (A : Type 0) : Type 0 where
  pub frame_count : ℕ
  pub frame_count_p2 : ℕ
  pub fudge_factor : ℕ
  pub frame_size : ℕ
  pub buffer : List A
  pub front : ℕ
  pub rear : ℕ

-- `<=` of two `int32_t` values, on their bit patterns.
abbrev sle32 : ℕ → ℕ → Bool
sle32 a b = leb ((a + 2 ^ 31) % 2 ^ 32) ((b + 2 ^ 31) % 2 ^ 32)

-- The cast of an `int32_t` to `size_t`.
abbrev size_of_int32 : ℕ → ℕ
size_of_int32 d = if ltb d (2 ^ 31) then d else d + (2 ^ 64 - 2 ^ 32)

module _ {A : Type 0} where
  -- `audio_utils_fifo_init`; `none` for the buffer is the null pointer.
  pub init : ℕ → ℕ → Option (List A) → Option (Fifo A)
  init frame_count frame_size buffer = do
    assert (not (frame_count == 0))
    assert (not (frame_size == 0))
    frames ← buffer
    let p2 = roundup (frame_count % 2 ^ 32)
    some (record {
      frame_count = frame_count;
      frame_count_p2 = p2;
      fudge_factor = sub64 p2 frame_count;
      frame_size = frame_size;
      buffer = frames;
      front = 0;
      rear = 0;
    })

  -- `audio_utils_fifo_deinit`.
  pub deinit : Fifo A → Fifo A
  deinit f = f

  -- The `uint32_t mask` of `audio_utils_fifo_sum`.
  abbrev pub low_mask : Fifo A → ℕ
  low_mask f = sub64 f.frame_count_p2 1 % 2 ^ 32

  -- `audio_utils_fifo_sum`.
  pub sum : Fifo A → ℕ → ℕ → Option ℕ
  sum f index increment = if f.fudge_factor == 0 then some (add32 index increment) else do
    let mask = low_mask f
    let pos = bit_and index mask
    assert (ltb pos f.frame_count)
    assert (leb increment f.frame_count_p2)
    let step =
        if leb f.frame_count (add32 pos increment)
        then add32 increment f.fudge_factor
        else increment
    let next = add32 index step
    assert (ltb (bit_and next mask) f.frame_count)
    some next

  -- The last assertion of `audio_utils_fifo_diff` and its return.
  checked : Fifo A → ℕ → Option ℕ
  checked f d = do assert (sle32 0 d && sle32 d (f.frame_count % 2 ^ 32)); some (size_of_int32 d)

  -- `audio_utils_fifo_diff`; the mask is the complement of that of `sum`.
  pub diff : Fifo A → ℕ → ℕ → Option ℕ
  diff f rear front =
      let d = sub32 rear front in
      if f.fudge_factor == 0
      then checked f d
      else let mask = 2 ^ 32 - 1 - low_mask f in
        let gen_diff = sub32 (bit_and rear mask) (bit_and front mask) in
        if gen_diff == 0 then checked f d else do
          assert (gen_diff == f.frame_count_p2 % 2 ^ 32)
          checked f ((d + 2 ^ 64 - f.fudge_factor) % 2 ^ 32)

  -- `memcpy` from the frames of a buffer, and onto them.
  pub slice : List A → ℕ → ℕ → Option (List A)
  slice frames at n = if leb (at + n) (length frames) then some (take n (drop at frames)) else none

  pub overwrite : List A → ℕ → List A → Option (List A)
  overwrite frames at xs =
      if leb (at + length xs) (length frames)
      then some (take at frames ++ xs ++ drop (at + length xs) frames)
      else none

  -- How many of `wanted` frames go before the end of the memory, from index `pos` on.
  abbrev first_part : Fifo A → ℕ → ℕ → ℕ
  first_part f pos wanted =
      let room = sub64 f.frame_count pos in if ltb wanted room then wanted else room

  -- The two `memcpy` of `audio_utils_fifo_write`.
  pub store : Fifo A → List A → ℕ → ℕ → ℕ → Option (List A)
  unfolding slice overwrite
  store f source pos part1 part2 = do
    first ← slice source 0 part1
    stored ← overwrite f.buffer pos first
    if part2 == 0
        then some stored
        else do second ← slice source part1 part2; overwrite stored 0 second

  -- `audio_utils_fifo_write` once `availToWrite` is known.
  pub write_avail : Fifo A → List A → ℕ → Option (ℕ × Fifo A)
  write_avail f source avail_to_write =
      let pos = bit_and f.rear (sub64 f.frame_count_p2 1) in
      let part1 = first_part f pos avail_to_write in
      if part1 == 0 then some (avail_to_write, f) else do
        stored ← store f source pos part1 (sub64 avail_to_write part1)
        next ← sum f f.rear (avail_to_write % 2 ^ 32)
        some (avail_to_write, record f { buffer = stored; rear = next })

  -- `audio_utils_fifo_write`: the number of frames written, and the queue.
  pub write : Fifo A → List A → ℕ → Option (ℕ × Fifo A)
  write f source count = do
    used ← diff f f.rear f.front
    let room = sub64 f.frame_count used
    write_avail f source (if ltb count room then count else room)

  -- The two `memcpy` of `audio_utils_fifo_read`.
  pub fetch : Fifo A → ℕ → ℕ → ℕ → Option (List A)
  unfolding slice
  fetch f pos part1 part2 = do
    first ← slice f.buffer pos part1
    if part2 == 0 then some first else do second ← slice f.buffer 0 part2; some (first ++ second)

  -- `audio_utils_fifo_read` once `availToRead` is known.
  pub read_avail : Fifo A → ℕ → Option (ℕ × List A × Fifo A)
  read_avail f avail_to_read =
      let pos = bit_and f.front (sub64 f.frame_count_p2 1) in
      let part1 = first_part f pos avail_to_read in
      if part1 == 0 then some (avail_to_read, [], f) else do
        frames ← fetch f pos part1 (sub64 avail_to_read part1)
        next ← sum f f.front (avail_to_read % 2 ^ 32)
        some (avail_to_read, frames, record f { front = next })

  -- `audio_utils_fifo_read`: the number of frames read, the frames put at the start of the
  -- caller's buffer, and the queue.
  pub read : Fifo A → ℕ → Option (ℕ × List A × Fifo A)
  read f count = do
    used ← diff f f.rear f.front
    read_avail f (if ltb count used then count else used)

  -- `audio_utils_fifo_available`.
  pub available : Fifo A → Option ℕ
  unfolding diff checked
  available f = diff f f.rear f.front
