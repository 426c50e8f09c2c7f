-- ===== src/Player/Callback.antt =====
-- `_bqPlayerCallback` of app/src/main/jni/audioplayer.cpp: each time that OpenSL has played a buffer,
-- the next one is filled from the frame queue, at the pace that the clock asks for. A frame is an
-- element of `A`; `tempBuffers` is a memory of frames. `int64_t` values are integers; sizes in bytes
-- are those of buffers that fit a `size_t`. `none` is a division by zero, a write outside of
-- `tempBuffers`, a failed assertion of the frame queue, or the exit of `_checkerror`.
pub mod Play
pub mod Advance
pub mod Skip
pub mod Latest
pub mod Safe
pub mod Frames
pub mod Pace
pub mod Ready
pub mod Whole
pub mod Waits
pub mod InTime
pub mod Early
pub mod Late
pub mod Flow
mod Tests
use audio_sync.Base.{
  ℕ, zero, suc, ◌+◌, ◌-◌, ◌*◌, ◌/◌, ◌%◌, ◌^◌, Bool, true, false, not, ◌&&◌, Option, none, some,
  List, [], ◌∷◌, ◌>>=◌, ◌>>◌, assert, ltb, leb, ◌==◌, if◌then◌else◌, length,
}
use audio_sync.Base.Word.{sub64}
use audio_sync.Base.Int.{ℤ, pos, negsuc, ◌+ℤ◌, ◌-ℤ◌, ◌*ℤ◌, ltb_ℤ, quot}
use audio_sync.AppPacket.{second_micro}
use audio_sync.Fifo.{Fifo, read}
use audio_sync.Player.{Memory, Stretching, stretch_from, stretch}
use audio_sync.Player.Control.{is_zero, half}
use audio_sync.Player.Enqueue.{Mark}
use audio_sync.Player.OpenSl.{SlResult, check_error}

abbrev pub n_buffers : ℕ
n_buffers = 3

abbrev pub max_buffer_size : ℕ
max_buffer_size = 8192

-- The parameters of the device and of the stream: `global_framesPerBuffers`,
-- `current_samplesPerSec` and `current_numChannels`.
pub record Stream : Type 0 where
  pub frames_per_buffer : ℕ
  pub samples_per_sec : ℕ
  pub num_channels : ℕ

-- A frame is `num_channels` samples of 2 bytes.
abbrev pub frame_size : Stream → ℕ
frame_size st = st.num_channels * 2

-- The frames that fit `MAX_BUFFER_SIZE`.
abbrev pub max_frames : Stream → ℕ
max_frames st = max_buffer_size / frame_size st

-- What the code does with the samples of a frame: the means of two frames, all bytes 0, the first
-- half of the bytes 0, all bytes 1.
pub record FrameBytes (A : Type 0) : Type 0 where
  pub blend : A → A → A
  pub silent : A
  pub half_silent : A → A
  pub noise : A

-- The static variables that the callback reads and writes.
pub record Playback (A : Type 0) : Type 0 where
  pub fifo : Fifo A
  pub marks : List Mark
  pub last_mark : Mark
  pub queued_frames : ℕ
  pub temp_buffers : Memory A
  pub temp_ix : ℕ
  pub sync_time : ℤ
  pub accuracy : ℕ
  pub is_playing : Bool
  pub enable_jumps : Bool
  pub started : ℤ
  pub drop : ℤ
  pub diff : ℤ

-- What a call is told from outside: `nowUs`, the accuracy of the coarse clock, and what `Enqueue`
-- returns.
pub record Tick : Type 0 where
  pub now : ℤ
  pub coarse_accuracy : ℕ
  pub result : SlResult

-- What the code hands to `Enqueue`, if it calls it.
abbrev pub Output : Type 0 → Type 0
Output A = Option (List A)

-- `buf_ptr`, by the number of the frame: `maxBufferSize` counts bytes and moves it by as many samples.
abbrev pub buf_ptr : Stream → ℕ → ℕ
buf_ptr st ix = st.frames_per_buffer * 2 * ix

-- So many frames from a place on lie in `tempBuffers`.
abbrev pub in_buffers : Stream → ℕ → ℕ → Bool
in_buffers st base n = leb ((base + n) * st.num_channels) (max_buffer_size * n_buffers)

-- The request of the loop that skips frames.
abbrev pub skip_request : Stream → ℕ → ℕ
skip_request st drop = if ltb max_buffer_size (drop * frame_size st) then max_frames st else drop

-- The frames of a time in microseconds.
abbrev pub frames_of : Stream → ℤ → ℤ
frames_of st time = quot (time *ℤ pos st.samples_per_sec) second_micro

-- The marks at the front of the queue that the frames have reached: the last one of them, and the
-- queue behind it.
unfoldable pub dequeue_marks : ℕ → Mark → List Mark → Mark × List Mark
dequeue_marks queued last [] = (last, [])
dequeue_marks queued last (m ∷ marks) =
    let reached = dequeue_marks queued m marks in
    if leb m.frame_count queued then reached else (last, m ∷ marks)

module _ {A : Type 0} where
  -- `tempBuffers_ix` at the next buffer, and the place of that buffer.
  abbrev pub at_next : Playback A → Playback A
  at_next p = record p { temp_ix = (p.temp_ix + 1) % n_buffers }

  abbrev pub place : Stream → Playback A → ℕ
  place st p = buf_ptr st ((p.temp_ix + 1) % n_buffers)

  -- Frames in memory, and the memory with frames put into it.
  abbrev pub frames_at : Memory A → ℕ → ℕ → List A
  frames_at memory base zero = []
  frames_at memory base (suc n) = memory base ∷ frames_at memory (base + 1) n

  unfoldable pub put_frames : Memory A → ℕ → List A → Memory A
  put_frames memory base [] = memory
  put_frames memory base (x ∷ xs) =
      put_frames (λ j. if j == base then x else memory j) (base + 1) xs

  -- `memset` of whole frames.
  abbrev pub fill : Memory A → ℕ → ℕ → A → Memory A
  fill memory base n x j = if leb base j && ltb j (base + n) then x else memory j

  -- `audio_utils_fifo_read` into the buffer at a place.
  unfoldable pub read_frames : Stream → ℕ → ℕ → Playback A → Option (ℕ × Playback A)
  read_frames st base request p = do
    (n, frames, g) ← read p.fifo request
    assert (in_buffers st base n)
    some (n, record p { fifo = g; temp_buffers = put_frames p.temp_buffers base frames })

  abbrev pub count : ℕ → Playback A → Playback A
  count n p = record p { queued_frames = p.queued_frames + n }

  -- The loop that skips frames before the start. Each round takes a frame, or is the last one.
  unfoldable pub skip_frames : ℕ → Stream → ℕ → ℕ → Playback A → Option (Playback A)
  unfolding read_frames
  skip_frames zero st base drop p = none
  skip_frames (suc fuel) st base drop p = read_frames st base (skip_request st drop) p >>= λ (n, q).
      (let rest = skip_frames fuel st base (drop - n) (count n q) in
        if n == 0 then some q else if leb drop n then some (count n q) else rest)

  -- The time that it is late is positive.
  unfoldable pub skip_late : Stream → ℕ → ℤ → Playback A → Option (Playback A)
  unfolding skip_frames
  skip_late st base (pos n) p = skip_frames (suc n) st base n p
  skip_late st base (negsuc n) p = some p

  abbrev pub known_accuracy : Tick → Playback A → ℕ
  known_accuracy t p = if p.accuracy == 0 then t.coarse_accuracy else p.accuracy

  -- The start of the playback, if there was a synchronisation and it does not play yet.
  unfoldable pub start : Stream → Tick → ℕ → Playback A → Option (Playback A)
  unfolding skip_late
  start st t base p =
      let accuracy = known_accuracy t p in
      let diff = p.sync_time -ℤ t.now in
      let q = record p {
        accuracy = accuracy;
        is_playing = ltb_ℤ diff (pos accuracy);
        started = t.now;
      } in
      if not p.is_playing && not (is_zero p.sync_time)
      then if ltb_ℤ diff (pos 0 -ℤ pos accuracy)
        then skip_late st base (frames_of st (pos 0 -ℤ diff)) q
        else some q
      else some p

  unfoldable pub update_mark : Playback A → Playback A
  unfolding dequeue_marks
  update_mark p =
      let (last, marks) = dequeue_marks p.queued_frames p.last_mark p.marks in
      if leb p.last_mark.frame_count p.queued_frames
      then record p { last_mark = last; marks = marks }
      else p

  -- `correction`: the difference is a `size_t`, and so are the product and the quotient.
  abbrev pub correction : Stream → Playback A → ℕ
  correction st p =
      second_micro * sub64 p.queued_frames p.last_mark.frame_count % 2 ^ 64 / st.samples_per_sec

  -- How late the playback is; below 0 it is early.
  abbrev pub lateness : Stream → Tick → Playback A → ℤ
  lateness st t p = t.now -ℤ (p.sync_time +ℤ (p.last_mark.playback_time +ℤ pos (correction st p)))

  -- `Enqueue` of the frames in the buffer.
  abbrev pub emit : Tick → ℕ → ℕ → Playback A → Option (Output A × Playback A)
  emit t base n p = check_error t.result "_bqPlayerCallback" >>= λ logged.
      some (some (frames_at p.temp_buffers base n), p)
