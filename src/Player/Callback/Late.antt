-- ===== src/Player/Callback/Late.antt =====
-- What `_bqPlayerCallback` (app/src/main/jni/audioplayer.cpp) enqueues when the playback is late.
use Prim.Native.String.{String}
use audio_sync.Base.{
  ℕ, ◌+◌, ◌-◌, ◌*◌, ◌/◌, ◌≡◌, List, ltb, length, drop, Option, some, if◌then◌else◌, get_elem?,
}
use audio_sync.Fifo.Refine.{contents}
use audio_sync.Player.Kept.{kept}
use audio_sync.Player.Callback.{Stream, max_frames, Playback, Output, max_buffer_size, frame_size}

-- How many frames are skipped: no more than the buffer has room for.
abbrev pub skipped : Stream → ℕ → ℕ
skipped st drop =
    if ltb max_buffer_size ((st.frames_per_buffer + drop) * frame_size st)
    then max_frames st - st.frames_per_buffer
    else drop

module _ {A : Type 0} where
  -- A full buffer, with the frame of the queue at a place of it.
  pub record CaughtUp (st : Stream) (d i : ℕ) (p : Playback A)
      (result : Option (Output A × Playback A)) : Type 0 where
    pub frames : List A
    pub next : Playback A
    pub source : ℕ
    pub runs : result ≡ some (some frames, next)
    pub whole : length frames ≡ st.frames_per_buffer
    pub stays :
        get_elem? (kept ((st.frames_per_buffer + d) / d) d (st.frames_per_buffer + d) 0) i
        ≡ some source
    pub heard : get_elem? frames i ≡ get_elem? (contents p.fifo) source
    pub rest : contents next.fifo ≡ drop (st.frames_per_buffer + d) (contents p.fifo)
