-- ===== src/Player/Callback/Play.antt =====
-- The part of `_bqPlayerCallback` (app/src/main/jni/audioplayer.cpp) that fills a buffer and enqueues
-- it, and the callback as a whole.
use audio_sync.Base.{
  ℕ, ◌+◌, ◌-◌, ◌*◌, ◌/◌, ◌%◌, not, ◌&&◌, Option, none, some, ◌>>=◌, ◌>>◌, assert, ltb, leb, ◌==◌,
  if◌then◌else◌,
}
use audio_sync.Base.Int.{ℤ, pos, negsuc, ◌-ℤ◌, ltb_ℤ}
use audio_sync.Player.{Memory, Stretching, stretch_from, stretch}
use audio_sync.Player.Callback.{
  at_next, place, max_buffer_size, Stream, frame_size, max_frames, FrameBytes, Playback, Tick,
  Output, in_buffers, fill, read_frames, count, frames_of, start, update_mark, lateness, emit,
}

module _ {A : Type 0} (bytes : FrameBytes A) where
  -- A buffer full of bytes 1.
  unfoldable pub play_noise : Stream → Tick → ℕ → Playback A → Option (Output A × Playback A)
  play_noise st t base p =
      let n = st.frames_per_buffer in
      assert (in_buffers st base n)
      >> emit t base n (record p { temp_buffers = fill p.temp_buffers base n bytes.noise })

  -- `memset` of `ahead * num_channels` bytes: half of the samples of `ahead` frames.
  abbrev pub fill_silence : Memory A → ℕ → ℕ → Memory A
  fill_silence memory base ahead j =
      if leb base j && ltb j (base + ahead / 2)
      then bytes.silent
      else if j == base + ahead / 2 && ahead % 2 == 1
      then bytes.half_silent (memory j)
      else memory j

  -- The playback is so many frames early. The caller's `-drop` is not negative: the time is at most
  -- half the accuracy below 0.
  unfoldable pub play_early : Stream → Tick → ℕ → ℤ → Playback A → Option (Output A × Playback A)
  unfolding play_noise read_frames
  play_early st t base (negsuc n) p = none
  play_early st t base (pos ahead) p =
      if ltb ahead st.frames_per_buffer
      then (read_frames st (base + ahead) (st.frames_per_buffer - ahead) p >>= λ (n, q).
          if n == 0
          then play_noise st t base q
          else emit t base st.frames_per_buffer
              (count n (record q { temp_buffers = fill_silence q.temp_buffers base ahead })))
      else play_noise st t base p

  -- The loop that takes `drop` frames out, on the buffer from a place on. Below 0, `drop > 0` never
  -- holds, and `mod` is not asked for.
  unfoldable pub stretch_at : Memory A → ℕ → ℕ → ℤ → Option (Memory A)
  unfolding stretch stretch_from
  stretch_at memory base n drop =
      stretched drop >>= λ s. some (λ j. if leb base j then s.memory (j - base) else memory j)
    where
      local : Memory A
      local i = memory (base + i)

      stretched : ℤ → Option (Stretching A)
      stretched (pos d) = stretch bytes.blend local n d
      stretched (negsuc d) =
          some (stretch_from bytes.blend 0 n 0 (record { memory = local; n_frame = 0; drop = 0 }))

  -- The frames that were read; so many are to go out when the playback is late.
  unfoldable pub play_frames :
      Stream → Tick → ℕ → ℕ → Option ℤ → Playback A → Option (Output A × Playback A)
  unfolding read_frames stretch_at
  play_frames st t base request late p = read_frames st base request p >>= λ (n, q).
      if n == 0 then some (none, q) else fill_buffer n q late
    where
      fill_buffer : ℕ → Playback A → Option ℤ → Option (Output A × Playback A)
      fill_buffer n q none = emit t base n (count n q)
      fill_buffer n q (some drop) =
          if n == request
          then (stretch_at q.temp_buffers base n drop >>= λ memory.
              emit t base st.frames_per_buffer (count n (record q { temp_buffers = memory })))
          else emit t base n (count n q)

  -- Late: more frames are asked for, as many as the buffer holds. The caller's `drop` is not negative:
  -- the time is at least half the accuracy.
  unfoldable pub play_late : Stream → Tick → ℕ → ℤ → Playback A → Option (Output A × Playback A)
  unfolding play_frames
  play_late st t base (negsuc n) p = none
  play_late st t base (pos drop) p =
      let request = st.frames_per_buffer + drop in
      if ltb max_buffer_size (request * frame_size st)
      then play_frames st t base (max_frames st)
          (some (pos (max_frames st) -ℤ pos st.frames_per_buffer)) p
      else play_frames st t base request (some (pos drop)) p

  -- The playback, once it is known how late it is.
  unfoldable pub play_at : Stream → Tick → ℕ → ℤ → Playback A → Option (Output A × Playback A)
  unfolding play_late play_early play_frames
  play_at st t base diff p =
      let drop = frames_of st diff in
      let q = record p { drop = drop; diff = diff } in
      if p.enable_jumps && not (ltb_ℤ diff (pos (p.accuracy / 2)))
      then play_late st t base drop q
      else if p.enable_jumps && not (ltb_ℤ (pos 0 -ℤ pos (p.accuracy / 2)) diff)
      then play_early st t base (pos 0 -ℤ drop) q
      else play_frames st t base st.frames_per_buffer none q

  unfoldable pub play : Stream → Tick → ℕ → Playback A → Option (Output A × Playback A)
  unfolding play_at update_mark
  play st t base p =
      let q = update_mark p in
      assert (not (st.samples_per_sec == 0)) >> play_at st t base (lateness st t q) q

  -- The callback as a whole.
  unfoldable pub callback : Stream → Tick → Playback A → Option (Output A × Playback A)
  unfolding start play play_noise
  callback st t p = start st t (place st p) (at_next p) >>= λ q.
      if q.is_playing then play st t (place st p) q else play_noise st t (place st p) q
