-- ===== src/Fifo/Refine.antt =====
-- The contents of the queue of audioutils/fifo.cpp, as a list.
use audio_sync.Base.{
  ℕ, ◌+◌, ◌-◌, ◌≡◌, none, List, ◌++◌, arith, ltb, leb, if◌then◌else◌, length, get_elem?, take, drop,
  length-append, length-take, length-drop, get_elem?-append, get_elem?-take, get_elem?-drop,
}
use audio_sync.Fifo.{Fifo}
use audio_sync.Fifo.Index.{position}
use audio_sync.Fifo.Inv.{IsSized, Spans, distance, distance-le}

module _ {A : Type 0} where
  -- The frames between two indices, oldest first.
  unfoldable pub between : Fifo A → ℕ → ℕ → List A
  between f rear front =
      let pos = position f.frame_count_p2 front in
      take (distance f rear front) (drop pos f.buffer ++ take pos f.buffer)

  unfoldable pub contents : Fifo A → List A
  contents f = between f f.rear f.front

  pub get_elem?-between :
      {f : Fifo A} {rear front : ℕ} (i : ℕ)
      → IsSized f
      → Spans f rear front
      → get_elem? (between f rear front) i ≡ (
          if ltb i (distance f rear front)
          then get_elem? f.buffer (
              if leb f.frame_count (position f.frame_count_p2 front + i)
              then position f.frame_count_p2 front + i - f.frame_count
              else position f.frame_count_p2 front + i)
          else none)
  unfolding between
  get_elem?-between {f} {rear} {front} i s v = ground (
    arith,
    get_elem?-take (distance f rear front) (drop pos f.buffer ++ take pos f.buffer) i,
    get_elem?-append (drop pos f.buffer) (take pos f.buffer) i,
    get_elem?-drop pos f.buffer i,
    get_elem?-take pos f.buffer (i - length (drop pos f.buffer)),
    length-drop pos f.buffer,
    distance-le s v,
  )
    where
      pos : ℕ
      pos = position f.frame_count_p2 front

  pub length-between :
      {f : Fifo A} {rear front : ℕ}
      → IsSized f
      → Spans f rear front
      → length (between f rear front) ≡ distance f rear front
  unfolding between
  length-between {f} {rear} {front} s v = omega (
    arith,
    length-take (distance f rear front) (drop pos f.buffer ++ take pos f.buffer),
    length-append (drop pos f.buffer) (take pos f.buffer),
    length-drop pos f.buffer,
    length-take pos f.buffer,
    distance-le s v,
    s.memory,
  )
    where
      pos : ℕ
      pos = position f.frame_count_p2 front
