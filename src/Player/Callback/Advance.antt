-- ===== src/Player/Callback/Advance.antt =====
-- How the frame queue and the number of queued frames move together in `_bqPlayerCallback`
-- (app/src/main/jni/audioplayer.cpp), when it reads and when it skips frames.
use audio_sync.Base.{
  ℕ, zero, suc, ◌+◌, ◌*◌, ◌/◌, ◌≤◌, ◌<◌, ◌≡◌, refl, sym, ap, ◌∙◌, true, false, some, List, [], ◌∷◌,
  arith, leb, ltb, length, drop, length-drop, length-take,
}
use native.Mathlib.Nat.{le-div_iff_mul-le, div-mul-le_self}
use audio_sync.Fifo.{Fifo}
use audio_sync.Fifo.Inv.{IsValid}
use audio_sync.Fifo.Refine.{contents}
use audio_sync.Fifo.Take.{Took, read_lem}
use audio_sync.Player.{Memory}
use audio_sync.Player.Callback.{
  max_buffer_size, Stream, frame_size, max_frames, Playback, put_frames, read_frames, count,
  buf_ptr,
}

-- The buffers of the device are smaller than `MAX_BUFFER_SIZE` by a frame or more, rate and
-- channels are not 0.
pub record IsBuffered (st : Stream) : Type 0 where
  pub channels : 0 < st.num_channels
  pub rate : 0 < st.samples_per_sec
  pub fits : (st.frames_per_buffer + 1) * frame_size st ≤ max_buffer_size

-- From a place on there is room for as many frames as are ever asked for.
abbrev pub HasRoom : Stream → ℕ → Type 0
HasRoom st base = (base + max_frames st) * st.num_channels ≤ 24576

frames_fit : (n m c : ℕ) → 0 < c → m * (c * 2) ≤ 8192 → m ≤ 8192 / (c * 2)
frames_fit n m c pos h = (le-div_iff_mul-le {k = c * 2} {x = m} {y = 8192} (omega arith)).1 h

pub below_max : {st : Stream} → IsBuffered st → st.frames_per_buffer < max_frames st
below_max {st} b =
    omega (arith, frames_fit 0 (st.frames_per_buffer + 1) st.num_channels b.channels b.fits)

pub request_fits :
    {st : Stream} (n : ℕ)
    → IsBuffered st
    → ltb max_buffer_size (n * frame_size st) ≡ false
    → n ≤ max_frames st
request_fits {st} n b h = frames_fit 0 n st.num_channels b.channels (not_more (n * frame_size st) h)
  where
    not_more : (x : ℕ) → ltb 8192 x ≡ false → x ≤ 8192
    not_more x e = ground arith

room_for :
    (f c m ix : ℕ)
    → ix < 3
    → (f + 1) * (c * 2) ≤ 8192
    → m * (c * 2) ≤ 8192
    → (f * 2 * ix + m) * c ≤ 24576
room_for f c m ix small h k = grind arith

pub buf_ptr-HasRoom : {st : Stream} (ix : ℕ) → IsBuffered st → ix < 3 → HasRoom st (buf_ptr st ix)
buf_ptr-HasRoom {st} ix b small =
    room_for st.frames_per_buffer st.num_channels (max_frames st) ix small b.fits
      (omega (arith, div-mul-le_self 8192 (st.num_channels * 2)))

pub in_bounds :
    (base n m c : ℕ) → n ≤ m → (base + m) * c ≤ 24576 → leb ((base + n) * c) (8192 * 3) ≡ true
in_bounds base n m c le h =
    below ((base + n) * c) (within ((base + n) * c) ((base + m) * c) (grind arith) h)
  where
    within : (x y : ℕ) → x ≤ y → y ≤ 24576 → x ≤ 24576
    within x y a b = omega arith

    below : (x : ℕ) → x ≤ 24576 → leb x 24576 ≡ true
    below x a = ground arith

drop-nil : {A : Type 0} (m : ℕ) → drop {A = A} m [] ≡ []
drop-nil zero = refl
drop-nil (suc m) = refl

pub drop-drop : {A : Type 0} (n m : ℕ) (xs : List A) → drop m (drop n xs) ≡ drop (n + m) xs
drop-drop zero m xs = ap (λ k. drop k xs) (omega arith)
drop-drop (suc n) m [] = drop-nil m ∙ sym (drop-nil (suc n + m))
drop-drop (suc n) m (x ∷ xs) = drop-drop n m xs ∙ ap (λ k. drop k (x ∷ xs)) succ
  where
    succ : suc (n + m) ≡ suc n + m
    succ = omega arith

module _ {A : Type 0} where
  -- The frames that leave the queue are its oldest, and are counted. The rest of the state that the
  -- next call depends on stays.
  pub record Advance (p q : Playback A) : Type 0 where
    pub taken : ℕ
    pub enough : taken ≤ length (contents p.fifo)
    pub queued : q.queued_frames ≡ p.queued_frames + taken
    pub rest : contents q.fifo ≡ drop taken (contents p.fifo)
    pub valid : IsValid q.fifo
    pub accuracy : q.accuracy ≡ p.accuracy
    pub is_playing : q.is_playing ≡ p.is_playing
    pub last_mark : q.last_mark ≡ p.last_mark
    pub kept : q.fifo.frame_count ≡ p.fifo.frame_count

  pub stand : {p : Playback A} → IsValid p.fifo → Advance p p
  stand {p} v = record {
    taken = 0;
    enough = omega arith;
    queued = omega arith;
    rest = refl;
    valid = v;
    accuracy = refl;
    is_playing = refl;
    last_mark = refl;
    kept = refl;
  }

  pub advance_trans : {p q r : Playback A} → Advance p q → Advance q r → Advance p r
  advance_trans {p} {q} {r} a b = record {
    taken = a.taken + b.taken;
    enough =
        omega (arith, a.enough, b.enough, ap length a.rest, length-drop a.taken (contents p.fifo));
    queued = omega (arith, a.queued, b.queued);
    rest = b.rest ∙ ap (drop b.taken) a.rest ∙ drop-drop a.taken b.taken (contents p.fifo);
    valid = b.valid;
    accuracy = b.accuracy ∙ a.accuracy;
    is_playing = b.is_playing ∙ a.is_playing;
    last_mark = b.last_mark ∙ a.last_mark;
    kept = b.kept ∙ a.kept;
  }

  -- What is put into the buffers does not matter.
  pub repainted :
      {p q : Playback A} (memory : Memory A)
      → Advance p q
      → Advance p (record q { temp_buffers = memory })
  repainted memory a = record {
    taken = a.taken;
    enough = a.enough;
    queued = a.queued;
    rest = a.rest;
    valid = a.valid;
    accuracy = a.accuracy;
    is_playing = a.is_playing;
    last_mark = a.last_mark;
    kept = a.kept;
  }

  abbrev pub with_frames : ℕ → List A → Fifo A → Playback A → Playback A
  with_frames base frames g p = record p {
    fifo = g;
    temp_buffers = put_frames p.temp_buffers base frames;
  }

  -- The frames that a read of `request` frames hands over are counted afterwards.
  pub record Reads (st : Stream) (base request : ℕ) (p : Playback A) : Type 0 where
    pub n : ℕ
    pub frames : List A
    pub next : Fifo A
    pub runs : read_frames st base request p ≡ some (n, with_frames base frames next p)
    pub took : Took p.fifo request n frames next
    pub length_frames : length frames ≡ n

  pub read_frames_lem :
      (st : Stream) (base request m : ℕ) (p : Playback A)
      → IsValid p.fifo
      → request ≤ m
      → (base + m) * st.num_channels ≤ 24576
      → Reads st base request p
  unfolding read_frames
  read_frames_lem st base request m p v le room =
      let (n, frames, g, e, t) = read_lem request v in
      record {
        n = n;
        frames = frames;
        next = g;
        runs = simp (e, in_bounds base n m st.num_channels (omega (arith, t.amount)) room) refl;
        took = t;
        length_frames =
            ap length t.oldest ∙ length-take n (contents p.fifo) ∙ omega (arith, t.amount);
      }

  pub counted :
      {st : Stream} {base request : ℕ} {p : Playback A} (r : Reads st base request p)
      → Advance p (count r.n (with_frames base r.frames r.next p))
  counted r = record {
    taken = r.n;
    enough = omega (arith, r.took.amount);
    queued = refl;
    rest = r.took.rest;
    valid = r.took.valid;
    accuracy = refl;
    is_playing = refl;
    last_mark = refl;
    kept = r.took.kept;
  }

  -- Nothing was read: the queue was empty, or nothing was asked for.
  pub uncounted :
      {st : Stream} {base request : ℕ} {p : Playback A} (r : Reads st base request p)
      → r.n ≡ 0
      → Advance p (with_frames base r.frames r.next p)
  uncounted {p} r e = record {
    taken = 0;
    enough = omega arith;
    queued = omega arith;
    rest = r.took.rest ∙ ap (λ k. drop k (contents p.fifo)) e;
    valid = r.took.valid;
    accuracy = refl;
    is_playing = refl;
    last_mark = refl;
    kept = r.took.kept;
  }
