-- ===== src/Player.antt =====
-- app/src/main/jni/audioplayer.cpp: the loop of the buffer queue callback that drops frames to catch up.
pub mod Control
pub mod Rate
pub mod Enqueue
pub mod OpenSl
pub mod Device
pub mod Callback
pub mod Init
pub mod Marks
pub mod Stretch
pub mod Catchup
mod Tests
pub mod Kept
use audio_sync.Base.{
  ℕ, zero, suc, ◌+◌, ◌-◌, ◌/◌, ◌%◌, Bool, ◌&&◌, Option, none, some, ltb, ◌==◌, if◌then◌else◌,
}

-- The buffer of the callback, by the number of the frame.
abbrev pub Memory {ℓ} : Type ℓ → Type ℓ
Memory A = ℕ → A

abbrev pub set {ℓ} : {A : Type ℓ} → Memory A → ℕ → A → Memory A
set memory i x j = if j == i then x else memory j

-- The local variables of the loop, and the buffer.
pub record Stretching {ℓ} (A : Type ℓ) : Type ℓ where
  pub memory : Memory A
  pub n_frame : ℕ
  pub drop : ℕ

-- `blend` takes the mean of two frames in each channel.
module _ {ℓ} {A : Type ℓ} (blend : A → A → A) where
  -- The body of the loop: a frame is blended with the next one, or moved to its place.
  unfoldable pub stretch_frame : ℕ → ℕ → Stretching A → Stretching A
  stretch_frame modulus frame s =
      if ltb 0 s.drop && frame % modulus == 0
      then record {
        memory = set s.memory s.n_frame (blend (s.memory frame) (s.memory (frame + 1)));
        n_frame = s.n_frame;
        drop = s.drop - 1;
      }
      else record {
        memory = set s.memory s.n_frame (s.memory frame);
        n_frame = s.n_frame + 1;
        drop = s.drop;
      }

  -- The loop from a frame on, for the frames that are left.
  unfoldable pub stretch_from : ℕ → ℕ → ℕ → Stretching A → Stretching A
  unfolding stretch_frame
  stretch_from modulus zero frame s = s
  stretch_from modulus (suc remaining) frame s =
      stretch_from modulus remaining (frame + 1) (stretch_frame modulus frame s)

  -- The loop over the frames that were read; `none` is the division by zero in `mod`.
  unfoldable pub stretch : Memory A → ℕ → ℕ → Option (Stretching A)
  unfolding stretch_from
  stretch memory frame_count drop =
      if drop == 0
      then none
      else some (
          stretch_from (frame_count / drop) frame_count 0
            (record { memory = memory; n_frame = 0; drop = drop }))
