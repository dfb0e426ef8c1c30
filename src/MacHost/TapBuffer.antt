-- ===== src/MacHost/TapBuffer.antt =====
-- apps/host/macos/media/audio-tap-buffer.h: the ring of blocks between the audio device's thread and
-- the session's queue. The values of a sample are a parameter, with the test `isfinite`; memory of
-- samples is a function of the index.
pub mod Copy
pub mod Fifo
pub mod Refinement
pub mod Runs
mod Tests
use teraguchi.Common.{
  ℕ, zero, suc, ◌+◌, ◌-◌, ◌*◌, ◌%◌, ◌^◌, Bool, true, false, not, ◌||◌, ◌&&◌, Option, none, some,
  ltb, leb, ◌==◌, if◌then◌else◌,
}

-- `PLANKTapSlots` and `PLANKTapMaxFrames`
abbrev pub slots : ℕ
slots = 16

abbrev pub max_frames : ℕ
max_frames = 8192

-- `a[k] = v`
unfoldable pub store_at {ℓ} : {A : Type ℓ} → (ℕ → A) → ℕ → A → ℕ → A
store_at a k v i = if i == k then v else a i

module _ (F : Type 0) where
  pub record TapBlock : Type 0 where
    pub frames : ℕ
    pub host_time : ℕ
    pub samples : ℕ → F

  pub record TapBuffer : Type 0 where
    pub read_index : ℕ
    pub write_index : ℕ
    pub failed : ℕ
    pub overruns : ℕ
    pub stopped : Bool
    pub blocks : ℕ → TapBlock

module _ {F : Type 0} where
  -- The indices and flags that the initialiser sets; the blocks stay as they are.
  unfoldable pub init : (ℕ → TapBlock F) → TapBuffer F
  init blocks = record {
    read_index = 0;
    write_index = 0;
    failed = 0;
    overruns = 0;
    stopped = false;
    blocks = blocks;
  }

  unfoldable pub left_sample : (ℕ → F) → Option (ℕ → F) → ℕ → F
  left_sample left none i = left (i * 2)
  left_sample left (some right) i = left i

  unfoldable pub right_sample : (ℕ → F) → Option (ℕ → F) → ℕ → F
  right_sample left none i = left (i * 2 + 1)
  right_sample left (some right) i = right i

  unfoldable pub store_frame : (ℕ → F) → ℕ → F → F → ℕ → F
  unfolding store_at
  store_frame samples i l r = store_at (store_at samples (i * 2) l) (i * 2 + 1) r

  -- The loop over the frames from `i`, with `n` of them left: it stops at a value that is not finite.
  unfoldable pub copy_frames :
      (F → Bool) → (ℕ → F) → Option (ℕ → F) → ℕ → ℕ → (ℕ → F) → Bool × (ℕ → F)
  copy_frames is_finite left right zero i samples = (true, samples)
  copy_frames is_finite left right (suc n) i samples =
      let l = left_sample left right i in
      let r = right_sample left right i in
      let rest = copy_frames is_finite left right n (suc i) (store_frame samples i l r) in
      if not (is_finite l) || not (is_finite r) then (false, samples) else rest

  -- The part of a push behind its tests: it fills the slot and publishes it where all went well.
  unfoldable pub fill_slot :
      (F → Bool) → TapBuffer F → (ℕ → F) → Option (ℕ → F) → ℕ → ℕ → TapBuffer F × Bool
  unfolding store_at
  fill_slot is_finite buffer left right frames host_time =
      let slot = buffer.write_index % slots in
      let copied = copy_frames is_finite left right frames 0 (buffer.blocks slot).samples in
      let block : TapBlock F = record {
        frames = frames;
        host_time = host_time;
        samples = copied.1;
      } in
      let filled : TapBuffer F = record buffer { blocks = store_at buffer.blocks slot block } in
      if copied.0
      then (record filled { write_index = (buffer.write_index + 1) % 2 ^ 32 }, true)
      else (record filled { failed = 1 }, false)

  unfoldable pub push :
      (F → Bool) → TapBuffer F → Option (ℕ → F) → Option (ℕ → F) → ℕ → ℕ → TapBuffer F × Bool
  push is_finite buffer none right frames host_time =
      if buffer.stopped then (buffer, false) else (record buffer { failed = 1 }, false)
  push is_finite buffer (some left) right frames host_time =
      if buffer.stopped
      then (buffer, false)
      else if frames == 0 || ltb max_frames frames || host_time == 0
      then (record buffer { failed = 1 }, false)
      else if leb slots ((buffer.write_index + (2 ^ 32 - buffer.read_index)) % 2 ^ 32)
      then (record buffer { overruns = (buffer.overruns + 1) % 2 ^ 32 }, false)
      else fill_slot is_finite buffer left right frames host_time

  unfoldable pub peek : TapBuffer F → Option (TapBlock F)
  peek buffer =
      if buffer.read_index == buffer.write_index
      then none
      else some (buffer.blocks (buffer.read_index % slots))

  unfoldable pub pop : TapBuffer F → TapBuffer F
  pop buffer = record buffer { read_index = (buffer.read_index + 1) % 2 ^ 32 }

  unfoldable pub discard_overrun : TapBuffer F → TapBuffer F × ℕ
  discard_overrun buffer =
      let cleared : TapBuffer F = record buffer { overruns = 0 } in
      if buffer.overruns == 0
      then (cleared, buffer.overruns)
      else (record cleared { read_index = buffer.write_index }, buffer.overruns)
