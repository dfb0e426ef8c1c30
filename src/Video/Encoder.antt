-- ===== src/Video/Encoder.antt =====
-- The encoding of frames by `main`: the loop over the frames, `drain_slot`, the worker that drains the slots
-- where there is a queue, and the end of both. An action is what one thread does under one lock or
-- between two; an action that is not its thread's turn, or a wait that goes on, leaves the state as it is.
-- `picture_bytes` is what the encoder makes of the picture with a time stamp. What the calls answer is
-- given with the action. A write that fails leaves its file as it was. The times are left out.
pub mod Output
pub mod Sequential
use teraguchi.Common.{
  ℕ, zero, suc, ◌+◌, ◌%◌, Bool, true, false, not, ◌&&◌, ◌||◌, List, [], ◌∷◌, ◌++◌, length, ltb,
  ◌==◌, ◌!=◌, if◌then◌else◌,
}
use teraguchi.Common.Families.{update}

pub record Settings : Type 0 where
  pub frame_count : ℕ
  pub simulate_loss_frame : ℕ
  pub invalidate_delay_frames : ℕ
  pub reference_invalidation_enabled : Bool
  pub force_idr_frame : ℕ
  pub has_reference_bitstream : Bool

-- `picture` is the time stamp of the picture that was submitted with the slot's buffers.
pub record EncodeSlot : Type 0 where
  pub mapped : Bool
  pub bitstream_locked : Bool
  pub picture : ℕ

-- What `drain_slot` and the loop over the frames write.
pub record Encoding : Type 0 where
  pub slots : ℕ → EncodeSlot
  pub bitstream : List ℕ
  pub reference_bitstream : List ℕ
  pub bitstream_frames_written : ℕ
  pub bitstream_frames_dropped : ℕ
  pub encoded_bytes : ℕ
  pub new_frames : ℕ
  pub reference_invalidation_called : Bool
  pub forced_idr_submitted : Bool

-- `grabs` is the capture with its geometry.
pub record Capture : Type 0 where
  pub invalidates : Bool
  pub grabs : Bool
  pub is_new : Bool
  pub converts : Bool
  pub maps : Bool
  pub encodes : Bool

pub record Drain : Type 0 where
  pub locks : Bool
  pub writes_reference : Bool
  pub writes : Bool
  pub unlocks : Bool
  pub unmaps : Bool

-- A step that throws ends what follows it.
abbrev pub then_if : Bool → Encoding → Encoding × Bool → Encoding × Bool
then_if true e rest = rest
then_if false e rest = (e, false)

abbrev pub set_slot : Encoding → ℕ → EncodeSlot → Encoding
set_slot e i slot = record e { slots = update e.slots i slot }

module _ (picture_bytes : ℕ → List ℕ) (settings : Settings) where
  unfoldable pub write_picture : Encoding → ℕ → Encoding
  write_picture e stamp =
      if settings.simulate_loss_frame != 0 && stamp == settings.simulate_loss_frame
      then record e { bitstream_frames_dropped = e.bitstream_frames_dropped + 1 }
      else record e {
        bitstream = e.bitstream ++ picture_bytes stamp;
        bitstream_frames_written = e.bitstream_frames_written + 1;
        encoded_bytes = e.encoded_bytes + length (picture_bytes stamp);
      }

  unfoldable pub write_reference : Encoding → ℕ → Encoding
  write_reference e stamp =
      if settings.has_reference_bitstream
      then record e { reference_bitstream = e.reference_bitstream ++ picture_bytes stamp }
      else e

  unfoldable pub release_slot : Encoding → ℕ → Drain → Encoding × Bool
  release_slot e i drain =
      let unlocked = set_slot e i (record (e.slots i) { bitstream_locked = false }) in
      let unmapped = set_slot unlocked i (record (unlocked.slots i) { mapped = false }) in
      then_if drain.unlocks e (then_if drain.unmaps unlocked (unmapped, true))

  -- The bitstream of a slot is locked: its picture is written and the slot released.
  unfoldable pub drain_locked : Encoding → ℕ → ℕ → Drain → Encoding × Bool
  drain_locked locked stamp i drain =
      let referenced = write_reference locked stamp in
      then_if (not settings.has_reference_bitstream || drain.writes_reference) locked (
        then_if
          (settings.simulate_loss_frame != 0 && stamp == settings.simulate_loss_frame
            || drain.writes)
          referenced (release_slot (write_picture referenced stamp) i drain))

  unfoldable pub drain_slot : Encoding → ℕ → Drain → Encoding × Bool
  drain_slot e i drain =
      let locked = set_slot e i (record (e.slots i) { bitstream_locked = true }) in
      then_if drain.locks e (drain_locked locked (e.slots i).picture i drain)

  -- The frame whose feedback about the loss has come.
  abbrev pub invalidates_at : ℕ → Bool
  invalidates_at frame_id =
      settings.simulate_loss_frame != 0
      && (settings.reference_invalidation_enabled
          && frame_id == settings.simulate_loss_frame + settings.invalidate_delay_frames)

  unfoldable pub invalidate : Encoding → ℕ → Encoding
  invalidate e frame_id = record e {
    reference_invalidation_called =
        (if invalidates_at frame_id then true else e.reference_invalidation_called);
  }

  -- The slot is mapped and the picture set up, then the picture is submitted.
  unfoldable pub set_up_picture : Encoding → ℕ → ℕ → Encoding
  set_up_picture e i frame_id = record (set_slot e i (record (e.slots i) { mapped = true })) {
    forced_idr_submitted =
        (if frame_id == settings.force_idr_frame then true else e.forced_idr_submitted);
  }

  unfoldable pub submit_picture : Encoding → ℕ → ℕ → Encoding
  submit_picture e i frame_id = set_slot e i (record (e.slots i) { picture = frame_id })

  -- The part of a round of the loop in front of the output.
  unfoldable pub encode_frame : Encoding → ℕ → Capture → Encoding × Bool
  encode_frame e frame capture =
      let i = frame % 2 in
      let invalidated = invalidate e (frame + 1) in
      let grabbed = record invalidated {
        new_frames = invalidated.new_frames + (if capture.is_new then 1 else 0);
      } in
      let mapped = set_up_picture grabbed i (frame + 1) in
      then_if (not (invalidates_at (frame + 1)) || capture.invalidates) e (
        then_if capture.grabs invalidated (
          then_if capture.converts grabbed (
            then_if capture.maps grabbed
              (then_if capture.encodes mapped (submit_picture mapped i (frame + 1), true)))))

  -- The loop without a queue, from a frame on: each slot is drained at once.
  unfoldable pub encode_and_drain : Encoding → ℕ → Capture × Drain → Encoding × Bool
  encode_and_drain e frame (capture, drain) =
      let (encoded, ok) = encode_frame e frame capture in
      then_if ok encoded (drain_slot encoded (frame % 2) drain)

  unfoldable pub run_sequential : Encoding → ℕ → List (Capture × Drain) → Encoding × Bool
  run_sequential e frame [] = (e, true)
  run_sequential e frame (answers ∷ rest) =
      let (next, ok) = encode_and_drain e frame answers in
      then_if ok next (run_sequential next (suc frame) rest)
