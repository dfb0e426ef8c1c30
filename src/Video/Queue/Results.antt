-- ===== src/Video/Queue/Results.antt =====
-- What the loop with the queue does, in every order of the actions of its two threads.
use teraguchi.Common.{
  ℕ, ◌+◌, ◌%◌, ◌≤◌, ◌≡◌, ◌≢◌, refl, sym, ◌∙◌, subst, Bool, true, false, List, length, arith,
}
use teraguchi.Video.Encoder.{Settings, Encoding, Capture, Drain, run_sequential}
use teraguchi.Video.Encoder.Output.{Succeeds, Written, Flagged}
use teraguchi.Video.Encoder.Sequential.{Complete, run_sequential-Complete}
use teraguchi.Video.Gates.{
  feedback_is_early, reference_invalidation_requested, recovery_is_outside, requested_gates_passed,
  Complete-requested_gates_passed,
}
use teraguchi.Video.Queue.{
  Main, at_frame, encoding, queueing, joining, leaving, done, failed, Worker, draining, Threads,
  Action, run, start, nothing_encoded,
}
use teraguchi.Video.Queue.Order.{
  AtWorker, AtMain, AtWorker-le, encoded_at, breaks, has_failed, is_broken, Fate, broken, healthy,
}
use teraguchi.Video.Queue.Reach.{run-Fate, start-Fate, start-Complete}

-- What a run leaves: the files, the counts and the flags.
abbrev pub outputs : Encoding → List ℕ × (List ℕ × (ℕ × (ℕ × (ℕ × (Bool × Bool)))))
outputs e = (
  e.bitstream,
  (
    e.reference_bitstream,
    (
      e.bitstream_frames_written,
      (
        e.bitstream_frames_dropped,
        (e.encoded_bytes, (e.reference_invalidation_called, e.forced_idr_submitted)),
      ),
    ),
  ),
)

-- `main` works with the slot of its frame.
abbrev pub holds_slot : Main → Bool
holds_slot at_frame = false
holds_slot encoding = true
holds_slot queueing = true
holds_slot joining = false
holds_slot leaving = false
holds_slot done = false
holds_slot failed = false

module _ (picture_bytes : ℕ → List ℕ) (settings : Settings) where
  reached :
      (actions : List Action)
      → Fate picture_bytes settings (run picture_bytes settings start actions)
  reached actions =
      run-Fate picture_bytes settings actions start (start-Fate picture_bytes settings)

  -- A frame more than the two slots have is not encoded before one is freed.
  encoded_at_le :
      (m : Main) (count frame : ℕ) (input_done : Bool) (picture freed : ℕ)
      → AtMain count frame input_done picture m freed
      → frame ≤ freed + 2
      → encoded_at m frame ≤ freed + 2
  encoded_at_le at_frame count frame input_done picture freed at full = full
  encoded_at_le encoding count frame input_done picture freed at full = full
  encoded_at_le queueing count frame input_done picture freed at full = omega (arith, at.2)
  encoded_at_le joining count frame input_done picture freed at full = full
  encoded_at_le leaving count frame input_done picture freed at full = elim at [ ]
  encoded_at_le done count frame input_done picture freed at full = full
  encoded_at_le failed count frame input_done picture freed at full = elim at [ ]

  done-Complete :
      (t : Threads)
      → t.main ≡ done
      → Fate picture_bytes settings t
      → Complete picture_bytes settings t.encoding settings.frame_count
  unfolding is_broken breaks
  done-Complete t eq (broken b) = absurd (
      ground
        (arith, subst (λ (m : Main). breaks m (has_failed t.worker t.worker_error) ≡ true) eq b))
  done-Complete t eq (healthy taken written freed h) = record {
    written =
        subst (Written picture_bytes settings t.encoding) (omega (arith, order, at, h.taken_le))
          h.output;
    flagged =
        subst
          (λ (m : Main).
            Flagged picture_bytes settings t.encoding (encoded_at m settings.frame_count))
          eq
          (subst (λ (n : ℕ). Flagged picture_bytes settings t.encoding (encoded_at t.main n)) at.0
            h.flagged);
  }
    where
      order : (freed ≤ written) × (written ≤ taken)
      order = AtWorker-le t.worker t.frame t.input_done taken written freed h.worker

      at : (t.frame ≡ settings.frame_count) × (freed ≡ t.frame)
      at =
          subst
            (λ (m : Main).
              AtMain settings.frame_count t.frame t.input_done
                (t.encoding.slots (t.frame % 2)).picture m freed)
            eq h.main

  Complete-outputs :
      (e last : Encoding) (n : ℕ)
      → Complete picture_bytes settings e n
      → Complete picture_bytes settings last n
      → outputs e ≡ outputs last
  Complete-outputs e last n c d = cc (
    c.written.bitstream, d.written.bitstream, c.written.reference, d.written.reference, written,
    c.written.dropped, d.written.dropped, c.written.bytes, d.written.bytes, c.flagged.invalidated,
    d.flagged.invalidated, c.flagged.forced, d.flagged.forced,
  )
    where
      written : e.bitstream_frames_written ≡ last.bitstream_frames_written
      written =
          omega
            (arith, c.written.counted, d.written.counted, c.written.dropped ∙ sym d.written.dropped)

  -- A worker that drains a slot and a `main` that holds the slot of its frame.
  slots_apart :
      (m : Main) (i count frame : ℕ) (input_done : Bool) (picture taken written freed : ℕ)
      → holds_slot m ≡ true
      → taken ≤ frame
      → AtMain count frame input_done picture m freed
      → AtWorker frame input_done (draining i) taken written freed
      → i ≢ frame % 2
  slots_apart encoding i count frame input_done picture taken written freed e le at w =
      omega (arith, le, at, w)
  slots_apart queueing i count frame input_done picture taken written freed e le at w =
      omega (arith, le, at, w)
  slots_apart at_frame i count frame input_done picture taken written freed e le at w =
      absurd (ground (arith, e))
  slots_apart joining i count frame input_done picture taken written freed e le at w =
      absurd (ground (arith, e))
  slots_apart leaving i count frame input_done picture taken written freed e le at w =
      absurd (ground (arith, e))
  slots_apart done i count frame input_done picture taken written freed e le at w =
      absurd (ground (arith, e))
  slots_apart failed i count frame input_done picture taken written freed e le at w =
      absurd (ground (arith, e))

  unbroken : (m : Main) → holds_slot m ≡ true → breaks m false ≡ false
  unfolding breaks
  unbroken encoding e = refl
  unbroken queueing e = refl
  unbroken at_frame e = refl
  unbroken joining e = refl
  unbroken leaving e = absurd (ground (arith, e))
  unbroken done e = refl
  unbroken failed e = absurd (ground (arith, e))

  exclusive :
      (t : Threads) (i : ℕ)
      → t.worker ≡ draining i
      → holds_slot t.main ≡ true
      → Fate picture_bytes settings t
      → i ≢ t.frame % 2
  unfolding is_broken has_failed
  exclusive t i w m (broken b) = absurd (
      ground (
        arith,
        unbroken t.main m,
        subst (λ (w : Worker). breaks t.main (has_failed w t.worker_error) ≡ true) w b,
      ))
  exclusive t i w m (healthy taken written freed h) =
      slots_apart t.main i settings.frame_count t.frame t.input_done
        (t.encoding.slots (t.frame % 2)).picture taken written freed m h.taken_le h.main
        (subst (λ (w : Worker). AtWorker t.frame t.input_done w taken written freed) w h.worker)

  lost_before :
      (t : Threads)
      → feedback_is_early settings 1 ≡ false
      → is_broken t ≡ false
      → t.encoding.reference_invalidation_called ≡ true
      → Fate picture_bytes settings t
      → t.encoding.bitstream_frames_dropped ≡ 1
  unfolding feedback_is_early reference_invalidation_requested
  lost_before t two ok called (broken b) = absurd (ground (arith, ok, b))
  lost_before t two ok called (healthy taken written freed h) = ground (
    arith,
    two,
    called,
    h.flagged.invalidated,
    h.output.dropped,
    (AtWorker-le t.worker t.frame t.input_done taken written freed h.worker).0,
    encoded_at_le t.main settings.frame_count t.frame t.input_done
        (t.encoding.slots (t.frame % 2)).picture freed h.main h.full,
  )

  -- From the start, under every sequence of actions: while the worker drains a slot and `main` encodes a
  -- frame or puts it in the queue, the slot of the frame is not the one that is drained.
  pub drained-held :
      (actions : List Action) (i : ℕ)
      → (run picture_bytes settings start actions).worker ≡ draining i
      → holds_slot (run picture_bytes settings start actions).main ≡ true
      → i ≢ (run picture_bytes settings start actions).frame % 2
  drained-held actions i w m = exclusive _ i w m (reached actions)

  -- When the options pass the check of the feedback with a queue, then under every sequence of actions from
  -- the start, as long as no thread has met an exception: when the invalidation of the lost frame was
  -- called, the worker has already dropped that frame's picture.
  pub invalidated-dropped :
      (actions : List Action)
      → feedback_is_early settings 1 ≡ false
      → is_broken (run picture_bytes settings start actions) ≡ false
      → (run picture_bytes settings start actions).encoding.reference_invalidation_called ≡ true
      → (run picture_bytes settings start actions).encoding.bitstream_frames_dropped ≡ 1
  invalidated-dropped actions two ok called = lost_before _ two ok called (reached actions)

  -- When the options pass the check of the recovery frames, a run of the two threads that is done passes
  -- each of the gates that were asked for: the loss, the invalidation and the forced IDR frame.
  pub run-requested_gates_passed :
      (actions : List Action)
      → recovery_is_outside settings ≡ false
      → (run picture_bytes settings start actions).main ≡ done
      → requested_gates_passed settings (run picture_bytes settings start actions).encoding ≡ true
  run-requested_gates_passed actions within eq =
      Complete-requested_gates_passed picture_bytes settings _ within
        (done-Complete _ eq (reached actions))

  -- Under every sequence of actions from the start that is done, the two threads leave the same files, counts
  -- of frames written, frames dropped and bytes, and flags as a run without a queue that encodes and drains
  -- as many frames without an exception.
  pub run-run_sequential :
      (actions : List Action) (answers : List (Capture × Drain)) (last : Encoding)
      → (run picture_bytes settings start actions).main ≡ done
      → length answers ≡ settings.frame_count
      → run_sequential picture_bytes settings nothing_encoded 0 answers ≡ (last, true)
      → outputs (run picture_bytes settings start actions).encoding ≡ outputs last
  run-run_sequential actions answers last eq count ends =
      Complete-outputs _ last settings.frame_count (done-Complete _ eq (reached actions)) (
        subst (λ (n : ℕ). Complete picture_bytes settings last n) {x = 0 + length answers}
          (omega (arith, count))
          (subst (Succeeds (λ e. Complete picture_bytes settings e (0 + length answers))) ends (
            run_sequential-Complete picture_bytes settings answers nothing_encoded 0
              (start-Complete picture_bytes settings))))
