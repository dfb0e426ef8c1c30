-- ===== src/Video/Tests.antt =====
-- Runs of the video pipeline probe's two threads at fixed inputs.
use mathlib.Core.List.{flatten}
use teraguchi.Common.{
  ℕ, zero, suc, ◌+◌, ◌%◌, ◌≡◌, ◌≢◌, refl, true, false, List, [], ◌∷◌, arith, All, inl, inr,
}
use teraguchi.Video.Encoder.{
  Settings, Capture, Drain, encode_frame, invalidate, set_up_picture, submit_picture, drain_slot,
  drain_locked, write_reference, write_picture, release_slot, encode_and_drain, run_sequential,
}
use teraguchi.Video.Gates.{
  feedback_is_early, recovery_is_outside, reference_invalidation_requested, requested_gates_passed,
}
use teraguchi.Video.Queue.{
  done, failed, Action, acquires, encodes, queues, joins, takes, drains, frees, act, run, start,
  acquire, encode, encoded, queue, take_slot, take_pending, drain_one, drained, free, join,
  join_stopped, nothing_encoded,
}
use teraguchi.Video.Queue.Results.{
  outputs, drained-held, invalidated-dropped, run-requested_gates_passed, run-run_sequential,
}
use teraguchi.Video.Queue.Order.{is_broken, breaks, has_failed}
use teraguchi.Video.Queue.Left.{is_over}
use teraguchi.Video.Queue.Moves.{
  acquiring, encoding_frame, queueing_slot, ending, taking, draining_slot, freeing_slot,
}
use teraguchi.Video.Queue.Fair.{IsFair, fair_run-is_over}
use teraguchi.Video.Queue.Unbroken.{Succeeding}
use teraguchi.Video.Queue.Success.{fair_run-done}

abbrev settings : Settings
settings = record {
  frame_count = 3;
  simulate_loss_frame = 1;
  invalidate_delay_frames = 2;
  reference_invalidation_enabled = true;
  force_idr_frame = 2;
  has_reference_bitstream = true;
}

abbrev single : Settings
single = record settings { frame_count = 1; simulate_loss_frame = 0; force_idr_frame = 1 }

abbrev bytes : ℕ → List ℕ
bytes stamp = stamp ∷ (100 + stamp) ∷ []

abbrev grabbed : Capture
grabbed = record {
  invalidates = true;
  grabs = true;
  is_new = true;
  converts = true;
  maps = true;
  encodes = true;
}

abbrev written : Drain
written = record {
  locks = true;
  writes_reference = true;
  writes = true;
  unlocks = true;
  unmaps = true;
}

-- The worker drains the first frame while `main` encodes the second.
abbrev overlap : List Action
overlap = acquires ∷ encodes grabbed ∷ queues ∷ takes ∷ acquires ∷ []

-- The third frame is encoded when its slot is free.
abbrev third_encoded : List Action
third_encoded =
    acquires
    ∷ encodes grabbed
    ∷ queues
    ∷ takes
    ∷ acquires
    ∷ encodes grabbed
    ∷ queues
    ∷ acquires
    ∷ drains written
    ∷ frees
    ∷ acquires
    ∷ encodes grabbed
    ∷ []

abbrev whole : List Action
whole =
    acquires
    ∷ encodes grabbed
    ∷ queues
    ∷ takes
    ∷ acquires
    ∷ encodes grabbed
    ∷ queues
    ∷ acquires
    ∷ drains written
    ∷ frees
    ∷ acquires
    ∷ encodes grabbed
    ∷ queues
    ∷ takes
    ∷ acquires
    ∷ drains written
    ∷ frees
    ∷ takes
    ∷ drains written
    ∷ frees
    ∷ takes
    ∷ joins true
    ∷ []

abbrev answers : List (Capture × Drain)
answers = (grabbed, written) ∷ (grabbed, written) ∷ (grabbed, written) ∷ []

whole_done : (run bytes settings start whole).main ≡ done
unfolding run act acquire encode encoded encode_frame invalidate set_up_picture submit_picture queue
    take_slot take_pending drain_one drained drain_slot drain_locked write_reference write_picture
    release_slot free join join_stopped run_sequential encode_and_drain
whole_done = refl

outputs-whole :
    outputs (run bytes settings start whole).encoding
    ≡ (2 ∷ 102 ∷ 3 ∷ 103 ∷ [], (1 ∷ 101 ∷ 2 ∷ 102 ∷ 3 ∷ 103 ∷ [], (2, (1, (4, (true, true))))))
unfolding run act acquire encode encoded encode_frame invalidate set_up_picture submit_picture queue
    take_slot take_pending drain_one drained drain_slot drain_locked write_reference write_picture
    release_slot free join join_stopped run_sequential encode_and_drain
outputs-whole = refl

sequential_outputs :
    outputs (run_sequential bytes settings nothing_encoded 0 answers).0
    ≡ (2 ∷ 102 ∷ 3 ∷ 103 ∷ [], (1 ∷ 101 ∷ 2 ∷ 102 ∷ 3 ∷ 103 ∷ [], (2, (1, (4, (true, true))))))
unfolding run act acquire encode encoded encode_frame invalidate set_up_picture submit_picture queue
    take_slot take_pending drain_one drained drain_slot drain_locked write_reference write_picture
    release_slot free join join_stopped run_sequential encode_and_drain
sequential_outputs = refl

-- A picture that is not written ends both threads.
lost_write :
    (run bytes settings start (
      acquires
      ∷ encodes grabbed
      ∷ queues
      ∷ takes
      ∷ acquires
      ∷ encodes grabbed
      ∷ queues
      ∷ drains written
      ∷ frees
      ∷ takes
      ∷ drains (record written { writes = false })
      ∷ frees
      ∷ acquires
      ∷ joins true
      ∷ [])).main
    ≡ failed
unfolding run act acquire encode encoded encode_frame invalidate set_up_picture submit_picture queue
    take_slot take_pending drain_one drained drain_slot drain_locked write_reference write_picture
    release_slot free join join_stopped run_sequential encode_and_drain
lost_write = refl

drained-held_example : 0 ≢ (run bytes settings start overlap).frame % 2
unfolding run act acquire encode encoded encode_frame invalidate set_up_picture submit_picture queue
    take_slot take_pending drain_one drained drain_slot drain_locked write_reference write_picture
    release_slot free join join_stopped run_sequential encode_and_drain
drained-held_example = drained-held bytes settings overlap 0 refl refl

invalidated-dropped_example :
    (run bytes settings start third_encoded).encoding.bitstream_frames_dropped ≡ 1
unfolding run act acquire encode encoded encode_frame invalidate set_up_picture submit_picture queue
    take_slot take_pending drain_one drained drain_slot drain_locked write_reference write_picture
    release_slot free join join_stopped run_sequential encode_and_drain is_broken breaks has_failed
    feedback_is_early reference_invalidation_requested
invalidated-dropped_example = invalidated-dropped bytes settings third_encoded refl refl refl

run-requested_gates_passed_example :
    requested_gates_passed settings (run bytes settings start whole).encoding ≡ true
unfolding recovery_is_outside reference_invalidation_requested
run-requested_gates_passed_example = run-requested_gates_passed bytes settings whole refl whole_done

run-run_sequential_example :
    outputs (run bytes settings start whole).encoding
    ≡ outputs (run_sequential bytes settings nothing_encoded 0 answers).0
unfolding run act acquire encode encoded encode_frame invalidate set_up_picture submit_picture queue
    take_slot take_pending drain_one drained drain_slot drain_locked write_reference write_picture
    release_slot free join join_stopped run_sequential encode_and_drain
run-run_sequential_example =
    run-run_sequential bytes settings whole answers
      (run_sequential bytes settings nothing_encoded 0 answers).0 whole_done refl refl

-- Each kind of action once.
abbrev round : List Action
round = acquires ∷ encodes grabbed ∷ queues ∷ takes ∷ drains written ∷ frees ∷ joins true ∷ []

round-IsFair : IsFair round
round-IsFair acquiring = inl refl
round-IsFair encoding_frame = inr (inl refl)
round-IsFair queueing_slot = inr (inr (inl refl))
round-IsFair taking = inr (inr (inr (inl refl)))
round-IsFair draining_slot = inr (inr (inr (inr (inl refl))))
round-IsFair freeing_slot = inr (inr (inr (inr (inr (inl refl)))))
round-IsFair ending = inr (inr (inr (inr (inr (inr (inl refl))))))

abbrev rounds : ℕ → List (List Action)
rounds zero = []
rounds (suc n) = round ∷ rounds n

rounds-IsFair : (n : ℕ) → All IsFair (rounds n)
rounds-IsFair zero = tt
rounds-IsFair (suc n) = (round-IsFair, rounds-IsFair n)

rounds-Succeeding : (n : ℕ) → All Succeeding (flatten (rounds n))
unfolding flatten
rounds-Succeeding zero = tt
rounds-Succeeding (suc n) =
    (refl, (refl, (refl, (refl, (refl, (refl, (refl, rounds-Succeeding n)))))))

fair_run-is_over_example : is_over (run bytes single start (flatten (rounds 9))).main ≡ true
fair_run-is_over_example = fair_run-is_over bytes single (rounds 9) (rounds-IsFair 9) (omega arith)

fair_run-done_example : (run bytes single start (flatten (rounds 9))).main ≡ done
fair_run-done_example =
    fair_run-done bytes single (rounds 9) (rounds-IsFair 9) (rounds-Succeeding 9) (omega arith)
