-- ===== src/Pipeline/Tests.antt =====
-- The presentation at concrete inputs.
use teraguchi.Common.{ℕ, ◌≡◌, refl, true, false, [], ◌∷◌, some, none, arith}
use teraguchi.Pipeline.Present.{
  Kinds, State, presents, note_latency, note_target, note_interval, note_flags, record_presentation,
  take_feedback, end_presented, on_async_presented, handle, dispatch,
}
use teraguchi.Pipeline.Process.{
  Turn, run, wait_inflight, queue_feedback, finish_async, import_and_present, process_waited,
  process_sample, note_result,
}
use teraguchi.Pipeline.Sound.{Sound}
use teraguchi.Pipeline.Inflight.{run-Sound}

abbrev kinds : Kinds
kinds = record { vsync = 1; hw_clock = 2; hw_completion = 4; zero_copy = 8 }

abbrev quiet : State
quiet = record {
  async_feedback = true;
  async_inflight_limit = 1;
  failed = false;
  presented = 0;
  async_inflight = 0;
  max_async_inflight = 0;
  stale_frames_dropped = 0;
  pending = [];
  decode = [];
  surface_to_swap = [];
  swap_submit = [];
  surface_to_present = [];
  submit_to_present = [];
  surface_vs_target = [];
  swap_vs_target = [];
  presentation_vs_target = [];
  presentation_interval = [];
  stale_drop_late = [];
  first_presentation_ns = 0;
  last_presentation_ns = 0;
  vsync_frames = 0;
  hw_clock_frames = 0;
  hw_completion_frames = 0;
  zero_copy_frames = 0;
}

abbrev turn : ℕ → Turn
turn frame = record {
  dispatches = some [] ∷ (some (presents 0 0 1 500 9 ∷ []) ∷ []);
  submit = record { frame = frame; time_ns = 1000; target_present_ns = 0 };
  surface = 2000;
  now = 3000;
  valid = true;
  answers = record {
    draws = true;
    render_started = 2100;
    swaps = true;
    swap_submitted = 2200;
    roundtrip = some [];
    feedback = none;
  };
}

quiet-Sound : Sound quiet true 0
quiet-Sound = record {
  mode = refl;
  counted = refl;
  bounded = omega arith;
  most = omega arith;
  small = omega arith;
  measured = λ h. refl;
}

-- The second sample waits for the feedback of the first.
run-Sound_example : Sound (run kinds quiet (turn 1 ∷ (turn 2 ∷ []))) true 0
run-Sound_example = run-Sound kinds true (turn 1 ∷ (turn 2 ∷ [])) quiet quiet-Sound

second_in_flight : (run kinds quiet (turn 1 ∷ (turn 2 ∷ []))).presented ≡ 1
unfolding run note_result process_sample process_waited import_and_present finish_async
    queue_feedback wait_inflight dispatch handle on_async_presented end_presented take_feedback
    record_presentation note_flags note_interval note_target note_latency
second_in_flight = refl
