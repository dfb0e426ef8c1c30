-- ===== src/Pipeline/Process.antt =====
-- `import_and_present`, `process_sample` and the part of `presentation_worker` behind it. What a dispatch
-- of the display brings, the clock and the answers of EGL are given with the call; the tests on a sample are
-- one answer.
use teraguchi.Common.Differences.{sub_u64}
use teraguchi.Common.{
  ℕ, ◌+◌, ◌%◌, ◌^◌, max, Bool, true, false, not, ◌&&◌, List, [], ◌∷◌, ◌++◌, Option, none, some, ltb,
  leb, ◌!=◌, if◌then◌else◌,
}
use teraguchi.Pipeline.Present.{
  Stamp, AsyncFeedback, Kinds, State, record_presentation, Event, dispatch,
}

-- How the wait for a free place ends, if it does.
pub data Waited : Type 0 where
  ready blocked fails : Waited

-- Whether the image is made and drawn, the clock before the swap, whether the buffers are swapped, the clock
-- after it, what the round trip brings, and how the wait for synchronous feedback ends, with its time and
-- its flags.
pub record Answers : Type 0 where
  pub draws : Bool
  pub render_started : ℕ
  pub swaps : Bool
  pub swap_submitted : ℕ
  pub roundtrip : Option (List Event)
  pub feedback : Option (ℕ × ℕ)

module _ (kinds : Kinds) where
  -- The wait for a free place; a dispatch may fail.
  unfoldable pub wait_inflight : State → List (Option (List Event)) → State × Waited
  wait_inflight s [] =
      if leb s.async_inflight_limit s.async_inflight then (s, blocked) else (s, ready)
  wait_inflight s (none ∷ dispatches) =
      if leb s.async_inflight_limit s.async_inflight
      then (record s { failed = true }, fails)
      else (s, ready)
  wait_inflight s (some events ∷ dispatches) =
      let rest = wait_inflight (dispatch kinds s events) dispatches in
      if leb s.async_inflight_limit s.async_inflight then rest else (s, ready)

  unfoldable pub queue_feedback : State → AsyncFeedback → State
  queue_feedback s f = record s {
    async_inflight = s.async_inflight + 1;
    max_async_inflight = max s.max_async_inflight (s.async_inflight + 1);
    pending = f ∷ s.pending;
  }

  unfoldable pub finish_async : State → Option (List Event) → State × Bool
  finish_async s none = (s, false)
  finish_async s (some events) = (dispatch kinds s events, not (dispatch kinds s events).failed)

  unfoldable pub finish_sync : State → AsyncFeedback → Option (ℕ × ℕ) → State × Bool
  finish_sync s f none = (s, false)
  finish_sync s f (some (time, flags)) = record_presentation kinds s f time flags

  unfoldable pub import_and_present : State → Stamp → ℕ → Answers → State × Bool
  import_and_present s submit surface answers =
      let f : AsyncFeedback = record {
        submit = submit;
        surface_ready_ns = surface;
        render_started_ns = answers.render_started;
        swap_submitted_ns = answers.swap_submitted;
      } in
      if answers.draws && answers.swaps
      then (if s.async_feedback
          then finish_async (queue_feedback s f) answers.roundtrip
          else finish_sync s f answers.feedback)
      else (s, false)

  -- What follows on the wait: a sample that is too late is dropped, `valid` are the tests on the sample.
  unfoldable pub process_waited :
      State × Waited → Stamp → ℕ → ℕ → Bool → Answers → State × Option Bool
  process_waited (s, blocked) submit surface now valid answers = (s, none)
  process_waited (s, fails) submit surface now valid answers = (s, some false)
  process_waited (s, ready) submit surface now valid answers =
      let (shown, presented) = import_and_present s submit surface answers in
      if submit.target_present_ns != 0 && ltb ((submit.target_present_ns + 1000000) % 2 ^ 64) now
      then (
        record s {
          stale_frames_dropped = s.stale_frames_dropped + 1;
          stale_drop_late = s.stale_drop_late ++ (sub_u64 now submit.target_present_ns ∷ []);
        },
        some true,
      )
      else if valid
      then (shown, some presented)
      else (s, some false)

  unfoldable pub process_sample :
      State → List (Option (List Event)) → Stamp → ℕ → ℕ → Bool → Answers → State × Option Bool
  process_sample s dispatches submit surface now valid answers =
      let (shown, presented) = import_and_present s submit surface answers in
      if s.async_feedback
      then process_waited (wait_inflight s dispatches) submit surface now valid answers
      else if valid
      then (shown, some presented)
      else (s, some false)

-- What the worker does with the result; `none` is a wait that goes on.
unfoldable pub note_result : State × Option Bool → State
note_result (s, none) = s
note_result (s, some false) = record s { failed = true }
note_result (s, some true) =
    if s.async_feedback then s else record s { presented = s.presented + 1 }

-- Samples with their stamps, and what happens while each is shown.
pub record Turn : Type 0 where
  pub dispatches : List (Option (List Event))
  pub submit : Stamp
  pub surface : ℕ
  pub now : ℕ
  pub valid : Bool
  pub answers : Answers

unfoldable pub run : Kinds → State → List Turn → State
run kinds s [] = s
run kinds s (turn ∷ turns) =
    run kinds
      (note_result (
        process_sample kinds s turn.dispatches turn.submit turn.surface turn.now turn.valid
          turn.answers))
      turns
