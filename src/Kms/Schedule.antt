-- ===== src/Kms/Schedule.antt =====
-- The decoder's input, `on_decoder_input`, and the matching of its output in `on_new_sample`. The clock and
-- the sleep are given with each call. `scale` is gst_util_uint64_scale. A state and a call are those of
-- the decoder's thread: what the wait for the phase sees is the state at its end. The statistics are
-- kept in nanoseconds, which the code divides by a million.
pub mod Plans
pub mod Stamps
pub mod Order
use teraguchi.Common.{
  ℕ, zero, suc, ◌+◌, ◌-◌, ◌*◌, ◌/◌, ◌%◌, ◌^◌, max, Bool, true, false, not, ◌||◌, ◌&&◌, List, [],
  ◌∷◌, ◌++◌, Option, none, some, ltb, leb, ◌==◌, if◌then◌else◌,
}

pub record SubmitStamp : Type 0 where
  pub frame : ℕ
  pub submitted_ns : ℕ
  pub target_ns : ℕ
  pub pts : ℕ

-- The fields of `State` that the decoder's thread reads and writes.
pub record Schedule : Type 0 where
  pub submitted : ℕ
  pub first_target_ns : ℕ
  pub steady_first_target_ns : ℕ
  pub refresh_ns : ℕ
  pub submit_lead_ns : ℕ
  pub phase_ready : Bool
  pub steady_phase_ready : Bool
  pub failed : Bool
  pub submit_queue : List SubmitStamp
  pub input_schedule_late : List ℕ

-- A call's surroundings: whether the buffer can be made writable, the clock before the sleep, whether the
-- sleep succeeds, the clock after it, and the clock at the stamp.
pub record Moment : Type 0 where
  pub writable : Bool
  pub now : ℕ
  pub sleeps : Bool
  pub actual : ℕ
  pub stamped : ℕ

pub data Verdict : Type 0 where
  waits passes drops : Verdict

pub record Plan : Type 0 where
  pub epoch : ℕ
  pub target : ℕ
  pub wake : ℕ

-- The shift by whole periods of a plan whose time to wake has passed.
unfoldable pub shift_plan : ℕ → ℕ → Plan → Plan
shift_plan refresh now plan =
    let periods = (now - plan.wake) / refresh + 1 in
    if leb plan.wake now
    then record {
      epoch = (plan.epoch + periods * refresh) % 2 ^ 64;
      target = (plan.target + periods * refresh) % 2 ^ 64;
      wake = (plan.wake + periods * refresh) % 2 ^ 64;
    }
    else plan

unfoldable pub plan : ℕ → ℕ → ℕ → ℕ → ℕ → Plan
plan refresh lead now epoch index =
    let target = (epoch + index * refresh) % 2 ^ 64 in
    shift_plan refresh now
      (record { epoch = epoch; target = target; wake = (target + (2 ^ 64 - lead)) % 2 ^ 64 })

-- The plan of the second frame, and of the later ones.
unfoldable pub plan_frame : Schedule → ℕ → ℕ → Plan
plan_frame s frame now =
    if frame == 2
    then plan s.refresh_ns (max s.submit_lead_ns 12000000) now s.first_target_ns 0
    else plan s.refresh_ns s.submit_lead_ns now s.steady_first_target_ns (frame - 3)

-- `*epoch` is one of two fields.
unfoldable pub keep_epoch : Schedule → ℕ → ℕ → Schedule
keep_epoch s frame epoch =
    if frame == 2
    then record s { first_target_ns = epoch }
    else record s { steady_first_target_ns = epoch }

module _ (scale : ℕ → ℕ → ℕ → ℕ) where
  abbrev pub synthetic_pts : ℕ → ℕ
  synthetic_pts frame = scale (frame - 1) 1000000000 60

  unfoldable pub push_stamp : Schedule → ℕ → ℕ → ℕ → Schedule
  push_stamp s frame stamped target = record s {
    submit_queue =
        s.submit_queue
        ++ (record {
          frame = frame;
          submitted_ns = stamped;
          target_ns = target;
          pts = synthetic_pts frame;
        }
            ∷ []);
  }

  -- The part behind the wait for the phase.
  unfoldable pub sleep_and_push : Schedule → ℕ → Moment → Schedule × Verdict
  sleep_and_push s frame moment =
      let planned = plan_frame s frame moment.now in
      let kept = keep_epoch s frame planned.epoch in
      let late = if ltb planned.wake moment.actual then moment.actual - planned.wake else 0 in
      if moment.sleeps
      then (
        push_stamp (record kept { input_schedule_late = kept.input_schedule_late ++ (late ∷ []) })
            frame moment.stamped planned.target,
        passes,
      )
      else (record kept { failed = true }, drops)

  -- The part behind the counting of the frame, from its wait on; `waits` is a wait that goes on.
  unfoldable pub resume_input : Schedule → ℕ → Moment → Schedule × Verdict
  resume_input s frame moment =
      if ltb frame 2
      then (push_stamp s frame moment.stamped 0, passes)
      else if s.failed
      then (s, drops)
      else if (if frame == 2 then s.phase_ready else s.steady_phase_ready)
      then sleep_and_push s frame moment
      else (s, waits)

  -- A call with a buffer, up to its end or its wait.
  unfoldable pub on_decoder_input : Schedule → Moment → Schedule × Verdict
  on_decoder_input s moment =
      let counted : Schedule = record s { submitted = s.submitted + 1 } in
      if moment.writable
      then resume_input counted (s.submitted + 1) moment
      else (record counted { failed = true }, drops)

-- The stamp of an output, and the queue behind it; an output without a time matches none.
unfoldable pub find_stamp : ℕ → List SubmitStamp → Option (SubmitStamp × List SubmitStamp)
find_stamp pts [] = none
find_stamp pts (stamp ∷ queue) =
    if stamp.pts == pts then some (stamp, queue) else find_stamp pts queue

unfoldable pub match_found :
    Schedule → Option (SubmitStamp × List SubmitStamp) → Schedule × Option SubmitStamp
match_found s none = (record s { failed = true }, none)
match_found s (some (stamp, queue)) = (record s { submit_queue = queue }, some stamp)

unfoldable pub match_output : Schedule → Option ℕ → Schedule × Option SubmitStamp
match_output s none = match_found s none
match_output s (some pts) = match_found s (find_stamp pts s.submit_queue)
