-- ===== src/Kms/Handoff.antt =====
-- The threads of the probe: `on_new_sample` on the decoder's thread, `display_worker`, and what `main` does
-- when the pipeline has ended. An action is what one thread does under one lock, or between two; an action
-- that its thread cannot take, or a wait that goes on, leaves the state as it is. Which action comes next,
-- and what the pipeline and the kernel answer, is a list of actions.
pub mod Ownership
mod Turns
mod Draining
pub mod Finish
use teraguchi.Common.{
  ℕ, zero, suc, ◌+◌, Bool, true, false, not, ◌||◌, ◌&&◌, List, [], ◌∷◌, Option, none, some, ltb,
  leb, if◌then◌else◌,
}
use teraguchi.Kms.Framebuffers.{Strtoull, SampleInfo}
use teraguchi.Kms.Schedule.{SubmitStamp}
use teraguchi.Kms.Display.{Display, Screen, display_sample}

-- A sample with its stamp and the time at which it was ready.
pub record Ready : Type 0 where
  pub sample : ℕ
  pub submit : SubmitStamp
  pub surface_ns : ℕ

-- The decoder's thread outside `on_new_sample`, inside it with a sample, and after its last frame.
pub data Producer : Type 0 where
  idle : Producer
  offering : Ready → Producer
  ended : Producer

-- The worker in front of its wait, with a sample, after a failure, and after its return.
pub data Worker : Type 0 where
  awaiting : Worker
  showing : Ready → Worker
  failing : Worker
  exited : Worker

-- `pulled` are the samples that came from the sink, `dropped` those that were unreferenced outside
-- `display_sample`.
pub record Threads : Type 0 where
  pub producer : Producer
  pub worker : Worker
  pub ready : Option Ready
  pub producer_done : Bool
  pub worker_stop : Bool
  pub failed : Bool
  pub queued : ℕ
  pub max_ready_depth : ℕ
  pub display : Display
  pub pulled : List ℕ
  pub dropped : List ℕ

pub data Action : Type 0 where
  pulls : ℕ → Option SubmitStamp → ℕ → Action
  offers : Action
  ends : Action
  main_ends : Bool → Action
  works : Action
  shows : SampleInfo → Screen → Action
  stops : Action

-- A sample whose stamp was found is to be offered; one without ends the thread.
unfoldable pub pull : Threads → Producer → ℕ → Option SubmitStamp → ℕ → Threads
pull t idle sample none surface = record t {
  producer = ended;
  failed = true;
  pulled = sample ∷ t.pulled;
  dropped = sample ∷ t.dropped;
}
pull t idle sample (some submit) surface = record t {
  producer = offering (record { sample = sample; submit = submit; surface_ns = surface });
  pulled = sample ∷ t.pulled;
}
pull t (offering r) sample found surface = t
pull t ended sample found surface = t

unfoldable pub store : Threads → ℕ → Ready → Option Ready → Threads
store t expected r none = record t {
  ready = some r;
  max_ready_depth = 1;
  queued = t.queued + 1;
  producer = (if leb expected (t.queued + 1) then ended else idle);
}
store t expected r (some full) = t

unfoldable pub offer : Threads → ℕ → Producer → Threads
offer t expected idle = t
offer t expected ended = t
offer t expected (offering r) =
    if t.worker_stop
    then record t { producer = ended; dropped = r.sample ∷ t.dropped }
    else store t expected r t.ready

unfoldable pub end_stream : Threads → Producer → Threads
end_stream t idle = record t { producer = ended }
end_stream t (offering r) = t
end_stream t ended = t

-- The one message that `main` waits for: the end of the stream is seen behind its last frame, an error
-- at any time.
unfoldable pub end_main : Threads → Producer → Bool → Threads
end_main t producer false = record t { producer_done = true; worker_stop = true }
end_main t ended true = record t { producer_done = true }
end_main t idle true = t
end_main t (offering r) true = t

-- The worker under the lock of its wait.
unfoldable pub drop_ready : Threads → Option Ready → Threads
drop_ready t none = record t { worker = exited }
drop_ready t (some r) = record t { worker = exited; ready = none; dropped = r.sample ∷ t.dropped }

unfoldable pub take_ready : Threads → Option Ready → Threads
take_ready t none = if t.producer_done then record t { worker = exited } else t
take_ready t (some r) = record t { worker = showing r; ready = none }

unfoldable pub work : Threads → Worker → Threads
work t awaiting = if t.worker_stop then drop_ready t t.ready else take_ready t t.ready
work t (showing r) = t
work t failing = t
work t exited = t

unfoldable pub shown : Threads → Display × Bool → Threads
shown t (display, true) = record t { display = display; worker = awaiting }
shown t (display, false) = record t { display = display; worker = failing; failed = true }

unfoldable pub stop : Threads → Worker → Threads
stop t failing = record t { worker_stop = true; worker = exited }
stop t awaiting = t
stop t (showing r) = t
stop t exited = t

module _ (strtoull : Strtoull) (hdisplay vdisplay expected : ℕ) where
  unfoldable pub show : Threads → Worker → SampleInfo → Screen → Threads
  show t awaiting info screen = t
  show t failing info screen = t
  show t exited info screen = t
  show t (showing r) info screen = shown t (
      display_sample strtoull hdisplay vdisplay t.display r.sample info r.submit r.surface_ns
        screen)

  unfoldable pub act : Threads → Action → Threads
  act t (pulls sample found surface) = pull t t.producer sample found surface
  act t offers = offer t expected t.producer
  act t ends = end_stream t t.producer
  act t (main_ends eos) = if t.producer_done then t else end_main t t.producer eos
  act t works = work t t.worker
  act t (shows info screen) = show t t.worker info screen
  act t stops = stop t t.worker

  unfoldable pub run : Threads → List Action → Threads
  run t [] = t
  run t (action ∷ actions) = run (act t action) actions
