-- ===== src/Video/Queue.antt =====
-- The loop over the frames with a queue of depth 1, and its worker. An action is what one thread does under
-- one lock or between two; an action that is not its thread's turn, or a wait that goes on, leaves the
-- state as it is. Which action comes next, and what the calls answer, is a list of actions.
pub mod Order
pub mod Steps
pub mod Drains
pub mod Broken
pub mod Reach
pub mod Results
pub mod Left
pub mod Progress
pub mod Moves
pub mod CanMove
pub mod Fair
pub mod Unbroken
pub mod Success
use teraguchi.Common.{
  ℕ, zero, suc, ◌+◌, ◌%◌, Bool, true, false, not, ◌&&◌, ◌||◌, List, [], ◌∷◌, ◌++◌, ltb, ◌==◌, ◌!=◌,
  if◌then◌else◌,
}
use teraguchi.Common.Families.{update}
use teraguchi.Video.Encoder.{
  Settings, EncodeSlot, Encoding, Capture, Drain, encode_frame, drain_slot,
}

-- In front of a frame, with a free slot, with a submitted picture, in front of the join, after an exception,
-- and behind the loop.
pub data Main : Type 0 where
  at_frame : Main
  encoding : Main
  queueing : Main
  joining : Main
  leaving : Main
  done : Main
  failed : Main

pub data Worker : Type 0 where
  idle : Worker
  draining : ℕ → Worker
  freeing : ℕ → Worker
  failing : Worker
  stopped : Worker

pub record Threads : Type 0 where
  pub main : Main
  pub frame : ℕ
  pub worker : Worker
  pub pending_slots : List ℕ
  pub slot_in_use : ℕ → Bool
  pub input_done : Bool
  pub worker_error : Bool
  pub encoding : Encoding

-- `joins` has the answer to the end of the stream.
pub data Action : Type 0 where
  acquires : Action
  encodes : Capture → Action
  queues : Action
  joins : Bool → Action
  takes : Action
  drains : Drain → Action
  frees : Action

abbrev pub empty_slot : EncodeSlot
empty_slot = record { mapped = false; bitstream_locked = false; picture = 0 }

abbrev pub nothing_encoded : Encoding
nothing_encoded = record {
  slots = λ i. empty_slot;
  bitstream = [];
  reference_bitstream = [];
  bitstream_frames_written = 0;
  bitstream_frames_dropped = 0;
  encoded_bytes = 0;
  new_frames = 0;
  reference_invalidation_called = false;
  forced_idr_submitted = false;
}

abbrev pub start : Threads
start = record {
  main = at_frame;
  frame = 0;
  worker = idle;
  pending_slots = [];
  slot_in_use = λ i. false;
  input_done = false;
  worker_error = false;
  encoding = nothing_encoded;
}

module _ (picture_bytes : ℕ → List ℕ) (settings : Settings) where
  -- The loop's test, and the wait for the slot.
  unfoldable pub acquire : Threads → Main → Threads
  acquire t at_frame =
      if ltb t.frame settings.frame_count
      then (if t.worker_error
          then record t { main = leaving; input_done = true }
          else if t.slot_in_use (t.frame % 2)
          then t
          else record t { main = encoding })
      else record t { main = joining; input_done = true }
  acquire t encoding = t
  acquire t queueing = t
  acquire t joining = t
  acquire t leaving = t
  acquire t done = t
  acquire t failed = t

  unfoldable pub encoded : Threads → Encoding × Bool → Threads
  encoded t (e, true) = record t { main = queueing; encoding = e }
  encoded t (e, false) = record t { main = leaving; input_done = true; encoding = e }

  unfoldable pub encode : Threads → Main → Capture → Threads
  encode t encoding capture =
      encoded t (encode_frame picture_bytes settings t.encoding t.frame capture)
  encode t at_frame capture = t
  encode t queueing capture = t
  encode t joining capture = t
  encode t leaving capture = t
  encode t done capture = t
  encode t failed capture = t

  unfoldable pub queue : Threads → Main → Threads
  queue t queueing = record t {
    main = at_frame;
    frame = t.frame + 1;
    slot_in_use = update t.slot_in_use (t.frame % 2) true;
    pending_slots = t.pending_slots ++ (t.frame % 2 ∷ []);
  }
  queue t at_frame = t
  queue t encoding = t
  queue t joining = t
  queue t leaving = t
  queue t done = t
  queue t failed = t

  -- The worker has stopped: an exception of either thread goes on, and else the stream is ended.
  unfoldable pub join_stopped : Threads → Main → Bool → Threads
  join_stopped t joining ends =
      if t.worker_error
      then record t { main = failed }
      else record t { main = (if ends then done else failed) }
  join_stopped t leaving ends = record t { main = failed }
  join_stopped t at_frame ends = t
  join_stopped t encoding ends = t
  join_stopped t queueing ends = t
  join_stopped t done ends = t
  join_stopped t failed ends = t

  unfoldable pub join : Threads → Worker → Bool → Threads
  join t stopped ends = join_stopped t t.main ends
  join t idle ends = t
  join t (draining i) ends = t
  join t (freeing i) ends = t
  join t failing ends = t

  unfoldable pub take_pending : Threads → List ℕ → Threads
  take_pending t [] = if t.input_done then record t { worker = stopped } else t
  take_pending t (i ∷ pending) = record t { worker = draining i; pending_slots = pending }

  unfoldable pub take_slot : Threads → Worker → Threads
  take_slot t idle = take_pending t t.pending_slots
  take_slot t (draining i) = t
  take_slot t (freeing i) = t
  take_slot t failing = t
  take_slot t stopped = t

  unfoldable pub drained : Threads → ℕ → Encoding × Bool → Threads
  drained t i (e, true) = record t { worker = freeing i; encoding = e }
  drained t i (e, false) = record t { worker = failing; encoding = e }

  unfoldable pub drain_one : Threads → Worker → Drain → Threads
  drain_one t (draining i) drain =
      drained t i (drain_slot picture_bytes settings t.encoding i drain)
  drain_one t idle drain = t
  drain_one t (freeing i) drain = t
  drain_one t failing drain = t
  drain_one t stopped drain = t

  -- The slot is free, or the exception is kept for `main`.
  unfoldable pub free : Threads → Worker → Threads
  free t (freeing i) = record t { worker = idle; slot_in_use = update t.slot_in_use i false }
  free t failing = record t { worker = stopped; worker_error = true; input_done = true }
  free t idle = t
  free t (draining i) = t
  free t stopped = t

  unfoldable pub act : Threads → Action → Threads
  act t acquires = acquire t t.main
  act t (encodes capture) = encode t t.main capture
  act t queues = queue t t.main
  act t (joins ends) = join t t.worker ends
  act t takes = take_slot t t.worker
  act t (drains drain) = drain_one t t.worker drain
  act t frees = free t t.worker

  unfoldable pub run : Threads → List Action → Threads
  run t [] = t
  run t (action ∷ actions) = run (act t action) actions
