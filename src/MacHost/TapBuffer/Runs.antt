-- ===== src/MacHost/TapBuffer/Runs.antt =====
-- Runs of the ring: the calls of the audio device and of the session's queue, in any order.
use teraguchi.Common.{ℕ, Bool, true, List, [], ◌∷◌, Option, none, some, ◌==◌, if◌then◌else◌}
use teraguchi.MacHost.TapBuffer.{TapBlock, TapBuffer, push, peek, pop, discard_overrun}
use teraguchi.MacHost.TapBuffer.Fifo.{view, TapQueue, push_queue}

-- A call: a push with its arguments, a peek with the pop that follows it where there is a block, the
-- discarding of an overrun, and the end.
pub data Call (F : Type 0) : Type 0 where
  pushes : Option (ℕ → F) → Option (ℕ → F) → ℕ → ℕ → Call F
  takes : Call F
  discards : Call F
  stops : Call F

pub data Answer (F : Type 0) : Type 0 where
  accepted : Bool → Answer F
  taken : Option (ℕ × List (F × F)) → Answer F
  dropped : ℕ → Answer F
  silent : Answer F

module _ {F : Type 0} where
  -- What a reader does with a peeked block: it reads the block and pops it.
  unfoldable pub take_peeked :
      TapBuffer F → Option (TapBlock F) → TapBuffer F × Option (ℕ × List (F × F))
  take_peeked buffer none = (buffer, none)
  take_peeked buffer (some block) = (pop buffer, some (view block))

  -- The queue gives its oldest block.
  abbrev pub take_oldest : TapQueue F → TapQueue F × Option (ℕ × List (F × F))
  take_oldest queue = elim queue.blocks [
    | [] ↦ (queue, none)
    | x ∷ rest ↦ (record queue { blocks = rest }, some x)
  ]

  -- A queue that overran loses its blocks, and its count of overruns is handed out.
  abbrev pub discard_queue : TapQueue F → TapQueue F × ℕ
  discard_queue queue =
      if queue.overruns == 0
      then (record queue { overruns = 0 }, queue.overruns)
      else (record queue { overruns = 0; blocks = [] }, queue.overruns)

  unfoldable pub step : (F → Bool) → TapBuffer F → Call F → TapBuffer F × Answer F
  step is_finite buffer (pushes left right frames time) =
      let (next, ok) = push is_finite buffer left right frames time in (next, accepted ok)
  step is_finite buffer takes =
      let (next, block) = take_peeked buffer (peek buffer) in (next, taken block)
  step is_finite buffer discards =
      let (next, count) = discard_overrun buffer in (next, dropped count)
  step is_finite buffer stops = (record buffer { stopped = true }, silent)

  unfoldable pub step_queue : (F → Bool) → TapQueue F → Call F → TapQueue F × Answer F
  step_queue is_finite queue (pushes left right frames time) =
      let (next, ok) = push_queue is_finite queue left right frames time in (next, accepted ok)
  step_queue is_finite queue takes = let (next, block) = take_oldest queue in (next, taken block)
  step_queue is_finite queue discards =
      let (next, count) = discard_queue queue in (next, dropped count)
  step_queue is_finite queue stops = (record queue { stopped = true }, silent)

  unfoldable pub run : (F → Bool) → TapBuffer F → List (Call F) → List (Answer F)
  run is_finite buffer [] = []
  run is_finite buffer (call ∷ calls) =
      let (next, answer) = step is_finite buffer call in answer ∷ run is_finite next calls

  unfoldable pub run_queue : (F → Bool) → TapQueue F → List (Call F) → List (Answer F)
  run_queue is_finite queue [] = []
  run_queue is_finite queue (call ∷ calls) =
      let (next, answer) = step_queue is_finite queue call in
      answer ∷ run_queue is_finite next calls
