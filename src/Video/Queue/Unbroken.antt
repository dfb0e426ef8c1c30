-- ===== src/Video/Queue/Unbroken.antt =====
-- Actions whose calls all succeed.
use teraguchi.Common.{ℕ, ◌≡◌, Bool, true, false, ◌&&◌, List, [], ◌∷◌, arith}
use teraguchi.Video.Encoder.{
  Settings, Encoding, Capture, Drain, encode_frame, drain_slot, drain_locked, release_slot,
}
use teraguchi.Video.Queue.{
  Main, at_frame, encoding, queueing, joining, leaving, done, failed, Worker, idle, draining,
  freeing, failing, stopped, Threads, Action, acquires, encodes, queues, joins, takes, drains,
  frees, acquire, encoded, encode, queue, join_stopped, join, take_pending, take_slot, drained,
  drain_one, free, act,
}
use teraguchi.Video.Queue.Order.{breaks, has_failed, is_broken}

-- Each call of the action succeeds.
abbrev pub answers_well : Action → Bool
answers_well acquires = true
answers_well (encodes c) = c.invalidates && (c.grabs && (c.converts && (c.maps && c.encodes)))
answers_well queues = true
answers_well (joins ends) = ends
answers_well takes = true
answers_well (drains d) = d.locks && (d.writes_reference && (d.writes && (d.unlocks && d.unmaps)))
answers_well frees = true

abbrev pub Succeeding : Action → Type 0
Succeeding action = answers_well action ≡ true

module _ (picture_bytes : ℕ → List ℕ) (settings : Settings) where
  encode_frame-well :
      (e : Encoding) (frame : ℕ) (capture : Capture)
      → Succeeding (encodes capture)
      → (encode_frame picture_bytes settings e frame capture).1 ≡ true
  unfolding encode_frame
  encode_frame-well e frame capture well = ground (arith, well)

  drain_slot-well :
      (e : Encoding) (i : ℕ) (drain : Drain)
      → Succeeding (drains drain)
      → (drain_slot picture_bytes settings e i drain).1 ≡ true
  unfolding drain_slot drain_locked release_slot
  drain_slot-well e i drain well = ground (arith, well)

  acquire-unbroken :
      (t : Threads) (m : Main)
      → t.worker_error ≡ false
      → is_broken t ≡ false
      → breaks m (has_failed t.worker t.worker_error) ≡ false
      → is_broken (acquire picture_bytes settings t m) ≡ false
  unfolding acquire is_broken breaks
  acquire-unbroken t at_frame none ok at = ground (arith, none, at)
  acquire-unbroken t encoding none ok at = ok
  acquire-unbroken t queueing none ok at = ok
  acquire-unbroken t joining none ok at = ok
  acquire-unbroken t leaving none ok at = ok
  acquire-unbroken t done none ok at = ok
  acquire-unbroken t failed none ok at = ok

  encoded-unbroken :
      (t : Threads) (result : Encoding × Bool)
      → result.1 ≡ true
      → has_failed t.worker t.worker_error ≡ false
      → is_broken (encoded picture_bytes settings t result) ≡ false
  unfolding encoded is_broken breaks
  encoded-unbroken t (e, true) well at = at
  encoded-unbroken t (e, false) well at = absurd (ground (arith, well))

  encode-unbroken :
      (t : Threads) (m : Main) (capture : Capture)
      → Succeeding (encodes capture)
      → is_broken t ≡ false
      → breaks m (has_failed t.worker t.worker_error) ≡ false
      → is_broken (encode picture_bytes settings t m capture) ≡ false
  unfolding encode is_broken breaks
  encode-unbroken t at_frame capture well ok at = ok
  encode-unbroken t encoding capture well ok at =
      encoded-unbroken t _ (encode_frame-well t.encoding t.frame capture well) at
  encode-unbroken t queueing capture well ok at = ok
  encode-unbroken t joining capture well ok at = ok
  encode-unbroken t leaving capture well ok at = ok
  encode-unbroken t done capture well ok at = ok
  encode-unbroken t failed capture well ok at = ok

  queue-unbroken :
      (t : Threads) (m : Main)
      → is_broken t ≡ false
      → breaks m (has_failed t.worker t.worker_error) ≡ false
      → is_broken (queue picture_bytes settings t m) ≡ false
  unfolding queue is_broken breaks
  queue-unbroken t at_frame ok at = ok
  queue-unbroken t encoding ok at = ok
  queue-unbroken t queueing ok at = at
  queue-unbroken t joining ok at = ok
  queue-unbroken t leaving ok at = ok
  queue-unbroken t done ok at = ok
  queue-unbroken t failed ok at = ok

  join_stopped-unbroken :
      (t : Threads) (m : Main)
      → t.worker_error ≡ false
      → is_broken t ≡ false
      → breaks m (has_failed t.worker t.worker_error) ≡ false
      → is_broken (join_stopped picture_bytes settings t m true) ≡ false
  unfolding join_stopped is_broken breaks
  join_stopped-unbroken t at_frame none ok at = ok
  join_stopped-unbroken t encoding none ok at = ok
  join_stopped-unbroken t queueing none ok at = ok
  join_stopped-unbroken t joining none ok at = ground (arith, none, at)
  join_stopped-unbroken t leaving none ok at = absurd (ground (arith, at))
  join_stopped-unbroken t done none ok at = ok
  join_stopped-unbroken t failed none ok at = ok

  join-unbroken :
      (t : Threads) (w : Worker)
      → t.worker_error ≡ false
      → is_broken t ≡ false
      → breaks t.main (has_failed w t.worker_error) ≡ false
      → is_broken (join picture_bytes settings t w true) ≡ false
  unfolding join is_broken has_failed
  join-unbroken t idle none ok at = ok
  join-unbroken t (draining i) none ok at = ok
  join-unbroken t (freeing i) none ok at = ok
  join-unbroken t failing none ok at = ok
  join-unbroken t stopped none ok at = join_stopped-unbroken t t.main none ok ok

  take_pending-unbroken :
      (t : Threads) (pending : List ℕ)
      → t.worker_error ≡ false
      → is_broken t ≡ false
      → breaks t.main false ≡ false
      → is_broken (take_pending picture_bytes settings t pending) ≡ false
  unfolding take_pending is_broken has_failed
  take_pending-unbroken t [] none ok at = ground (arith, none, ok, at)
  take_pending-unbroken t (i ∷ pending) none ok at = at

  take_slot-unbroken :
      (t : Threads) (w : Worker)
      → t.worker_error ≡ false
      → is_broken t ≡ false
      → breaks t.main (has_failed w t.worker_error) ≡ false
      → is_broken (take_slot picture_bytes settings t w) ≡ false
  unfolding take_slot is_broken has_failed
  take_slot-unbroken t idle none ok at = take_pending-unbroken t t.pending_slots none ok at
  take_slot-unbroken t (draining i) none ok at = ok
  take_slot-unbroken t (freeing i) none ok at = ok
  take_slot-unbroken t failing none ok at = ok
  take_slot-unbroken t stopped none ok at = ok

  drained-unbroken :
      (t : Threads) (i : ℕ) (result : Encoding × Bool)
      → result.1 ≡ true
      → breaks t.main false ≡ false
      → is_broken (drained picture_bytes settings t i result) ≡ false
  unfolding drained is_broken has_failed
  drained-unbroken t i (e, true) well at = at
  drained-unbroken t i (e, false) well at = absurd (ground (arith, well))

  drain_one-unbroken :
      (t : Threads) (w : Worker) (drain : Drain)
      → Succeeding (drains drain)
      → is_broken t ≡ false
      → breaks t.main (has_failed w t.worker_error) ≡ false
      → is_broken (drain_one picture_bytes settings t w drain) ≡ false
  unfolding drain_one is_broken has_failed
  drain_one-unbroken t idle drain well ok at = ok
  drain_one-unbroken t (draining i) drain well ok at =
      drained-unbroken t i _ (drain_slot-well t.encoding i drain well) at
  drain_one-unbroken t (freeing i) drain well ok at = ok
  drain_one-unbroken t failing drain well ok at = ok
  drain_one-unbroken t stopped drain well ok at = ok

  free-unbroken :
      (t : Threads) (w : Worker)
      → is_broken t ≡ false
      → breaks t.main (has_failed w t.worker_error) ≡ false
      → is_broken (free picture_bytes settings t w) ≡ false
  unfolding free is_broken has_failed
  free-unbroken t idle ok at = ok
  free-unbroken t (draining i) ok at = ok
  free-unbroken t (freeing i) ok at = at
  free-unbroken t failing ok at = at
  free-unbroken t stopped ok at = ok

  pub act-unbroken :
      (t : Threads) (action : Action)
      → Succeeding action
      → t.worker_error ≡ false
      → is_broken t ≡ false
      → is_broken (act picture_bytes settings t action) ≡ false
  unfolding act is_broken
  act-unbroken t acquires well none ok = acquire-unbroken t t.main none ok ok
  act-unbroken t (encodes capture) well none ok = encode-unbroken t t.main capture well ok ok
  act-unbroken t queues well none ok = queue-unbroken t t.main ok ok
  act-unbroken t (joins true) well none ok = join-unbroken t t.worker none ok ok
  act-unbroken t (joins false) well none ok = absurd (ground (arith, well))
  act-unbroken t takes well none ok = take_slot-unbroken t t.worker none ok ok
  act-unbroken t (drains drain) well none ok = drain_one-unbroken t t.worker drain well ok ok
  act-unbroken t frees well none ok = free-unbroken t t.worker ok ok
