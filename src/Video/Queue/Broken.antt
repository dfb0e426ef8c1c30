-- ===== src/Video/Queue/Broken.antt =====
-- An exception of one thread ends both.
use teraguchi.Common.{ℕ, ◌≡◌, refl, Bool, true, false, List, [], ◌∷◌, arith}
use teraguchi.Video.Encoder.{Settings, Encoding, Capture, Drain}
use teraguchi.Video.Queue.{
  Main, at_frame, encoding, queueing, joining, leaving, done, failed, Worker, idle, draining,
  freeing, failing, stopped, Threads, Action, acquires, encodes, queues, joins, takes, drains,
  frees, acquire, encoded, encode, queue, join_stopped, join, take_pending, take_slot, drained,
  drain_one, free, act,
}
use teraguchi.Video.Queue.Order.{breaks, breaks_more, has_failed, is_broken}

module _ (picture_bytes : ℕ → List ℕ) (settings : Settings) where
  -- Nothing comes behind an exception but its end.
  acquire-broken :
      (t : Threads) (m : Main)
      → is_broken t ≡ true
      → breaks m (has_failed t.worker t.worker_error) ≡ true
      → is_broken (acquire picture_bytes settings t m) ≡ true
  unfolding acquire is_broken breaks
  acquire-broken t at_frame b at = ground (arith, b, at)
  acquire-broken t encoding b at = b
  acquire-broken t queueing b at = b
  acquire-broken t joining b at = b
  acquire-broken t leaving b at = b
  acquire-broken t done b at = b
  acquire-broken t failed b at = b

  encoded-broken :
      (t : Threads) (result : Encoding × Bool)
      → has_failed t.worker t.worker_error ≡ true
      → is_broken (encoded picture_bytes settings t result) ≡ true
  unfolding encoded is_broken breaks
  encoded-broken t (e, true) at = at
  encoded-broken t (e, false) at = refl

  encode-broken :
      (t : Threads) (m : Main) (capture : Capture)
      → is_broken t ≡ true
      → breaks m (has_failed t.worker t.worker_error) ≡ true
      → is_broken (encode picture_bytes settings t m capture) ≡ true
  unfolding encode is_broken breaks
  encode-broken t at_frame capture b at = b
  encode-broken t encoding capture b at = encoded-broken t _ at
  encode-broken t queueing capture b at = b
  encode-broken t joining capture b at = b
  encode-broken t leaving capture b at = b
  encode-broken t done capture b at = b
  encode-broken t failed capture b at = b

  queue-broken :
      (t : Threads) (m : Main)
      → is_broken t ≡ true
      → breaks m (has_failed t.worker t.worker_error) ≡ true
      → is_broken (queue picture_bytes settings t m) ≡ true
  unfolding queue is_broken breaks
  queue-broken t at_frame b at = b
  queue-broken t encoding b at = b
  queue-broken t queueing b at = at
  queue-broken t joining b at = b
  queue-broken t leaving b at = b
  queue-broken t done b at = b
  queue-broken t failed b at = b

  join_stopped-broken :
      (t : Threads) (m : Main) (ends : Bool)
      → is_broken t ≡ true
      → breaks m t.worker_error ≡ true
      → is_broken (join_stopped picture_bytes settings t m ends) ≡ true
  unfolding join_stopped is_broken breaks
  join_stopped-broken t at_frame ends b at = b
  join_stopped-broken t encoding ends b at = b
  join_stopped-broken t queueing ends b at = b
  join_stopped-broken t joining ends b at = ground (arith, b, at)
  join_stopped-broken t leaving ends b at = refl
  join_stopped-broken t done ends b at = b
  join_stopped-broken t failed ends b at = b

  join-broken :
      (t : Threads) (w : Worker) (ends : Bool)
      → is_broken t ≡ true
      → breaks t.main (has_failed w t.worker_error) ≡ true
      → is_broken (join picture_bytes settings t w ends) ≡ true
  unfolding join is_broken has_failed
  join-broken t idle ends b at = b
  join-broken t (draining i) ends b at = b
  join-broken t (freeing i) ends b at = b
  join-broken t failing ends b at = b
  join-broken t stopped ends b at = join_stopped-broken t t.main ends b at

  take_pending-broken :
      (t : Threads) (pending : List ℕ)
      → is_broken t ≡ true
      → breaks t.main false ≡ true
      → is_broken (take_pending picture_bytes settings t pending) ≡ true
  unfolding take_pending is_broken has_failed
  take_pending-broken t [] b at = ground (arith, b, breaks_more t.main t.worker_error at)
  take_pending-broken t (i ∷ pending) b at = at

  take_slot-broken :
      (t : Threads) (w : Worker)
      → is_broken t ≡ true
      → breaks t.main (has_failed w t.worker_error) ≡ true
      → is_broken (take_slot picture_bytes settings t w) ≡ true
  unfolding take_slot is_broken has_failed
  take_slot-broken t idle b at = take_pending-broken t t.pending_slots b at
  take_slot-broken t (draining i) b at = b
  take_slot-broken t (freeing i) b at = b
  take_slot-broken t failing b at = b
  take_slot-broken t stopped b at = b

  drained-broken :
      (t : Threads) (i : ℕ) (result : Encoding × Bool)
      → breaks t.main false ≡ true
      → is_broken (drained picture_bytes settings t i result) ≡ true
  unfolding drained is_broken has_failed
  drained-broken t i (e, true) at = at
  drained-broken t i (e, false) at = breaks_more t.main true at

  drain_one-broken :
      (t : Threads) (w : Worker) (drain : Drain)
      → is_broken t ≡ true
      → breaks t.main (has_failed w t.worker_error) ≡ true
      → is_broken (drain_one picture_bytes settings t w drain) ≡ true
  unfolding drain_one is_broken has_failed
  drain_one-broken t idle drain b at = b
  drain_one-broken t (draining i) drain b at = drained-broken t i _ at
  drain_one-broken t (freeing i) drain b at = b
  drain_one-broken t failing drain b at = b
  drain_one-broken t stopped drain b at = b

  free-broken :
      (t : Threads) (w : Worker)
      → is_broken t ≡ true
      → breaks t.main (has_failed w t.worker_error) ≡ true
      → is_broken (free picture_bytes settings t w) ≡ true
  unfolding free is_broken has_failed
  free-broken t idle b at = b
  free-broken t (draining i) b at = b
  free-broken t (freeing i) b at = at
  free-broken t failing b at = at
  free-broken t stopped b at = b

  pub act-broken :
      (t : Threads) (action : Action)
      → is_broken t ≡ true
      → is_broken (act picture_bytes settings t action) ≡ true
  unfolding act is_broken
  act-broken t acquires b = acquire-broken t t.main b b
  act-broken t (encodes capture) b = encode-broken t t.main capture b b
  act-broken t queues b = queue-broken t t.main b b
  act-broken t (joins ends) b = join-broken t t.worker ends b b
  act-broken t takes b = take_slot-broken t t.worker b b
  act-broken t (drains drain) b = drain_one-broken t t.worker drain b b
  act-broken t frees b = free-broken t t.worker b b
