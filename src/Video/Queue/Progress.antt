-- ===== src/Video/Queue/Progress.antt =====
-- What each action leaves.
use teraguchi.Common.{
  ℕ, ◌-◌, ◌%◌, ◌<◌, ◌≡◌, refl, ap, inr, Bool, true, false, List, [], ◌∷◌, length, ltb,
  if◌then◌else◌, arith, length-append,
}
use teraguchi.Video.Encoder.{Settings, Encoding, Capture, Drain}
use teraguchi.Video.Queue.{
  Main, at_frame, encoding, queueing, joining, leaving, done, failed, Worker, idle, draining,
  freeing, failing, stopped, Threads, Action, acquires, encodes, queues, joins, takes, drains,
  frees, acquire, encoded, encode, queue, join_stopped, join, take_pending, take_slot, drained,
  drain_one, free, act,
}
use teraguchi.Video.Queue.Left.{
  main_left, worker_left, left_over, is_over, Placed, Goes, stays, cases_if, advances, works,
}

module _ (picture_bytes : ℕ → List ℕ) (settings : Settings) where
  acquire-Goes :
      (t : Threads) (m : Main)
      → t.main ≡ m
      → Placed picture_bytes settings t.main t.frame t.input_done
      → Goes picture_bytes settings t (acquire picture_bytes settings t m)
  unfolding acquire main_left
  acquire-Goes t at_frame eq p =
      cases_if picture_bytes settings (Goes picture_bytes settings t)
        (ltb t.frame settings.frame_count) _ _
        (λ lt.
          cases_if picture_bytes settings (Goes picture_bytes settings t) t.worker_error _ _
            (λ _. advances picture_bytes settings t _ at_frame eq refl refl refl (omega arith))
            (λ _.
              cases_if picture_bytes settings (Goes picture_bytes settings t)
                (t.slot_in_use (t.frame % 2)) _ _ (λ _. stays picture_bytes settings t p)
                (λ _.
                  advances picture_bytes settings t _ at_frame eq refl (ground (arith, lt)) refl
                    (omega arith))))
        (λ ge. advances picture_bytes settings t _ at_frame eq refl refl refl (omega arith))
  acquire-Goes t encoding eq p = stays picture_bytes settings t p
  acquire-Goes t queueing eq p = stays picture_bytes settings t p
  acquire-Goes t joining eq p = stays picture_bytes settings t p
  acquire-Goes t leaving eq p = stays picture_bytes settings t p
  acquire-Goes t done eq p = stays picture_bytes settings t p
  acquire-Goes t failed eq p = stays picture_bytes settings t p

  encoded-Goes :
      (t : Threads) (result : Encoding × Bool)
      → t.main ≡ encoding
      → t.frame < settings.frame_count
      → Goes picture_bytes settings t (encoded picture_bytes settings t result)
  unfolding encoded main_left
  encoded-Goes t (e, true) eq lt =
      advances picture_bytes settings t _ encoding eq refl lt refl (omega arith)
  encoded-Goes t (e, false) eq lt =
      advances picture_bytes settings t _ encoding eq refl refl refl (omega (arith, lt))

  encode-Goes :
      (t : Threads) (m : Main) (capture : Capture)
      → t.main ≡ m
      → Placed picture_bytes settings t.main t.frame t.input_done
      → Placed picture_bytes settings m t.frame t.input_done
      → Goes picture_bytes settings t (encode picture_bytes settings t m capture)
  unfolding encode
  encode-Goes t at_frame capture eq p at = stays picture_bytes settings t p
  encode-Goes t encoding capture eq p at = encoded-Goes t _ eq at
  encode-Goes t queueing capture eq p at = stays picture_bytes settings t p
  encode-Goes t joining capture eq p at = stays picture_bytes settings t p
  encode-Goes t leaving capture eq p at = stays picture_bytes settings t p
  encode-Goes t done capture eq p at = stays picture_bytes settings t p
  encode-Goes t failed capture eq p at = stays picture_bytes settings t p

  queue-Goes :
      (t : Threads) (m : Main)
      → t.main ≡ m
      → Placed picture_bytes settings t.main t.frame t.input_done
      → Placed picture_bytes settings m t.frame t.input_done
      → Goes picture_bytes settings t (queue picture_bytes settings t m)
  unfolding queue left_over main_left
  queue-Goes t at_frame eq p at = stays picture_bytes settings t p
  queue-Goes t encoding eq p at = stays picture_bytes settings t p
  queue-Goes t queueing eq p at = record {
    placed = tt;
    over = λ o. absurd (ground (arith, o, ap is_over eq));
    less = inr (
        omega (
          arith,
          at,
          ap (main_left (settings.frame_count - t.frame)) eq,
          length-append t.pending_slots (t.frame % 2 ∷ []),
        ));
  }
  queue-Goes t joining eq p at = stays picture_bytes settings t p
  queue-Goes t leaving eq p at = stays picture_bytes settings t p
  queue-Goes t done eq p at = stays picture_bytes settings t p
  queue-Goes t failed eq p at = stays picture_bytes settings t p

  ended-Goes :
      (t : Threads) (ends : Bool)
      → t.main ≡ joining
      → Goes picture_bytes settings t (record t { main = (if ends then done else failed) })
  unfolding main_left
  ended-Goes t true eq = advances picture_bytes settings t _ joining eq refl tt refl (omega arith)
  ended-Goes t false eq = advances picture_bytes settings t _ joining eq refl tt refl (omega arith)

  join_stopped-Goes :
      (t : Threads) (m : Main) (ends : Bool)
      → t.main ≡ m
      → Placed picture_bytes settings t.main t.frame t.input_done
      → Goes picture_bytes settings t (join_stopped picture_bytes settings t m ends)
  unfolding join_stopped main_left
  join_stopped-Goes t at_frame ends eq p = stays picture_bytes settings t p
  join_stopped-Goes t encoding ends eq p = stays picture_bytes settings t p
  join_stopped-Goes t queueing ends eq p = stays picture_bytes settings t p
  join_stopped-Goes t joining ends eq p =
      cases_if picture_bytes settings (Goes picture_bytes settings t) t.worker_error _ _
        (λ _. advances picture_bytes settings t _ joining eq refl tt refl (omega arith))
        (λ _. ended-Goes t ends eq)
  join_stopped-Goes t leaving ends eq p =
      advances picture_bytes settings t _ leaving eq refl tt refl (omega arith)
  join_stopped-Goes t done ends eq p = stays picture_bytes settings t p
  join_stopped-Goes t failed ends eq p = stays picture_bytes settings t p

  join-Goes :
      (t : Threads) (w : Worker) (ends : Bool)
      → Placed picture_bytes settings t.main t.frame t.input_done
      → Goes picture_bytes settings t (join picture_bytes settings t w ends)
  unfolding join
  join-Goes t idle ends p = stays picture_bytes settings t p
  join-Goes t (draining i) ends p = stays picture_bytes settings t p
  join-Goes t (freeing i) ends p = stays picture_bytes settings t p
  join-Goes t failing ends p = stays picture_bytes settings t p
  join-Goes t stopped ends p = join_stopped-Goes t t.main ends refl p

  take_pending-Goes :
      (t : Threads) (pending : List ℕ)
      → t.worker ≡ idle
      → t.pending_slots ≡ pending
      → Placed picture_bytes settings t.main t.frame t.input_done
      → Goes picture_bytes settings t (take_pending picture_bytes settings t pending)
  unfolding take_pending worker_left
  take_pending-Goes t [] eq none p =
      cases_if picture_bytes settings (Goes picture_bytes settings t) t.input_done _ _
        (λ _. works picture_bytes settings t _ idle eq p refl refl (omega arith))
        (λ _. stays picture_bytes settings t p)
  take_pending-Goes t (i ∷ pending) eq some p =
      works picture_bytes settings t _ idle eq p refl refl (omega (arith, ap length some))

  take_slot-Goes :
      (t : Threads) (w : Worker)
      → t.worker ≡ w
      → Placed picture_bytes settings t.main t.frame t.input_done
      → Goes picture_bytes settings t (take_slot picture_bytes settings t w)
  unfolding take_slot
  take_slot-Goes t idle eq p = take_pending-Goes t t.pending_slots eq refl p
  take_slot-Goes t (draining i) eq p = stays picture_bytes settings t p
  take_slot-Goes t (freeing i) eq p = stays picture_bytes settings t p
  take_slot-Goes t failing eq p = stays picture_bytes settings t p
  take_slot-Goes t stopped eq p = stays picture_bytes settings t p

  drained-Goes :
      (t : Threads) (i : ℕ) (result : Encoding × Bool)
      → t.worker ≡ draining i
      → Placed picture_bytes settings t.main t.frame t.input_done
      → Goes picture_bytes settings t (drained picture_bytes settings t i result)
  unfolding drained worker_left
  drained-Goes t i (e, true) eq p =
      works picture_bytes settings t _ (draining i) eq p refl refl (omega arith)
  drained-Goes t i (e, false) eq p =
      works picture_bytes settings t _ (draining i) eq p refl refl (omega arith)

  drain_one-Goes :
      (t : Threads) (w : Worker) (drain : Drain)
      → t.worker ≡ w
      → Placed picture_bytes settings t.main t.frame t.input_done
      → Goes picture_bytes settings t (drain_one picture_bytes settings t w drain)
  unfolding drain_one
  drain_one-Goes t idle drain eq p = stays picture_bytes settings t p
  drain_one-Goes t (draining i) drain eq p = drained-Goes t i _ eq p
  drain_one-Goes t (freeing i) drain eq p = stays picture_bytes settings t p
  drain_one-Goes t failing drain eq p = stays picture_bytes settings t p
  drain_one-Goes t stopped drain eq p = stays picture_bytes settings t p

  -- The end of the input leaves `main` where it is.
  ended_input :
      (m : Main) (frame : ℕ) (input_done : Bool)
      → Placed picture_bytes settings m frame input_done
      → Placed picture_bytes settings m frame true
  ended_input at_frame frame input_done p = tt
  ended_input encoding frame input_done p = p
  ended_input queueing frame input_done p = p
  ended_input joining frame input_done p = refl
  ended_input leaving frame input_done p = refl
  ended_input done frame input_done p = tt
  ended_input failed frame input_done p = tt

  free-Goes :
      (t : Threads) (w : Worker)
      → t.worker ≡ w
      → Placed picture_bytes settings t.main t.frame t.input_done
      → Goes picture_bytes settings t (free picture_bytes settings t w)
  unfolding free worker_left
  free-Goes t idle eq p = stays picture_bytes settings t p
  free-Goes t (draining i) eq p = stays picture_bytes settings t p
  free-Goes t (freeing i) eq p =
      works picture_bytes settings t _ (freeing i) eq p refl refl (omega arith)
  free-Goes t failing eq p =
      works picture_bytes settings t _ failing eq (ended_input t.main t.frame t.input_done p) refl
        refl (omega arith)
  free-Goes t stopped eq p = stays picture_bytes settings t p

  pub act-Goes :
      (t : Threads) (action : Action)
      → Placed picture_bytes settings t.main t.frame t.input_done
      → Goes picture_bytes settings t (act picture_bytes settings t action)
  unfolding act
  act-Goes t acquires p = acquire-Goes t t.main refl p
  act-Goes t (encodes capture) p = encode-Goes t t.main capture refl p p
  act-Goes t queues p = queue-Goes t t.main refl p p
  act-Goes t (joins ends) p = join-Goes t t.worker ends p
  act-Goes t takes p = take_slot-Goes t t.worker refl p
  act-Goes t (drains drain) p = drain_one-Goes t t.worker drain refl p
  act-Goes t frees p = free-Goes t t.worker refl p
