-- ===== src/Video/Queue/CanMove.antt =====
-- In each state behind the start one of the threads can go on, until `main` is over.
use teraguchi.Common.{
  ℕ, ◌-◌, ◌%◌, ◌≡◌, ◌≢◌, refl, sym, ◌∙◌, subst, ◌⊎◌, inl, inr, true, false, List, [], ◌∷◌, arith,
}
use teraguchi.Video.Encoder.{Settings}
use teraguchi.Video.Queue.{
  Main, at_frame, encoding, queueing, joining, leaving, done, failed, Worker, idle, draining,
  freeing, failing, stopped, Threads,
}
use teraguchi.Video.Queue.Order.{
  slots_from-empty, AtWorker, AtMain, breaks, has_failed, is_broken, Fate, broken, healthy,
}
use teraguchi.Video.Queue.Left.{is_over, Placed}
use teraguchi.Video.Queue.Moves.{
  Kind, acquiring, encoding_frame, queueing_slot, ending, taking, draining_slot, freeing_slot,
  Moves, draining-Moves, freeing-Moves, failing-Moves, encoding-Moves, queueing-Moves,
  joining-Moves, leaving-Moves, taking-Moves, acquiring-Moves,
}

module _ (picture_bytes : ℕ → List ℕ) (settings : Settings) where
  -- A worker with nothing to drain: `main` has a free slot, or an exception to go on with.
  waiting-free :
      (t : Threads)
      → Fate picture_bytes settings t
      → t.main ≡ at_frame
      → t.worker ≡ idle
      → t.pending_slots ≡ []
      → t.slot_in_use (t.frame % 2) ≡ false
  unfolding is_broken has_failed breaks
  waiting-free t (broken b) eq w none = absurd (
      ground (
        arith,
        subst (λ (w : Worker). breaks at_frame (has_failed w t.worker_error) ≡ true) w
            (subst (λ (m : Main). breaks m (has_failed t.worker t.worker_error) ≡ true) eq b),
      ))
  waiting-free t (healthy taken written freed h) eq w none = h.unused t.frame (omega arith) (
      omega
        (arith, at.1, h.taken_le, slots_from-empty (t.frame - taken) taken (sym none ∙ h.pending)))
    where
      at : AtWorker t.frame t.input_done idle taken written freed
      at = subst (λ (w : Worker). AtWorker t.frame t.input_done w taken written freed) w h.worker

  stopped-error :
      (t : Threads)
      → Fate picture_bytes settings t
      → t.main ≡ at_frame
      → t.worker ≡ stopped
      → t.worker_error ≡ true
  unfolding is_broken has_failed breaks
  stopped-error t (broken b) eq w =
      subst (λ (w : Worker). breaks at_frame (has_failed w t.worker_error) ≡ true) w
        (subst (λ (m : Main). breaks m (has_failed t.worker t.worker_error) ≡ true) eq b)
  stopped-error t (healthy taken written freed h) eq w = absurd (ground (arith, at.3, going))
    where
      at : AtWorker t.frame t.input_done stopped taken written freed
      at = subst (λ (w : Worker). AtWorker t.frame t.input_done w taken written freed) w h.worker

      going : t.input_done ≡ false
      going =
          subst
            (λ (m : Main).
              AtMain settings.frame_count t.frame t.input_done
                (t.encoding.slots (t.frame % 2)).picture m freed)
            eq h.main

  List-cases : (xs : List ℕ) → (xs ≡ []) ⊎ (xs ≢ [])
  List-cases [] = inl refl
  List-cases (x ∷ xs) = inr (λ e. ground (arith, e))

  abbrev pub CanMove : Threads → Type 0
  CanMove t = (k : Kind) × Moves picture_bytes settings t k

  idle-CanMove :
      (t : Threads) (m : Main)
      → Fate picture_bytes settings t
      → t.worker ≡ idle
      → t.pending_slots ≡ []
      → t.main ≡ m
      → is_over m ≡ false
      → Placed picture_bytes settings m t.frame t.input_done
      → CanMove t
  idle-CanMove t at_frame f w none eq o p =
      (acquiring, acquiring-Moves picture_bytes settings t eq (inl (waiting-free t f eq w none)))
  idle-CanMove t encoding f w none eq o p =
      (encoding_frame, encoding-Moves picture_bytes settings t eq)
  idle-CanMove t queueing f w none eq o p =
      (queueing_slot, queueing-Moves picture_bytes settings t eq)
  idle-CanMove t joining f w none eq o p = (taking, taking-Moves picture_bytes settings t w (inr p))
  idle-CanMove t leaving f w none eq o p = (taking, taking-Moves picture_bytes settings t w (inr p))
  idle-CanMove t done f w none eq o p = absurd (ground (arith, o))
  idle-CanMove t failed f w none eq o p = absurd (ground (arith, o))

  stopped-CanMove :
      (t : Threads) (m : Main)
      → Fate picture_bytes settings t
      → t.worker ≡ stopped
      → t.main ≡ m
      → is_over m ≡ false
      → CanMove t
  stopped-CanMove t at_frame f w eq o =
      (acquiring, acquiring-Moves picture_bytes settings t eq (inr (stopped-error t f eq w)))
  stopped-CanMove t encoding f w eq o = (encoding_frame, encoding-Moves picture_bytes settings t eq)
  stopped-CanMove t queueing f w eq o = (queueing_slot, queueing-Moves picture_bytes settings t eq)
  stopped-CanMove t joining f w eq o = (ending, joining-Moves picture_bytes settings t w eq)
  stopped-CanMove t leaving f w eq o = (ending, leaving-Moves picture_bytes settings t w eq)
  stopped-CanMove t done f w eq o = absurd (ground (arith, o))
  stopped-CanMove t failed f w eq o = absurd (ground (arith, o))

  worker-CanMove :
      (t : Threads) (w : Worker)
      → Fate picture_bytes settings t
      → t.worker ≡ w
      → is_over t.main ≡ false
      → Placed picture_bytes settings t.main t.frame t.input_done
      → CanMove t
  worker-CanMove t idle f w o p = elim (List-cases t.pending_slots) [
    | inl none ↦ idle-CanMove t t.main f w none refl o p
    | inr some ↦ (taking, taking-Moves picture_bytes settings t w (inl some))
  ]
  worker-CanMove t (draining i) f w o p =
      (draining_slot, draining-Moves picture_bytes settings t i w)
  worker-CanMove t (freeing i) f w o p = (freeing_slot, freeing-Moves picture_bytes settings t i w)
  worker-CanMove t failing f w o p = (freeing_slot, failing-Moves picture_bytes settings t w)
  worker-CanMove t stopped f w o p = stopped-CanMove t t.main f w refl o

  pub going-CanMove :
      (t : Threads)
      → Fate picture_bytes settings t
      → is_over t.main ≡ false
      → Placed picture_bytes settings t.main t.frame t.input_done
      → CanMove t
  going-CanMove t f o p = worker-CanMove t t.worker f refl o p
