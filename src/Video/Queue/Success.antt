-- ===== src/Video/Queue/Success.antt =====
-- Schedules whose calls all succeed.
use mathlib.Core.List.{flatten}
use teraguchi.Common.{
  ℕ, ◌+◌, ◌*◌, ◌≤◌, ◌≡◌, refl, Bool, true, false, List, [], ◌∷◌, length, arith, All,
}
use teraguchi.Video.Encoder.{Settings}
use teraguchi.Video.Queue.{
  Main, at_frame, encoding, queueing, joining, leaving, done, failed, Threads, Action, run, start,
}
use teraguchi.Video.Queue.Order.{breaks, has_failed, is_broken, Fate, broken, healthy}
use teraguchi.Video.Queue.Reach.{act-Fate, start-Fate}
use teraguchi.Video.Queue.Left.{is_over}
use teraguchi.Video.Queue.Fair.{IsFair, fair_run-is_over}
use teraguchi.Video.Queue.Unbroken.{Succeeding, act-unbroken}

module _ (picture_bytes : ℕ → List ℕ) (settings : Settings) where
  no_error :
      (t : Threads) → Fate picture_bytes settings t → is_broken t ≡ false → t.worker_error ≡ false
  no_error t (broken b) ok = absurd (ground (arith, b, ok))
  no_error t (healthy taken written freed h) ok = h.no_error

  run-unbroken :
      (actions : List Action) (t : Threads)
      → All Succeeding actions
      → Fate picture_bytes settings t
      → is_broken t ≡ false
      → is_broken (run picture_bytes settings t actions) ≡ false
  unfolding run
  run-unbroken [] t well f ok = ok
  run-unbroken (action ∷ actions) t well f ok =
      run-unbroken actions _ well.1 (act-Fate picture_bytes settings t action f)
        (act-unbroken picture_bytes settings t action well.0 (no_error t f ok) ok)

  over_done :
      (m : Main) (worker_failed : Bool)
      → is_over m ≡ true
      → breaks m worker_failed ≡ false
      → m ≡ done
  unfolding breaks
  over_done done worker_failed o ok = refl
  over_done failed worker_failed o ok = absurd (ground (arith, ok))
  over_done at_frame worker_failed o ok = absurd (ground (arith, o))
  over_done encoding worker_failed o ok = absurd (ground (arith, o))
  over_done queueing worker_failed o ok = absurd (ground (arith, o))
  over_done joining worker_failed o ok = absurd (ground (arith, o))
  over_done leaving worker_failed o ok = absurd (ground (arith, o))

  -- When each call succeeds, every schedule of rounds in which each kind of action has a turn has
  -- ended the run without an exception after six rounds for each frame and three.
  pub fair_run-done :
      (rounds : List (List Action))
      → All IsFair rounds
      → All Succeeding (flatten rounds)
      → 6 * settings.frame_count + 3 ≤ length rounds
      → (run picture_bytes settings start (flatten rounds)).main ≡ done
  unfolding is_broken breaks has_failed
  fair_run-done rounds fair well enough =
      over_done _ _ (fair_run-is_over picture_bytes settings rounds fair enough)
        (run-unbroken (flatten rounds) start well (start-Fate picture_bytes settings) refl)
