-- ===== src/Video/Queue/Reach.antt =====
-- The states that the threads reach.
use teraguchi.Common.{ℕ, refl, List, [], ◌∷◌, arith}
use teraguchi.Video.Encoder.{Settings}
use teraguchi.Video.Encoder.Output.{all_pictures, kept_pictures}
use teraguchi.Video.Encoder.Sequential.{Complete}
use teraguchi.Video.Queue.{
  Threads, Action, acquires, encodes, queues, joins, takes, drains, frees, act, run, start,
  nothing_encoded,
}
use teraguchi.Video.Queue.Order.{Fate, broken, healthy}
use teraguchi.Video.Queue.Steps.{acquire-Fate, encode-Fate, queue-Fate}
use teraguchi.Video.Queue.Drains.{join-Fate, take_slot-Fate, drain_one-Fate, free-Fate}
use teraguchi.Video.Queue.Broken.{act-broken}

module _ (picture_bytes : ℕ → List ℕ) (settings : Settings) where
  pub act-Fate :
      (t : Threads) (action : Action)
      → Fate picture_bytes settings t
      → Fate picture_bytes settings (act picture_bytes settings t action)
  unfolding act
  act-Fate t action (broken b) = broken (act-broken picture_bytes settings t action b)
  act-Fate t acquires (healthy taken written freed h) =
      acquire-Fate picture_bytes settings t taken written freed t.main refl h.main h
  act-Fate t (encodes capture) (healthy taken written freed h) =
      encode-Fate picture_bytes settings t taken written freed t.main capture refl h.main h
  act-Fate t queues (healthy taken written freed h) =
      queue-Fate picture_bytes settings t taken written freed t.main refl h.main h
  act-Fate t (joins ends) (healthy taken written freed h) =
      join-Fate picture_bytes settings t taken written freed t.worker ends h.worker h
  act-Fate t takes (healthy taken written freed h) =
      take_slot-Fate picture_bytes settings t taken written freed t.worker h.worker h
  act-Fate t (drains drain) (healthy taken written freed h) =
      drain_one-Fate picture_bytes settings t taken written freed t.worker drain h.worker h
  act-Fate t frees (healthy taken written freed h) =
      free-Fate picture_bytes settings t taken written freed t.worker h.worker h

  pub run-Fate :
      (actions : List Action) (t : Threads)
      → Fate picture_bytes settings t
      → Fate picture_bytes settings (run picture_bytes settings t actions)
  unfolding run
  run-Fate [] t f = f
  run-Fate (action ∷ actions) t f = run-Fate actions _ (act-Fate t action f)

  pub start-Complete : Complete picture_bytes settings nothing_encoded 0
  unfolding all_pictures kept_pictures
  start-Complete = record {
    written = record {
      bitstream = refl;
      reference = ground arith;
      counted = refl;
      dropped = ground arith;
      bytes = refl;
    };
    flagged = record { invalidated = ground arith; forced = ground arith };
  }

  pub start-Fate : Fate picture_bytes settings start
  start-Fate = healthy 0 0 0 (record {
    worker = (refl, refl);
    main = refl;
    taken_le = omega arith;
    full = omega arith;
    within = omega arith;
    pending = refl;
    used = λ k le lt. absurd (omega (arith, lt));
    unused = λ k le lt. refl;
    pictures = λ k le lt. absurd (omega (arith, lt));
    output = start-Complete.written;
    flagged = start-Complete.flagged;
    no_error = refl;
  })
