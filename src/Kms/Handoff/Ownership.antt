-- ===== src/Kms/Handoff/Ownership.antt =====
-- Each sample is in one place.
use teraguchi.Common.{
  ℕ, ◌+◌, ◌≡◌, refl, ap, Bool, true, false, List, [], ◌∷◌, Option, none, some, ◌==◌, leb,
  if◌then◌else◌, arith,
}
use teraguchi.Kms.Framebuffers.{Strtoull, SampleInfo}
use teraguchi.Kms.Schedule.{SubmitStamp}
use teraguchi.Kms.Display.{Display, Screen}
use teraguchi.Kms.Display.Accounts.{times, owned, display_sample-Accounted}
use teraguchi.Kms.Handoff.{
  Ready, Producer, idle, offering, ended, Worker, awaiting, showing, failing, exited, Threads,
  Action, pulls, offers, ends, main_ends, works, shows, stops, pull, store, offer, end_stream,
  end_main, drop_ready, take_ready, work, shown, stop, show, act, run,
}

abbrev pub is_ready : ℕ → Option Ready → ℕ
is_ready x none = 0
is_ready x (some r) = if r.sample == x then 1 else 0

abbrev pub in_producer : ℕ → Producer → ℕ
in_producer x idle = 0
in_producer x (offering r) = if r.sample == x then 1 else 0
in_producer x ended = 0

abbrev pub in_worker : ℕ → Worker → ℕ
in_worker x awaiting = 0
in_worker x (showing r) = if r.sample == x then 1 else 0
in_worker x failing = 0
in_worker x exited = 0

-- Where the references of a sample are: with the decoder's thread, in the slot, with the worker, on the
-- screen, or given back.
abbrev pub places : ℕ → Threads → ℕ
places x t =
    in_producer x t.producer
    + is_ready x t.ready
    + in_worker x t.worker
    + owned x t.display
    + times x t.dropped

abbrev Kept : ℕ → Threads → Type 0
Kept x t = times x t.pulled ≡ places x t

module _ (x : ℕ) where
  by_test : (c : Bool) (a b : Threads) → Kept x a → Kept x b → Kept x (if c then a else b)
  by_test true a b p q = p
  by_test false a b p q = q

  pull-Kept :
      (t : Threads) (p : Producer) (sample : ℕ) (found : Option SubmitStamp) (surface : ℕ)
      → t.producer ≡ p
      → Kept x t
      → Kept x (pull t p sample found surface)
  unfolding pull
  pull-Kept t idle sample none surface e k = omega (arith, ap (in_producer x) e)
  pull-Kept t idle sample (some submit) surface e k = omega (arith, ap (in_producer x) e)
  pull-Kept t (offering r) sample found surface e k = k
  pull-Kept t ended sample found surface e k = k

  end_state : (t : Threads) (c : Bool) → in_producer x (if c then ended else idle) ≡ 0
  end_state t true = refl
  end_state t false = refl

  store-Kept :
      (t : Threads) (expected : ℕ) (r : Ready) (ready : Option Ready)
      → t.producer ≡ offering r
      → t.ready ≡ ready
      → Kept x t
      → Kept x (store t expected r ready)
  unfolding store
  store-Kept t expected r none e f k =
      omega
        (arith, ap (in_producer x) e, ap (is_ready x) f, end_state t (leb expected (t.queued + 1)))
  store-Kept t expected r (some full) e f k = k

  offer-Kept :
      (t : Threads) (expected : ℕ) (p : Producer)
      → t.producer ≡ p
      → Kept x t
      → Kept x (offer t expected p)
  unfolding offer
  offer-Kept t expected idle e k = k
  offer-Kept t expected ended e k = k
  offer-Kept t expected (offering r) e k =
      by_test t.worker_stop _ _ (omega (arith, ap (in_producer x) e))
        (store-Kept t expected r t.ready e refl k)

  end_stream-Kept :
      (t : Threads) (p : Producer) → t.producer ≡ p → Kept x t → Kept x (end_stream t p)
  unfolding end_stream
  end_stream-Kept t idle e k = omega (arith, ap (in_producer x) e)
  end_stream-Kept t (offering r) e k = k
  end_stream-Kept t ended e k = k

  end_main-Kept : (t : Threads) (p : Producer) (eos : Bool) → Kept x t → Kept x (end_main t p eos)
  unfolding end_main
  end_main-Kept t p false k = k
  end_main-Kept t ended true k = k
  end_main-Kept t idle true k = k
  end_main-Kept t (offering r) true k = k

  drop_ready-Kept :
      (t : Threads) (ready : Option Ready)
      → t.worker ≡ awaiting
      → t.ready ≡ ready
      → Kept x t
      → Kept x (drop_ready t ready)
  unfolding drop_ready
  drop_ready-Kept t none e f k = omega (arith, ap (in_worker x) e, ap (is_ready x) f)
  drop_ready-Kept t (some r) e f k = omega (arith, ap (in_worker x) e, ap (is_ready x) f)

  take_ready-Kept :
      (t : Threads) (ready : Option Ready)
      → t.worker ≡ awaiting
      → t.ready ≡ ready
      → Kept x t
      → Kept x (take_ready t ready)
  unfolding take_ready
  take_ready-Kept t none e f k = by_test t.producer_done _ _ (omega (arith, ap (in_worker x) e)) k
  take_ready-Kept t (some r) e f k = omega (arith, ap (in_worker x) e, ap (is_ready x) f)

  work-Kept : (t : Threads) (w : Worker) → t.worker ≡ w → Kept x t → Kept x (work t w)
  unfolding work
  work-Kept t awaiting e k =
      by_test t.worker_stop _ _ (drop_ready-Kept t t.ready e refl k)
        (take_ready-Kept t t.ready e refl k)
  work-Kept t (showing r) e k = k
  work-Kept t failing e k = k
  work-Kept t exited e k = k

  shown-Kept :
      (t : Threads) (r : Ready) (result : Display × Bool)
      → t.worker ≡ showing r
      → owned x result.0 ≡ (if r.sample == x then 1 else 0) + owned x t.display
      → Kept x t
      → Kept x (shown t result)
  unfolding shown
  shown-Kept t r (display, true) e once k = omega (arith, ap (in_worker x) e, once)
  shown-Kept t r (display, false) e once k = omega (arith, ap (in_worker x) e, once)

  stop-Kept : (t : Threads) (w : Worker) → t.worker ≡ w → Kept x t → Kept x (stop t w)
  unfolding stop
  stop-Kept t failing e k = omega (arith, ap (in_worker x) e)
  stop-Kept t awaiting e k = k
  stop-Kept t (showing r) e k = k
  stop-Kept t exited e k = k

  module _ (strtoull : Strtoull) (hdisplay vdisplay expected : ℕ) where
    show-Kept :
        (t : Threads) (w : Worker) (info : SampleInfo) (screen : Screen)
        → t.worker ≡ w
        → Kept x t
        → Kept x (show strtoull hdisplay vdisplay expected t w info screen)
    unfolding show
    show-Kept t awaiting info screen e k = k
    show-Kept t failing info screen e k = k
    show-Kept t exited info screen e k = k
    show-Kept t (showing r) info screen e k =
        shown-Kept t r _ e
          (display_sample-Accounted strtoull hdisplay vdisplay x r.sample t.display info r.submit
            r.surface_ns screen).once
          k

    act-Kept :
        (t : Threads) (action : Action)
        → Kept x t
        → Kept x (act strtoull hdisplay vdisplay expected t action)
    unfolding act
    act-Kept t (pulls sample found surface) k = pull-Kept t t.producer sample found surface refl k
    act-Kept t offers k = offer-Kept t expected t.producer refl k
    act-Kept t ends k = end_stream-Kept t t.producer refl k
    act-Kept t (main_ends eos) k = by_test t.producer_done _ _ k (end_main-Kept t t.producer eos k)
    act-Kept t works k = work-Kept t t.worker refl k
    act-Kept t (shows info screen) k = show-Kept t t.worker info screen refl k
    act-Kept t stops k = stop-Kept t t.worker refl k

    -- However the threads interleave and whatever the kernel answers, each reference to a sample that was
    -- pulled from the sink is in just one place: with the decoder's thread, in the slot, with the worker,
    -- on the screen, or given back.
    pub run-places :
        (actions : List Action) (t : Threads)
        → times x t.pulled ≡ places x t
        → times x (run strtoull hdisplay vdisplay expected t actions).pulled
          ≡ places x (run strtoull hdisplay vdisplay expected t actions)
    unfolding run
    run-places [] t k = k
    run-places (action ∷ actions) t k =
        run-places actions (act strtoull hdisplay vdisplay expected t action) (act-Kept t action k)
