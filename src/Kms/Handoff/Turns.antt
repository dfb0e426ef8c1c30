-- ===== src/Kms/Handoff/Turns.antt =====
-- The turns of `display_worker` in `Handoff`: what one action does to them after the end.
use teraguchi.Common.{
  ℕ, ◌+◌, ◌<◌, ◌≡◌, ◌≢◌, ◌==◌, refl, ap, ap₂, Bool, true, false, ◌||◌, ◌&&◌, List, [], ◌∷◌, Option,
  none, some, if◌then◌else◌, arith,
}
use teraguchi.Kms.Framebuffers.{SampleInfo}
use teraguchi.Kms.Schedule.{SubmitStamp}
use teraguchi.Kms.Display.{Display, Screen}
use teraguchi.Kms.Handoff.{
  Ready, Producer, idle, offering, ended, Worker, awaiting, showing, failing, exited, Threads,
  Action, pulls, offers, ends, main_ends, works, shows, stops, pull, store, offer, end_stream,
  end_main, drop_ready, take_ready, work, shown, stop,
}

abbrev pub has_ended : Producer → Bool
has_ended idle = false
has_ended (offering r) = false
has_ended ended = true

-- No further sample reaches the worker.
abbrev pub is_draining : Threads → Bool
is_draining t = t.producer_done && (t.worker_stop || has_ended t.producer)

abbrev pub waiting : Option Ready → ℕ
waiting none = 0
waiting (some r) = 2

-- How many turns the worker still has, at most.
abbrev pub turns : Worker → Option Ready → ℕ
turns awaiting ready = 1 + waiting ready
turns (showing r) ready = 2 + waiting ready
turns failing ready = 1
turns exited ready = 0

-- Which kind of action a worker in this state takes next.
abbrev pub needed : Worker → ℕ
needed awaiting = 1
needed (showing r) = 2
needed failing = 3
needed exited = 4

abbrev pub kind : Action → ℕ
kind works = 1
kind (shows info screen) = 2
kind stops = 3
kind (pulls sample found surface) = 0
kind offers = 0
kind ends = 0
kind (main_ends eos) = 0

abbrev pub includes : ℕ → List Action → Bool
includes k [] = false
includes k (action ∷ actions) = (kind action == k) || includes k actions

-- In a round each of the worker's three actions is tried at least once, in any order and between any
-- others.
abbrev pub is_round : List Action → Bool
is_round actions = includes 1 actions && includes 2 actions && includes 3 actions

pub data Progress (action : Action) (t next : Threads) : Type 0 where
  moves : turns next.worker next.ready < turns t.worker t.ready → Progress action t next
  keeps :
      kind action ≢ needed t.worker
      → next.worker ≡ t.worker
      → next.ready ≡ t.ready
      → Progress action t next

pub other : (w : Worker) → 0 ≢ needed w
other awaiting e = omega (arith, e)
other (showing r) e = omega (arith, e)
other failing e = omega (arith, e)
other exited e = omega (arith, e)

pub by_test :
    (action : Action) (t : Threads) (c : Bool) (a b : Threads)
    → (c ≡ true → Progress action t a)
    → (c ≡ false → Progress action t b)
    → Progress action t (if c then a else b)
by_test action t true a b p q = p refl
by_test action t false a b p q = q refl

pub drop-Progress :
    (t : Threads) (ready : Option Ready)
    → t.worker ≡ awaiting
    → t.ready ≡ ready
    → Progress works t (drop_ready t ready)
unfolding drop_ready
drop-Progress t none e f = moves (omega (arith, ap₂ turns e f))
drop-Progress t (some r) e f = moves (omega (arith, ap₂ turns e f))

pub take-Progress :
    (t : Threads) (ready : Option Ready)
    → t.producer_done ≡ true
    → t.worker ≡ awaiting
    → t.ready ≡ ready
    → Progress works t (take_ready t ready)
unfolding take_ready
take-Progress t none d e f =
    by_test works t t.producer_done _ _ (λ done. moves (omega (arith, ap₂ turns e f)))
      (λ more. absurd (ground (arith, d, more)))
take-Progress t (some r) d e f = moves (omega (arith, ap₂ turns e f))

pub work-Progress :
    (t : Threads) (w : Worker) → t.producer_done ≡ true → t.worker ≡ w → Progress works t (work t w)
unfolding work
work-Progress t awaiting d e =
    by_test works t t.worker_stop _ _ (λ stopped. drop-Progress t t.ready e refl)
      (λ going. take-Progress t t.ready d e refl)
work-Progress t (showing r) d e = keeps (λ h. omega (arith, h, ap needed e)) refl refl
work-Progress t failing d e = keeps (λ h. omega (arith, h, ap needed e)) refl refl
work-Progress t exited d e = keeps (λ h. omega (arith, h, ap needed e)) refl refl

pub stop-Progress : (t : Threads) (w : Worker) → t.worker ≡ w → Progress stops t (stop t w)
unfolding stop
stop-Progress t failing e = moves (omega (arith, ap (λ v. turns v t.ready) e))
stop-Progress t awaiting e = keeps (λ h. omega (arith, h, ap needed e)) refl refl
stop-Progress t (showing r) e = keeps (λ h. omega (arith, h, ap needed e)) refl refl
stop-Progress t exited e = keeps (λ h. omega (arith, h, ap needed e)) refl refl

pub shown-Progress :
    (t : Threads) (r : Ready) (info : SampleInfo) (screen : Screen) (result : Display × Bool)
    → t.worker ≡ showing r
    → Progress (shows info screen) t (shown t result)
unfolding shown
shown-Progress t r info screen (display, true) e =
    moves (omega (arith, ap (λ v. turns v t.ready) e))
shown-Progress t r info screen (display, false) e =
    moves (omega (arith, ap (λ v. turns v t.ready) e))

-- What the other threads do leaves the worker alone.
pub store-Progress :
    (t : Threads) (expected : ℕ) (r : Ready) (ready : Option Ready)
    → is_draining t ≡ true
    → t.producer ≡ offering r
    → t.worker_stop ≡ false
    → Progress offers t (store t expected r ready)
store-Progress t expected r ready d e f = absurd (ground (arith, d, ap has_ended e, f))

pub pull-Progress :
    (t : Threads) (p : Producer) (sample : ℕ) (found : Option SubmitStamp) (surface : ℕ)
    → Progress (pulls sample found surface) t (pull t p sample found surface)
unfolding pull
pull-Progress t idle sample none surface = keeps (other t.worker) refl refl
pull-Progress t idle sample (some submit) surface = keeps (other t.worker) refl refl
pull-Progress t (offering r) sample found surface = keeps (other t.worker) refl refl
pull-Progress t ended sample found surface = keeps (other t.worker) refl refl

pub offer-Progress :
    (t : Threads) (expected : ℕ) (p : Producer)
    → is_draining t ≡ true
    → t.producer ≡ p
    → Progress offers t (offer t expected p)
unfolding offer
offer-Progress t expected idle d e = keeps (other t.worker) refl refl
offer-Progress t expected ended d e = keeps (other t.worker) refl refl
offer-Progress t expected (offering r) d e =
    by_test offers t t.worker_stop _ _ (λ stopped. keeps (other t.worker) refl refl)
      (λ going. store-Progress t expected r t.ready d e going)

pub end_stream-Progress : (t : Threads) (p : Producer) → Progress ends t (end_stream t p)
unfolding end_stream
end_stream-Progress t idle = keeps (other t.worker) refl refl
end_stream-Progress t (offering r) = keeps (other t.worker) refl refl
end_stream-Progress t ended = keeps (other t.worker) refl refl

pub end_main-Progress :
    (t : Threads) (p : Producer) (eos : Bool) → Progress (main_ends eos) t (end_main t p eos)
unfolding end_main
end_main-Progress t p false = keeps (other t.worker) refl refl
end_main-Progress t ended true = keeps (other t.worker) refl refl
end_main-Progress t idle true = keeps (other t.worker) refl refl
end_main-Progress t (offering r) true = keeps (other t.worker) refl refl
