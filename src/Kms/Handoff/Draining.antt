-- ===== src/Kms/Handoff/Draining.antt =====
-- After the end no sample reaches the slot again.
use teraguchi.Common.{
  ℕ, ◌≡◌, refl, ap, Bool, true, false, not, ◌||◌, Option, none, some, if◌then◌else◌, arith,
}
use teraguchi.Kms.Schedule.{SubmitStamp}
use teraguchi.Kms.Display.{Display}
use teraguchi.Kms.Handoff.{
  Ready, Producer, idle, offering, ended, Worker, awaiting, showing, failing, exited, Threads, pull,
  store, offer, end_stream, end_main, drop_ready, take_ready, work, shown, stop,
}
use teraguchi.Kms.Handoff.Turns.{has_ended, is_draining}

pub drained :
    (c : Bool) (a b : Threads)
    → (c ≡ true → is_draining a ≡ true)
    → (c ≡ false → is_draining b ≡ true)
    → is_draining (if c then a else b) ≡ true
drained true a b p q = p refl
drained false a b p q = q refl

pub pull-drains :
    (t : Threads) (p : Producer) (sample : ℕ) (found : Option SubmitStamp) (surface : ℕ)
    → t.producer ≡ p
    → is_draining t ≡ true
    → is_draining (pull t p sample found surface) ≡ true
unfolding pull
pull-drains t idle sample none surface e d = ground (arith, d, ap has_ended e)
pull-drains t idle sample (some submit) surface e d = ground (arith, d, ap has_ended e)
pull-drains t (offering r) sample found surface e d = d
pull-drains t ended sample found surface e d = d

pub offer-drains :
    (t : Threads) (expected : ℕ) (p : Producer)
    → t.producer ≡ p
    → is_draining t ≡ true
    → is_draining (offer t expected p) ≡ true
unfolding offer
offer-drains t expected idle e d = d
offer-drains t expected ended e d = d
offer-drains t expected (offering r) e d =
    drained t.worker_stop _ _ (λ stopped. ground (arith, d, stopped))
      (λ going. absurd (ground (arith, d, ap has_ended e, going)))

pub end_stream-drains :
    (t : Threads) (p : Producer)
    → t.producer ≡ p
    → is_draining t ≡ true
    → is_draining (end_stream t p) ≡ true
unfolding end_stream
end_stream-drains t idle e d = ground (arith, d, ap has_ended e)
end_stream-drains t (offering r) e d = d
end_stream-drains t ended e d = d

pub drop-drains :
    (t : Threads) (ready : Option Ready)
    → is_draining t ≡ true
    → is_draining (drop_ready t ready) ≡ true
unfolding drop_ready
drop-drains t none d = d
drop-drains t (some r) d = d

pub take-drains :
    (t : Threads) (ready : Option Ready)
    → is_draining t ≡ true
    → is_draining (take_ready t ready) ≡ true
unfolding take_ready
take-drains t none d = drained t.producer_done _ _ (λ done. d) (λ more. d)
take-drains t (some r) d = d

pub work-drains : (t : Threads) (w : Worker) → is_draining t ≡ true → is_draining (work t w) ≡ true
unfolding work
work-drains t awaiting d =
    drained t.worker_stop _ _ (λ stopped. drop-drains t t.ready d)
      (λ going. take-drains t t.ready d)
work-drains t (showing r) d = d
work-drains t failing d = d
work-drains t exited d = d

pub shown-drains :
    (t : Threads) (result : Display × Bool)
    → is_draining t ≡ true
    → is_draining (shown t result) ≡ true
unfolding shown
shown-drains t (display, true) d = d
shown-drains t (display, false) d = d

pub stop-drains : (t : Threads) (w : Worker) → is_draining t ≡ true → is_draining (stop t w) ≡ true
unfolding stop
stop-drains t failing d = ground (arith, d)
stop-drains t awaiting d = d
stop-drains t (showing r) d = d
stop-drains t exited d = d

-- Until `main` has set `producer_done`, only what `main` does sets it, and then the pipeline has ended.
abbrev pub is_settled : Threads → Bool
is_settled t = not t.producer_done || is_draining t

branch-settled :
    (c : Bool) (a b : Threads)
    → is_settled a ≡ true
    → is_settled b ≡ true
    → is_settled (if c then a else b) ≡ true
branch-settled true a b p q = p
branch-settled false a b p q = q

undone-settled : (t : Threads) → t.producer_done ≡ false → is_settled t ≡ true
undone-settled t e = ground (arith, e)

pub pull-settled :
    (t : Threads) (p : Producer) (sample : ℕ) (found : Option SubmitStamp) (surface : ℕ)
    → t.producer_done ≡ false
    → is_settled (pull t p sample found surface) ≡ true
unfolding pull
pull-settled t idle sample none surface e = ground (arith, e)
pull-settled t idle sample (some submit) surface e = ground (arith, e)
pull-settled t (offering r) sample found surface e = ground (arith, e)
pull-settled t ended sample found surface e = ground (arith, e)

store-settled :
    (t : Threads) (expected : ℕ) (r : Ready) (ready : Option Ready)
    → t.producer_done ≡ false
    → is_settled (store t expected r ready) ≡ true
unfolding store
store-settled t expected r none e = ground (arith, e)
store-settled t expected r (some full) e = ground (arith, e)

pub offer-settled :
    (t : Threads) (expected : ℕ) (p : Producer)
    → t.producer_done ≡ false
    → is_settled (offer t expected p) ≡ true
unfolding offer
offer-settled t expected idle e = ground (arith, e)
offer-settled t expected ended e = ground (arith, e)
offer-settled t expected (offering r) e =
    branch-settled t.worker_stop _ _ (ground (arith, e)) (store-settled t expected r t.ready e)

pub end_stream-settled :
    (t : Threads) (p : Producer) → t.producer_done ≡ false → is_settled (end_stream t p) ≡ true
unfolding end_stream
end_stream-settled t idle e = ground (arith, e)
end_stream-settled t (offering r) e = ground (arith, e)
end_stream-settled t ended e = ground (arith, e)

pub end_main-settled :
    (t : Threads) (p : Producer) (eos : Bool)
    → t.producer ≡ p
    → t.producer_done ≡ false
    → is_settled (if t.producer_done then t else end_main t p eos) ≡ true
unfolding end_main
end_main-settled t p false e d = branch-settled t.producer_done _ _ (undone-settled t d) refl
end_main-settled t ended true e d =
    branch-settled t.producer_done _ _ (undone-settled t d) (ground (arith, ap has_ended e))
end_main-settled t idle true e d =
    branch-settled t.producer_done _ _ (undone-settled t d) (undone-settled t d)
end_main-settled t (offering r) true e d =
    branch-settled t.producer_done _ _ (undone-settled t d) (undone-settled t d)

drop-settled :
    (t : Threads) (ready : Option Ready)
    → t.producer_done ≡ false
    → is_settled (drop_ready t ready) ≡ true
unfolding drop_ready
drop-settled t none e = ground (arith, e)
drop-settled t (some r) e = ground (arith, e)

take-settled :
    (t : Threads) (ready : Option Ready)
    → t.producer_done ≡ false
    → is_settled (take_ready t ready) ≡ true
unfolding take_ready
take-settled t none e = branch-settled t.producer_done _ _ (ground (arith, e)) (ground (arith, e))
take-settled t (some r) e = ground (arith, e)

pub work-settled :
    (t : Threads) (w : Worker) → t.producer_done ≡ false → is_settled (work t w) ≡ true
unfolding work
work-settled t awaiting e =
    branch-settled t.worker_stop _ _ (drop-settled t t.ready e) (take-settled t t.ready e)
work-settled t (showing r) e = ground (arith, e)
work-settled t failing e = ground (arith, e)
work-settled t exited e = ground (arith, e)

pub shown-settled :
    (t : Threads) (result : Display × Bool)
    → t.producer_done ≡ false
    → is_settled (shown t result) ≡ true
unfolding shown
shown-settled t (display, true) e = ground (arith, e)
shown-settled t (display, false) e = ground (arith, e)

pub stop-settled :
    (t : Threads) (w : Worker) → t.producer_done ≡ false → is_settled (stop t w) ≡ true
unfolding stop
stop-settled t failing e = ground (arith, e)
stop-settled t awaiting e = ground (arith, e)
stop-settled t (showing r) e = ground (arith, e)
stop-settled t exited e = ground (arith, e)
