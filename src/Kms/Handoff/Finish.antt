-- ===== src/Kms/Handoff/Finish.antt =====
-- The worker's return after `main` has seen the end of the pipeline.
use teraguchi.Common.{
  ℕ, ◌-◌, length, All, ◌≤◌, ◌<◌, ◌≡◌, ◌≢◌, ◌==◌, refl, ap, ap₂, Bool, true, false, ◌||◌, List, [],
  ◌∷◌, ◌++◌, Option, none, some, if◌then◌else◌, arith, Bool-cases, inl, inr,
}
use teraguchi.Kms.Framebuffers.{Strtoull, SampleInfo}
use teraguchi.Kms.Display.{Screen}
use teraguchi.Kms.Handoff.{
  Ready, Worker, awaiting, showing, failing, exited, Threads, Action, pulls, offers, ends,
  main_ends, works, shows, stops, end_main, show, act, run,
}
use teraguchi.Kms.Handoff.Turns.{
  by_test, end_stream-Progress, includes, is_draining, is_round, kind, needed, offer-Progress,
  other, pull-Progress, shown-Progress, stop-Progress, turns, work-Progress, Progress, moves, keeps,
}
use teraguchi.Kms.Handoff.Draining.{
  is_settled, pull-settled, offer-settled, end_stream-settled, end_main-settled, work-settled,
  shown-settled, stop-settled, drained, end_stream-drains, offer-drains, pull-drains, shown-drains,
  stop-drains, work-drains,
}

-- What a list of actions after the end leaves of the worker's turns.
record Rounded (actions : List Action) (t end : Threads) : Type 0 where
  fewer : turns end.worker end.ready ≤ turns t.worker t.ready
  turned :
      includes (needed t.worker) actions ≡ true
      → turns end.worker end.ready < turns t.worker t.ready
  drains : is_draining end ≡ true

includes-tail : (a k : ℕ) (rest : Bool) → a ≢ k → ((a == k) || rest) ≡ true → rest ≡ true
includes-tail a k rest n h = ground (arith, n, h)

cons-Rounded :
    (action : Action) (actions : List Action) (t next end : Threads)
    → Progress action t next
    → Rounded actions next end
    → Rounded (action ∷ actions) t end
cons-Rounded action actions t next end (moves less) rest = record {
  fewer = omega (arith, less, rest.fewer);
  turned = λ h. omega (arith, less, rest.fewer);
  drains = rest.drains;
}
cons-Rounded action actions t next end (keeps other_kind same_worker same_ready) rest =
    let same : turns next.worker next.ready ≡ turns t.worker t.ready =
      ap₂ turns same_worker same_ready in
    record {
      fewer = omega (arith, same, rest.fewer);
      turned = λ h.
          let found : includes (needed next.worker) actions ≡ true =
            (rw same_worker (
              includes-tail (kind action) (needed t.worker) (includes (needed t.worker) actions)
                other_kind h)) in
          let less : turns end.worker end.ready < turns next.worker next.ready =
            rest.turned found in
          omega (arith, same, less);
      drains = rest.drains;
    }

abbrev pub joined : List (List Action) → List Action
joined [] = []
joined (round ∷ rounds) = round ++ joined rounds

show_turn :
    (strtoull : Strtoull) (hdisplay vdisplay expected : ℕ) (t : Threads) (w : Worker)
    (info : SampleInfo) (screen : Screen)
    → t.worker ≡ w
    → is_draining t ≡ true
    → Progress (shows info screen) t (show strtoull hdisplay vdisplay expected t w info screen)
      × (is_draining (show strtoull hdisplay vdisplay expected t w info screen) ≡ true)
unfolding show
show_turn strtoull hdisplay vdisplay expected t awaiting info screen e d =
    (keeps (λ h. omega (arith, h, ap needed e)) refl refl, d)
show_turn strtoull hdisplay vdisplay expected t failing info screen e d =
    (keeps (λ h. omega (arith, h, ap needed e)) refl refl, d)
show_turn strtoull hdisplay vdisplay expected t exited info screen e d =
    (keeps (λ h. omega (arith, h, ap needed e)) refl refl, d)
show_turn strtoull hdisplay vdisplay expected t (showing r) info screen e d =
    (shown-Progress t r info screen _ e, shown-drains t _ d)

ended_again :
    (t : Threads) (eos : Bool)
    → is_draining t ≡ true
    → Progress (main_ends eos) t (if t.producer_done then t else end_main t t.producer eos)
ended_again t eos d =
    by_test (main_ends eos) t t.producer_done _ _ (λ done. keeps (other t.worker) refl refl)
      (λ more. absurd (ground (arith, d, more)))

module _ (strtoull : Strtoull) (hdisplay vdisplay expected : ℕ) where
  act-Progress :
      (t : Threads) (action : Action)
      → is_draining t ≡ true
      → Progress action t (act strtoull hdisplay vdisplay expected t action)
        × (is_draining (act strtoull hdisplay vdisplay expected t action) ≡ true)
  unfolding act
  act-Progress t (pulls sample found surface) d = (
    pull-Progress t t.producer sample found surface,
    pull-drains t t.producer sample found surface refl d,
  )
  act-Progress t offers d =
      (offer-Progress t expected t.producer d refl, offer-drains t expected t.producer refl d)
  act-Progress t ends d = (end_stream-Progress t t.producer, end_stream-drains t t.producer refl d)
  act-Progress t (main_ends eos) d = (
    ended_again t eos d,
    drained t.producer_done _ _ (λ done. d) (λ more. absurd (ground (arith, d, more))),
  )
  act-Progress t works d =
      (work-Progress t t.worker (ground (arith, d)) refl, work-drains t t.worker d)
  act-Progress t (shows info screen) d =
      (show_turn strtoull hdisplay vdisplay expected t t.worker info screen refl d)
  act-Progress t stops d = (stop-Progress t t.worker refl, stop-drains t t.worker d)

  run-Rounded :
      (actions : List Action) (t : Threads)
      → is_draining t ≡ true
      → Rounded actions t (run strtoull hdisplay vdisplay expected t actions)
  unfolding run
  run-Rounded [] t d = record {
    fewer = omega arith;
    turned = λ h. absurd (ground (arith, h));
    drains = d;
  }
  run-Rounded (action ∷ actions) t d =
      cons-Rounded action actions t (act strtoull hdisplay vdisplay expected t action)
        (run strtoull hdisplay vdisplay expected (act strtoull hdisplay vdisplay expected t action)
          actions)
        (act-Progress t action d).0
        (run-Rounded actions (act strtoull hdisplay vdisplay expected t action)
          (act-Progress t action d).1)

  run-append :
      (first rest : List Action) (t : Threads)
      → run strtoull hdisplay vdisplay expected t (first ++ rest)
        ≡ run strtoull hdisplay vdisplay expected
            (run strtoull hdisplay vdisplay expected t first)
            rest
  unfolding run
  run-append [] rest t = refl
  run-append (action ∷ first) rest t =
      run-append first rest (act strtoull hdisplay vdisplay expected t action)

  -- A round that finds a turn to take takes one.
  round-fewer :
      (actions : List Action) (t : Threads)
      → is_draining t ≡ true
      → is_round actions ≡ true
      → turns
          (run strtoull hdisplay vdisplay expected t actions).worker
          (run strtoull hdisplay vdisplay expected t actions).ready
        ≤ turns t.worker t.ready - 1
  round-fewer actions t d full = go t.worker refl
    where
      end : Threads
      end = run strtoull hdisplay vdisplay expected t actions

      after : Rounded actions t end
      after = run-Rounded actions t d

      go : (w : Worker) → t.worker ≡ w → turns end.worker end.ready ≤ turns t.worker t.ready - 1
      go awaiting e = let less = after.turned (rw e (ground (arith, full))) in omega (arith, less)
      go (showing r) e =
          let less = after.turned (rw e (ground (arith, full))) in omega (arith, less)
      go failing e = let less = after.turned (rw e (ground (arith, full))) in omega (arith, less)
      go exited e = omega (arith, after.fewer, ap (λ (v : Worker). turns v t.ready) e)

  show-settled :
      (t : Threads) (w : Worker) (info : SampleInfo) (screen : Screen)
      → t.producer_done ≡ false
      → is_settled (show strtoull hdisplay vdisplay expected t w info screen) ≡ true
  unfolding show
  show-settled t awaiting info screen e = ground (arith, e)
  show-settled t failing info screen e = ground (arith, e)
  show-settled t exited info screen e = ground (arith, e)
  show-settled t (showing r) info screen e = shown-settled t _ e

  undone-settled :
      (t : Threads) (action : Action)
      → t.producer_done ≡ false
      → is_settled (act strtoull hdisplay vdisplay expected t action) ≡ true
  unfolding act
  undone-settled t (pulls sample found surface) e = pull-settled t t.producer sample found surface e
  undone-settled t offers e = offer-settled t expected t.producer e
  undone-settled t ends e = end_stream-settled t t.producer e
  undone-settled t (main_ends eos) e = end_main-settled t t.producer eos refl e
  undone-settled t works e = work-settled t t.worker e
  undone-settled t (shows info screen) e = show-settled t t.worker info screen e
  undone-settled t stops e = stop-settled t t.worker e

  run-settled :
      (actions : List Action) (t : Threads)
      → is_settled t ≡ true
      → is_settled (run strtoull hdisplay vdisplay expected t actions) ≡ true
  unfolding run
  run-settled [] t h = h
  run-settled (action ∷ actions) t h =
      run-settled actions (act strtoull hdisplay vdisplay expected t action)
        (elim (Bool-cases t.producer_done) [
          | inl done ↦
              let kept = (act-Progress t action (ground (arith, done, h))).1 in ground (arith, kept)
          | inr more ↦ undone-settled t action more
        ])

  few_turns : (w : Worker) (ready : Option Ready) → turns w ready ≤ 4
  few_turns awaiting none = omega arith
  few_turns awaiting (some r) = omega arith
  few_turns (showing r) none = omega arith
  few_turns (showing r) (some other_ready) = omega arith
  few_turns failing ready = omega arith
  few_turns exited ready = omega arith

  no_turns : (w : Worker) (ready : Option Ready) → turns w ready ≡ 0 → w ≡ exited
  no_turns awaiting ready e = absurd (omega (arith, e))
  no_turns (showing r) ready e = absurd (omega (arith, e))
  no_turns failing ready e = absurd (omega (arith, e))
  no_turns exited ready e = refl

  rounds-fewer :
      (rounds : List (List Action)) (t : Threads)
      → is_draining t ≡ true
      → All (λ round. is_round round ≡ true) rounds
      → turns
          (run strtoull hdisplay vdisplay expected t (joined rounds)).worker
          (run strtoull hdisplay vdisplay expected t (joined rounds)).ready
        ≤ turns t.worker t.ready - length rounds
  unfolding run
  rounds-fewer [] t d full = omega arith
  rounds-fewer (round ∷ rounds) t d full =
      let next = run strtoull hdisplay vdisplay expected t round in
      let one = round-fewer round t d full.0 in
      let rest = rounds-fewer rounds next (run-Rounded round t d).drains full.1 in
      rw (run-append round (joined rounds) t) (omega (arith, one, rest))

  -- Once `main` has seen the end of the pipeline, by its last message or by an error, the worker returns:
  -- whatever the threads did before, it has returned after any four rounds, in each of which each of its
  -- actions is tried once, whatever the other threads do in between and the kernel answers.
  pub run-exited :
      (before : List Action) (rounds : List (List Action)) (t : Threads)
      → t.producer_done ≡ false
      → (run strtoull hdisplay vdisplay expected t before).producer_done ≡ true
      → 4 ≤ length rounds
      → All (λ round. is_round round ≡ true) rounds
      → (run strtoull hdisplay vdisplay expected t (before ++ joined rounds)).worker ≡ exited
  run-exited before rounds t start done many full =
      let middle = run strtoull hdisplay vdisplay expected t before in
      let settled = run-settled before t (ground (arith, start)) in
      let fewer = rounds-fewer rounds middle (ground (arith, done, settled)) full in
      let few = few_turns middle.worker middle.ready in
      let end = run strtoull hdisplay vdisplay expected middle (joined rounds) in
      rw (run-append before (joined rounds) t)
        (no_turns end.worker end.ready (omega (arith, fewer, few, many)))
