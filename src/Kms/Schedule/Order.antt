-- ===== src/Kms/Schedule/Order.antt =====
-- Frames reach the display in the order in which they were submitted.
use teraguchi.Common.{
  ℕ, ◌+◌, ◌≤◌, ◌<◌, ◌≡◌, refl, sym, ap₂, subst, inl, inr, Bool, true, false, List, [], ◌∷◌, Option,
  none, some, ltb, ◌==◌, if◌then◌else◌, arith, All, Bool-cases,
}
use teraguchi.Kms.Schedule.{
  SubmitStamp, Schedule, Moment, Verdict, plan_frame, keep_epoch, push_stamp, sleep_and_push,
  resume_input, on_decoder_input, find_stamp, match_found, match_output,
}
use teraguchi.Kms.Schedule.Stamps.{
  Event, enters, resumes, outputs, first_phase, steady_phase, fails, Runner, after, Chain,
  held_back, InOrder, Chain-snoc, All-snoc, All_imp, find_stamp-Chain,
}

module _ (scale : ℕ → ℕ → ℕ → ℕ) where
  -- A thread that waits does not enter, and one that does not wait is not resumed.
  unfoldable pub step : Runner → Event → Runner × Option SubmitStamp
  step r (enters moment) =
      if r.waiting then (r, none) else (after (on_decoder_input scale r.schedule moment), none)
  step r (resumes moment) =
      if r.waiting
      then (after (resume_input scale r.schedule r.schedule.submitted moment), none)
      else (r, none)
  step r (outputs pts) =
      let (s, found) = match_output r.schedule pts in (record r { schedule = s }, found)
  step r (first_phase target) = (
    record r { schedule = record r.schedule { phase_ready = true; first_target_ns = target } },
    none,
  )
  step r (steady_phase target) = (
    record r {
      schedule = record r.schedule { steady_phase_ready = true; steady_first_target_ns = target };
    },
    none,
  )
  step r fails = (record r { schedule = record r.schedule { failed = true } }, none)

  abbrev pub with_match : Option SubmitStamp → List SubmitStamp → List SubmitStamp
  with_match none stamps = stamps
  with_match (some stamp) stamps = stamp ∷ stamps

  -- The stamps that are matched in a run.
  unfoldable pub matches : Runner → List Event → List SubmitStamp
  matches r [] = []
  matches r (event ∷ events) =
      let (next, found) = step r event in with_match found (matches next events)

  -- A schedule with the same queue and count, its thread not waiting.
  InOrder-same :
      (low : ℕ) (s t : Schedule) (waiting : Bool)
      → t.submit_queue ≡ s.submit_queue
      → t.submitted ≡ s.submitted
      → InOrder low (record { schedule = s; waiting = waiting })
      → InOrder low (record { schedule = t; waiting = waiting })
  InOrder-same low s t waiting q n o = record {
    chain = subst (Chain low) (sym q) o.chain;
    matched = omega (arith, o.matched);
    counted =
        subst
          (λ (x : ℕ × List SubmitStamp).
            All (λ (stamp : SubmitStamp). stamp.frame + held_back waiting ≤ x.0) x.1)
          (ap₂ (λ (a : ℕ) (b : List SubmitStamp). (a, b)) (sym n) (sym q)) o.counted;
  }

  pushed-InOrder :
      (low : ℕ) (s : Schedule) (frame stamped target : ℕ)
      → frame ≡ s.submitted
      → InOrder low (record { schedule = s; waiting = true })
      → InOrder low (record { schedule = push_stamp scale s frame stamped target; waiting = false })
  unfolding push_stamp
  pushed-InOrder low s frame stamped target e o = record {
    chain = Chain-snoc low s.submit_queue _ o.chain (omega (arith, o.matched)) (
        All_imp (λ (t : SubmitStamp). t.frame + 1 ≤ s.submitted)
          (λ (t : SubmitStamp). t.frame < frame) s.submit_queue (λ t h. omega arith) o.counted);
    matched = omega (arith, o.matched);
    counted =
        All-snoc (λ (t : SubmitStamp). t.frame + 0 ≤ s.submitted) s.submit_queue _
          (All_imp (λ (t : SubmitStamp). t.frame + 1 ≤ s.submitted)
            (λ (t : SubmitStamp). t.frame + 0 ≤ s.submitted) s.submit_queue (λ t h. omega arith)
            o.counted)
          (omega arith);
  }

  -- A thread that gives up its frame leaves the order.
  given_up-InOrder :
      (low : ℕ) (s : Schedule)
      → InOrder low (record { schedule = s; waiting = true })
      → InOrder low (record { schedule = s; waiting = false })
  given_up-InOrder low s o = record {
    chain = o.chain;
    matched = omega (arith, o.matched);
    counted =
        All_imp (λ (t : SubmitStamp). t.frame + 1 ≤ s.submitted)
          (λ (t : SubmitStamp). t.frame + 0 ≤ s.submitted) s.submit_queue (λ t h. omega arith)
          o.counted;
  }

  by_branch :
      (low : ℕ) (c : Bool) (x y : Schedule × Verdict)
      → InOrder low (after x)
      → InOrder low (after y)
      → InOrder low (after (if c then x else y))
  by_branch low true x y p q = p
  by_branch low false x y p q = q

  -- The new epoch leaves the queue and the count alone.
  keep_epoch-InOrder :
      (low : ℕ) (s : Schedule) (frame epoch : ℕ)
      → InOrder low (record { schedule = s; waiting = true })
      → (s.submitted ≡ (keep_epoch s frame epoch).submitted)
        × InOrder low (record { schedule = keep_epoch s frame epoch; waiting = true })
  unfolding keep_epoch
  keep_epoch-InOrder low s frame epoch o = elim (Bool-cases (frame == 2)) [
    | inl second ↦ rw second (refl, InOrder-same low s _ true refl refl o)
    | inr steady ↦ rw steady (refl, InOrder-same low s _ true refl refl o)
  ]

  slept-InOrder :
      (low : ℕ) (s : Schedule) (moment : Moment)
      → InOrder low (record { schedule = s; waiting = true })
      → InOrder low (after (sleep_and_push scale s s.submitted moment))
  unfolding sleep_and_push
  slept-InOrder low s moment o =
      let planned = plan_frame s s.submitted moment.now in
      let kept = keep_epoch s s.submitted planned.epoch in
      let (count, kept_order) = keep_epoch-InOrder low s s.submitted planned.epoch o in
      by_branch low moment.sleeps _ _
        (pushed-InOrder low _ s.submitted moment.stamped planned.target count
          (InOrder-same low kept _ true refl refl kept_order))
        (given_up-InOrder low _ (InOrder-same low kept _ true refl refl kept_order))

  resumed-InOrder :
      (low : ℕ) (s : Schedule) (moment : Moment)
      → InOrder low (record { schedule = s; waiting = true })
      → InOrder low (after (resume_input scale s s.submitted moment))
  unfolding resume_input
  resumed-InOrder low s moment o =
      by_branch low (ltb s.submitted 2) _ _
        (pushed-InOrder low s s.submitted moment.stamped 0 refl o)
        (by_branch low s.failed _ _ (given_up-InOrder low s o) (
          by_branch low (if s.submitted == 2 then s.phase_ready else s.steady_phase_ready) _ _
            (slept-InOrder low s moment o) o))

  -- A frame that is counted stands behind all the others.
  entered-InOrder :
      (low : ℕ) (s : Schedule) (moment : Moment)
      → InOrder low (record { schedule = s; waiting = false })
      → InOrder low (after (on_decoder_input scale s moment))
  unfolding on_decoder_input
  entered-InOrder low s moment o =
      let counted : Schedule = record s { submitted = s.submitted + 1 } in
      let next : InOrder low (record { schedule = counted; waiting = true }) = record {
        chain = o.chain;
        matched = omega (arith, o.matched);
        counted =
            All_imp (λ (t : SubmitStamp). t.frame + 0 ≤ s.submitted)
              (λ (t : SubmitStamp). t.frame + 1 ≤ s.submitted + 1) s.submit_queue
              (λ t h. omega arith) o.counted;
      } in
      by_branch low moment.writable _ _ (resumed-InOrder low counted moment next)
        (given_up-InOrder low _ (InOrder-same low counted _ true refl refl next))

  -- Where a match goes: the schedule stays in order behind it.
  abbrev Matched : ℕ → Bool → Schedule × Option SubmitStamp → Type 0
  Matched low waiting (s, none) = InOrder low (record { schedule = s; waiting = waiting })
  Matched low waiting (s, some stamp) =
      (low < stamp.frame) × InOrder stamp.frame (record { schedule = s; waiting = waiting })

  match_found-Matched :
      (low pts : ℕ) (s : Schedule) (waiting : Bool)
      (found : Option (SubmitStamp × List SubmitStamp))
      → find_stamp pts s.submit_queue ≡ found
      → InOrder low (record { schedule = s; waiting = waiting })
      → Matched low waiting (match_found s found)
  unfolding match_found
  match_found-Matched low pts s waiting none e o = InOrder-same low s _ waiting refl refl o
  match_found-Matched low pts s waiting (some (stamp, rest)) e o =
      let (above, below, chain, counted) =
        find_stamp-Chain (held_back waiting) s.submitted low pts s.submit_queue stamp rest o.chain
          o.counted e in
      (above, record { chain = chain; matched = below; counted = counted })

  Stepped : ℕ → Runner × Option SubmitStamp → Type 0
  Stepped low (r, none) = InOrder low r
  Stepped low (r, some stamp) = (low < stamp.frame) × InOrder stamp.frame r

  match_output-Stepped :
      (low : ℕ) (r : Runner) (pts : Option ℕ)
      → InOrder low r
      → Matched low r.waiting (match_output r.schedule pts)
  unfolding match_output match_found
  match_output-Stepped low r none o = InOrder-same low r.schedule _ r.waiting refl refl o
  match_output-Stepped low r (some pts) o =
      match_found-Matched low pts r.schedule r.waiting (find_stamp pts r.schedule.submit_queue) refl
        o

  Matched-step :
      (low : ℕ) (waiting : Bool) (m : Schedule × Option SubmitStamp)
      → Matched low waiting m
      → Stepped low (record { schedule = m.0; waiting = waiting }, m.1)
  unfolding Stepped
  Matched-step low waiting (s, none) h = h
  Matched-step low waiting (s, some stamp) h = h

  step-Stepped : (low : ℕ) (r : Runner) (event : Event) → InOrder low r → Stepped low (step r event)
  unfolding step Stepped
  step-Stepped low r (enters moment) o = by_waiting r.waiting refl
    where
      by_waiting :
          (w : Bool)
          → w ≡ r.waiting
          → Stepped low
              (if w then (r, none) else (after (on_decoder_input scale r.schedule moment), none))
      by_waiting true e = o
      by_waiting false e = entered-InOrder low r.schedule moment (
          subst (λ (w : Bool). InOrder low (record { schedule = r.schedule; waiting = w })) (sym e)
            o)
  step-Stepped low r (resumes moment) o = by_waiting r.waiting refl
    where
      by_waiting :
          (w : Bool)
          → w ≡ r.waiting
          → Stepped low (
              if w
              then (after (resume_input scale r.schedule r.schedule.submitted moment), none)
              else (r, none))
      by_waiting true e = resumed-InOrder low r.schedule moment (
          subst (λ (w : Bool). InOrder low (record { schedule = r.schedule; waiting = w })) (sym e)
            o)
      by_waiting false e = o
  step-Stepped low r (outputs pts) o =
      Matched-step low r.waiting (match_output r.schedule pts) (match_output-Stepped low r pts o)
  step-Stepped low r (first_phase target) o = InOrder-same low r.schedule _ r.waiting refl refl o
  step-Stepped low r (steady_phase target) o = InOrder-same low r.schedule _ r.waiting refl refl o
  step-Stepped low r fails o = InOrder-same low r.schedule _ r.waiting refl refl o

  with_match-Chain :
      (low : ℕ) (next : Runner) (found : Option SubmitStamp) (stamps : List SubmitStamp)
      → Stepped low (next, found)
      → ((l : ℕ) → InOrder l next → Chain l stamps)
      → Chain low (with_match found stamps)
  unfolding Stepped
  with_match-Chain low next none stamps h rest = rest low h
  with_match-Chain low next (some stamp) stamps h rest = (h.0, rest stamp.frame h.1)

  -- However the decoder's thread waits, whatever the clock and the worker do, and whatever times the outputs
  -- have, the frames that are matched increase strictly: each is matched once at most, and none after a
  -- later one. `low` is the last frame that was matched before.
  pub matches-Chain :
      (events : List Event) (low : ℕ) (r : Runner) → InOrder low r → Chain low (matches r events)
  unfolding matches
  matches-Chain [] low r o = tt
  matches-Chain (event ∷ events) low r o =
      let (next, found) = step r event in
      with_match-Chain low next found (matches next events) (step-Stepped low r event o)
        (λ l. matches-Chain events l next)
