-- ===== src/Pipeline/Inflight.antt =====
-- The feedback objects in flight, and the frames that are measured.
use teraguchi.Common.Differences.{sub_u64}
use teraguchi.Common.{
  ℕ, ◌+◌, ◌%◌, ◌^◌, ◌<◌, ◌≡◌, refl, sym, ap, ◌∙◌, Bool, true, false, ◌&&◌, List, [], ◌∷◌, ◌++◌,
  Option, none, some, ltb, ◌!=◌, if◌then◌else◌, arith, length,
}
use teraguchi.Pipeline.Present.{
  Stamp, AsyncFeedback, Kinds, State, record_presentation, Event, dispatch,
}
use teraguchi.Pipeline.Process.{
  Waited, ready, blocked, fails, Answers, finish_async, finish_sync, import_and_present,
  process_waited, process_sample, note_result, Turn, run,
}
use teraguchi.Pipeline.Recorded.{Recorded, presentation-Recorded, measures}
use teraguchi.Pipeline.Sound.{
  Sound, dispatch-Sound, wait-Sound, WaitedSound, failed-Sound, queue-Sound,
}

module _ (kinds : Kinds) (m : Bool) where
  -- The frames measured that a result leaves to be counted: in the asynchronous mode none.
  abbrev more : Bool → Bool → ℕ
  more true valid = 0
  more false valid = measures valid

  more_async : (c valid : Bool) → c ≡ true → more c valid ≡ 0
  more_async true valid e = refl
  more_async false valid e = absurd (ground (arith, e))

  more_sync : (c valid : Bool) → c ≡ false → more c valid ≡ measures valid
  more_sync true valid e = absurd (ground (arith, e))
  more_sync false valid e = refl

  more_failed : (c : Bool) → more c false ≡ 0
  more_failed true = refl
  more_failed false = refl

  recount : (s : State) (a b : ℕ) → a ≡ b → Sound s m a → Sound s m b
  recount s a b e o = record {
    mode = o.mode;
    counted = o.counted;
    bounded = o.bounded;
    most = o.most;
    small = o.small;
    measured = λ h. omega (arith, e, o.measured h);
  }

  Shown : State × Bool → Type 0
  Shown (s, valid) = Sound s m (more m valid)

  Resulted : State × Option Bool → Type 0
  Resulted (s, none) = Sound s m 0
  Resulted (s, some valid) = Sound s m (more m valid)

  async-Shown :
      (s : State) (brought : Option (List Event))
      → m ≡ true
      → Sound s m 0
      → Shown (finish_async kinds s brought)
  unfolding finish_async Shown
  async-Shown s none e o = recount s 0 _ (sym (more_failed m)) o
  async-Shown s (some events) e o =
      recount (dispatch kinds s events) 0 _ (sym (more_async m _ e))
        (dispatch-Sound kinds m s events o)

  sync-Shown :
      (s : State) (f : AsyncFeedback) (feedback : Option (ℕ × ℕ))
      → m ≡ false
      → Sound s m 0
      → Shown (finish_sync kinds s f feedback)
  unfolding finish_sync Shown
  sync-Shown s f none e o = recount s 0 _ (sym (more_failed m)) o
  sync-Shown s f (some (time, flags)) e o =
      let (next, valid) = record_presentation kinds s f time flags in
      let r : Recorded s next (measures valid) = presentation-Recorded kinds s f time flags in
      let counted : more m valid ≡ measures valid = more_sync m valid e in
      record {
        mode = r.mode ∙ o.mode;
        counted =
            omega
              (arith, r.inflight, ap (λ (xs : List AsyncFeedback). length xs) r.pending, o.counted);
        bounded = omega (arith, r.inflight, r.limit, o.bounded);
        most = omega (arith, r.most, r.limit, o.most);
        small = omega (arith, r.limit, o.small);
        measured =
            λ h. omega (arith, r.measured, r.presented, o.measured (sym r.failed ∙ h), counted);
      }

  pick :
      (P : State × Bool → Type 0) (c : Bool) (a b : State × Bool)
      → (c ≡ true → P a)
      → (c ≡ false → P b)
      → P (if c then a else b)
  pick P true a b p q = p refl
  pick P false a b p q = q refl

  pick_result :
      (P : State × Option Bool → Type 0) (c : Bool) (a b : State × Option Bool)
      → (c ≡ true → P a)
      → (c ≡ false → P b)
      → P (if c then a else b)
  pick_result P true a b p q = p refl
  pick_result P false a b p q = q refl

  import-Shown :
      (s : State) (submit : Stamp) (surface : ℕ) (answers : Answers)
      → (m ≡ true → s.async_inflight < s.async_inflight_limit)
      → Sound s m 0
      → Shown (import_and_present kinds s submit surface answers)
  unfolding import_and_present Shown
  import-Shown s submit surface answers free o =
      pick Shown (answers.draws && answers.swaps) _ _
        (λ drawn.
          pick Shown s.async_feedback _ _
            (λ e.
              async-Shown _ answers.roundtrip (sym o.mode ∙ e)
                (queue-Sound kinds m s _ (free (sym o.mode ∙ e)) o))
            (λ e. sync-Shown s _ answers.feedback (sym o.mode ∙ e) o))
        (λ refused. recount s 0 _ (sym (more_failed m)) o)

  some-Resulted : (result : State × Bool) → Shown result → Resulted (result.0, some result.1)
  unfolding Shown Resulted
  some-Resulted (s, valid) o = o

  to-Resulted : (s : State) (valid : Bool) → Sound s m (more m valid) → Resulted (s, some valid)
  unfolding Resulted
  to-Resulted s valid o = o

  refused-Resulted : (s : State) → Sound s m 0 → Resulted (s, some false)
  refused-Resulted s o = to-Resulted s false (recount s 0 _ (sym (more_failed m)) o)

  stale-Sound :
      (s : State) (late : List ℕ)
      → Sound s m 0
      → Sound
          (record s { stale_frames_dropped = s.stale_frames_dropped + 1; stale_drop_late = late })
          m
          0
  stale-Sound s late o = record {
    mode = o.mode;
    counted = o.counted;
    bounded = o.bounded;
    most = o.most;
    small = o.small;
    measured = o.measured;
  }

  ready-Resulted :
      (s : State) (submit : Stamp) (surface now : ℕ) (valid : Bool) (answers : Answers)
      → m ≡ true
      → Sound s m 0
      → s.async_inflight < s.async_inflight_limit
      → Resulted (process_waited kinds (s, ready) submit surface now valid answers)
  unfolding process_waited
  ready-Resulted s submit surface now valid answers e o free =
      pick_result Resulted
        (submit.target_present_ns != 0 && ltb ((submit.target_present_ns + 1000000) % 2 ^ 64) now)
        (
          record s {
            stale_frames_dropped = s.stale_frames_dropped + 1;
            stale_drop_late = s.stale_drop_late ++ (sub_u64 now submit.target_present_ns ∷ []);
          },
          some true,
        )
        (if valid
          then (
            (import_and_present kinds s submit surface answers).0,
            some (import_and_present kinds s submit surface answers).1,
          )
          else (s, some false))
        (λ stale. to-Resulted _ true (
          recount
            (record s {
              stale_frames_dropped = s.stale_frames_dropped + 1;
              stale_drop_late = s.stale_drop_late ++ (sub_u64 now submit.target_present_ns ∷ []);
            })
            0 _ (sym (more_async m true e)) (stale-Sound s _ o)))
        (λ timely.
          pick_result Resulted valid _ _
            (λ accepted.
              some-Resulted (import_and_present kinds s submit surface answers)
                (import-Shown s submit surface answers (λ h. free) o))
            (λ refused. refused-Resulted s o))

  waited-Resulted :
      (waited : State × Waited) (submit : Stamp) (surface now : ℕ) (valid : Bool)
      (answers : Answers)
      → m ≡ true
      → WaitedSound kinds m waited
      → Resulted (process_waited kinds waited submit surface now valid answers)
  unfolding process_waited WaitedSound Resulted
  waited-Resulted (s, blocked) submit surface now valid answers e o = o
  waited-Resulted (s, fails) submit surface now valid answers e o = refused-Resulted s o
  waited-Resulted (s, ready) submit surface now valid answers e (o, free) =
      ready-Resulted s submit surface now valid answers e o free

  process-Resulted :
      (s : State) (dispatches : List (Option (List Event))) (submit : Stamp) (surface now : ℕ)
      (valid : Bool) (answers : Answers)
      → Sound s m 0
      → Resulted (process_sample kinds s dispatches submit surface now valid answers)
  unfolding process_sample
  process-Resulted s dispatches submit surface now valid answers o =
      pick_result Resulted s.async_feedback _ _
        (λ e.
          waited-Resulted _ submit surface now valid answers (sym o.mode ∙ e)
            (wait-Sound kinds m s dispatches o))
        (λ e.
          pick_result Resulted valid _ _
            (λ accepted. some-Resulted (import_and_present kinds s submit surface answers) (
              import-Shown s submit surface answers (λ h. absurd (ground (arith, h, o.mode, e))) o))
            (λ refused. refused-Resulted s o))

  shown-Sound :
      (s : State) (c : Bool)
      → m ≡ c
      → Sound s m (more m true)
      → Sound (if c then s else record s { presented = s.presented + 1 }) m 0
  shown-Sound s true e o = recount s _ 0 (more_async m true e) o
  shown-Sound s false e o = record {
    mode = o.mode;
    counted = o.counted;
    bounded = o.bounded;
    most = o.most;
    small = o.small;
    measured = λ h. omega (arith, o.measured h, more_sync m true e);
  }

  note-Sound : (result : State × Option Bool) → Resulted result → Sound (note_result result) m 0
  unfolding note_result Resulted
  note-Sound (s, none) o = o
  note-Sound (s, some false) o = failed-Sound kinds m s _ o
  note-Sound (s, some true) o = shown-Sound s s.async_feedback (sym o.mode) o

-- Whatever the compositor sends, in both modes, after any samples the number in flight is that of the feedback
-- objects not deleted yet, it never passed the limit, and as long as nothing has failed each frame
-- presented was measured once.
pub run-Sound :
    (kinds : Kinds) (mode : Bool) (turns : List Turn) (s : State)
    → Sound s mode 0
    → Sound (run kinds s turns) mode 0
unfolding run
run-Sound kinds mode [] s o = o
run-Sound kinds mode (turn ∷ turns) s o = run-Sound kinds mode turns _ (
    note-Sound kinds mode _ (
      process-Resulted kinds mode s turn.dispatches turn.submit turn.surface turn.now turn.valid
        turn.answers o))
