-- ===== src/Pipeline/Sound.antt =====
-- The counts of the feedback objects through the events of the display.
use teraguchi.Common.{
  ℕ, zero, suc, ◌+◌, ◌^◌, ◌≤◌, ◌<◌, ◌≡◌, refl, sym, ◌∙◌, Bool, true, false, List, [], ◌∷◌, Option,
  none, some, leb, if◌then◌else◌, arith, length,
}
use teraguchi.Pipeline.Present.{
  AsyncFeedback, Kinds, State, take_feedback, keep_feedback, Event, presents, discards, event_time,
  end_presented, on_async_presented, on_async_discarded, handle, dispatch,
}
use teraguchi.Pipeline.Process.{Waited, ready, blocked, fails, wait_inflight, queue_feedback}
use teraguchi.Pipeline.Recorded.{Recorded, presentation-Recorded, measures}

-- Objects in flight are counted, and never more than the limit; while nothing has failed, each frame that was
-- presented was measured, `more` of them not yet counted.
pub record Sound (s : State) (m : Bool) (more : ℕ) : Type 0 where
  pub mode : s.async_feedback ≡ m
  pub counted : s.async_inflight ≡ length s.pending
  pub bounded : s.async_inflight ≤ s.async_inflight_limit
  pub most : s.max_async_inflight ≤ s.async_inflight_limit
  pub small : s.async_inflight_limit < 2 ^ 64
  pub measured : s.failed ≡ false → length s.submit_to_present ≡ s.presented + more

Shorter : ℕ → Option (AsyncFeedback × List AsyncFeedback) → Type 0
Shorter n none = Unit {0}
Shorter n (some (f, rest)) = n ≡ length rest + 1

keep-Shorter :
    (n : ℕ) (f : AsyncFeedback) (found : Option (AsyncFeedback × List AsyncFeedback))
    → Shorter n found
    → Shorter (suc n) (keep_feedback f found)
unfolding Shorter
keep-Shorter n f none h = tt
keep-Shorter n f (some (g, rest)) h = omega (arith, h)

take-Shorter :
    (i : ℕ) (pending : List AsyncFeedback) → Shorter (length pending) (take_feedback i pending)
unfolding Shorter take_feedback
take-Shorter i [] = tt
take-Shorter zero (f ∷ pending) = omega arith
take-Shorter (suc i) (f ∷ pending) =
    keep-Shorter (length pending) f (take_feedback i pending) (take-Shorter i pending)

module _ (kinds : Kinds) (m : Bool) where
  end-Sound :
      (s noted : State) (valid : Bool) (rest : List AsyncFeedback)
      → Recorded s noted (measures valid)
      → length s.pending ≡ length rest + 1
      → Sound s m 0
      → Sound (end_presented kinds (noted, valid) rest) m 0
  unfolding end_presented
  end-Sound s noted true rest r shorter o = record {
    mode = r.mode ∙ o.mode;
    counted = omega (arith, r.inflight, shorter, o.counted, o.bounded, o.small);
    bounded = omega (arith, r.inflight, r.limit, shorter, o.counted, o.bounded, o.small);
    most = omega (arith, r.most, r.limit, o.most);
    small = omega (arith, r.limit, o.small);
    measured = λ h. omega (arith, r.measured, r.presented, o.measured (sym r.failed ∙ h));
  }
  end-Sound s noted false rest r shorter o = record {
    mode = r.mode ∙ o.mode;
    counted = omega (arith, r.inflight, shorter, o.counted, o.bounded, o.small);
    bounded = omega (arith, r.inflight, r.limit, shorter, o.counted, o.bounded, o.small);
    most = omega (arith, r.most, r.limit, o.most);
    small = omega (arith, r.limit, o.small);
    measured = λ h. absurd (ground (arith, h));
  }

  presented-Sound :
      (s : State) (found : Option (AsyncFeedback × List AsyncFeedback)) (time flags : ℕ)
      → Shorter (length s.pending) found
      → Sound s m 0
      → Sound (on_async_presented kinds s found time flags) m 0
  unfolding on_async_presented Shorter
  presented-Sound s none time flags h o = o
  presented-Sound s (some (f, rest)) time flags h o =
      end-Sound s _ _ rest (presentation-Recorded kinds s f time flags) h o

  discarded-Sound :
      (s : State) (found : Option (AsyncFeedback × List AsyncFeedback))
      → Shorter (length s.pending) found
      → Sound s m 0
      → Sound (on_async_discarded kinds s found) m 0
  unfolding on_async_discarded Shorter
  discarded-Sound s none h o = o
  discarded-Sound s (some (f, rest)) h o = record {
    mode = o.mode;
    counted = omega (arith, h, o.counted, o.bounded, o.small);
    bounded = omega (arith, h, o.counted, o.bounded, o.small);
    most = o.most;
    small = o.small;
    measured = λ e. absurd (ground (arith, e));
  }

  handle-Sound : (s : State) (event : Event) → Sound s m 0 → Sound (handle kinds s event) m 0
  unfolding handle
  handle-Sound s (presents i sec_hi sec_lo nsec flags) o =
      presented-Sound s (take_feedback i s.pending) (event_time sec_hi sec_lo nsec) flags
        (take-Shorter i s.pending) o
  handle-Sound s (discards i) o =
      discarded-Sound s (take_feedback i s.pending) (take-Shorter i s.pending) o

  pub dispatch-Sound :
      (s : State) (events : List Event) → Sound s m 0 → Sound (dispatch kinds s events) m 0
  unfolding dispatch
  dispatch-Sound s [] o = o
  dispatch-Sound s (event ∷ events) o =
      dispatch-Sound (handle kinds s event) events (handle-Sound s event o)

  unfoldable pub WaitedSound : State × Waited → Type 0
  WaitedSound (s, ready) = Sound s m 0 × (s.async_inflight < s.async_inflight_limit)
  WaitedSound (s, blocked) = Sound s m 0
  WaitedSound (s, fails) = Sound s m 0

  full-WaitedSound :
      (s : State) (full : State × Waited)
      → Sound s m 0
      → WaitedSound full
      → WaitedSound (if leb s.async_inflight_limit s.async_inflight then full else (s, ready))
  unfolding WaitedSound
  full-WaitedSound s full o p = go (leb s.async_inflight_limit s.async_inflight) refl
    where
      go :
          (c : Bool)
          → leb s.async_inflight_limit s.async_inflight ≡ c
          → WaitedSound (if c then full else (s, ready))
      go true e = p
      go false e = (o, ground (arith, e))

  pub failed-Sound :
      (s : State) (more : ℕ) → Sound s m more → Sound (record s { failed = true }) m 0
  failed-Sound s more o = record {
    mode = o.mode;
    counted = o.counted;
    bounded = o.bounded;
    most = o.most;
    small = o.small;
    measured = λ e. absurd (ground (arith, e));
  }

  pub wait-Sound :
      (s : State) (dispatches : List (Option (List Event)))
      → Sound s m 0
      → WaitedSound (wait_inflight kinds s dispatches)
  unfolding wait_inflight WaitedSound
  wait-Sound s [] o = full-WaitedSound s (s, blocked) o o
  wait-Sound s (none ∷ dispatches) o =
      full-WaitedSound s (record s { failed = true }, fails) o (failed-Sound s 0 o)
  wait-Sound s (some events ∷ dispatches) o =
      full-WaitedSound s (wait_inflight kinds (dispatch kinds s events) dispatches) o
        (wait-Sound (dispatch kinds s events) dispatches (dispatch-Sound s events o))

  pub queue-Sound :
      (s : State) (f : AsyncFeedback)
      → s.async_inflight < s.async_inflight_limit
      → Sound s m 0
      → Sound (queue_feedback kinds s f) m 0
  unfolding queue_feedback
  queue-Sound s f free o = record {
    mode = o.mode;
    counted = omega (arith, o.counted);
    bounded = omega (arith, free);
    most = omega (arith, o.most, free);
    small = o.small;
    measured = o.measured;
  }
