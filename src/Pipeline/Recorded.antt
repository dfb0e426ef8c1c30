-- ===== src/Pipeline/Recorded.antt =====
-- What `record_presentation` changes.
use teraguchi.Common.{
  ℕ, ◌+◌, ◌≡◌, refl, ◌∙◌, Bool, true, false, ◌||◌, ltb, ◌==◌, ◌!=◌, if◌then◌else◌, arith, length,
  length-append,
}
use teraguchi.Pipeline.Present.{
  AsyncFeedback, Kinds, State, note_latency, note_target, note_interval, note_flags,
  record_presentation,
}

-- What a presentation leaves, and how many frames were measured.
pub record Recorded (s next : State) (more : ℕ) : Type 0 where
  pub inflight : next.async_inflight ≡ s.async_inflight
  pub most : next.max_async_inflight ≡ s.max_async_inflight
  pub limit : next.async_inflight_limit ≡ s.async_inflight_limit
  pub pending : next.pending ≡ s.pending
  pub presented : next.presented ≡ s.presented
  pub failed : next.failed ≡ s.failed
  pub mode : next.async_feedback ≡ s.async_feedback
  pub measured : length next.submit_to_present ≡ length s.submit_to_present + more

Recorded-trans : (a b c : State) (n : ℕ) → Recorded a b n → Recorded b c 0 → Recorded a c n
Recorded-trans a b c n p q = record {
  inflight = q.inflight ∙ p.inflight;
  most = q.most ∙ p.most;
  limit = q.limit ∙ p.limit;
  pending = q.pending ∙ p.pending;
  presented = q.presented ∙ p.presented;
  failed = q.failed ∙ p.failed;
  mode = q.mode ∙ p.mode;
  measured = omega (arith, p.measured, q.measured);
}

branch-Recorded :
    (s : State) (c : Bool) (a b : State) (n : ℕ)
    → Recorded s a n
    → Recorded s b n
    → Recorded s (if c then a else b) n
branch-Recorded s true a b n p q = p
branch-Recorded s false a b n p q = q

same-Recorded : (s : State) → Recorded s s 0
same-Recorded s = record {
  inflight = refl;
  most = refl;
  limit = refl;
  pending = refl;
  presented = refl;
  failed = refl;
  mode = refl;
  measured = omega arith;
}

abbrev pub measures : Bool → ℕ
measures true = 1
measures false = 0

module _ (kinds : Kinds) where
  latency-Recorded :
      (s : State) (f : AsyncFeedback) (time : ℕ) → Recorded s (note_latency kinds s f time) 1
  unfolding note_latency
  latency-Recorded s f time = record {
    inflight = refl;
    most = refl;
    limit = refl;
    pending = refl;
    presented = refl;
    failed = refl;
    mode = refl;
    measured = length-append s.submit_to_present _;
  }

  target-Recorded :
      (s : State) (f : AsyncFeedback) (time : ℕ) → Recorded s (note_target kinds s f time) 0
  unfolding note_target
  target-Recorded s f time =
      branch-Recorded s (f.submit.target_present_ns == 0) _ _ 0
        (record {
          inflight = refl;
          most = refl;
          limit = refl;
          pending = refl;
          presented = refl;
          failed = refl;
          mode = refl;
          measured = omega arith;
        })
        (record {
          inflight = refl;
          most = refl;
          limit = refl;
          pending = refl;
          presented = refl;
          failed = refl;
          mode = refl;
          measured = omega arith;
        })

  interval-Recorded : (s : State) (time : ℕ) → Recorded s (note_interval kinds s time) 0
  unfolding note_interval
  interval-Recorded s time =
      branch-Recorded s (s.last_presentation_ns != 0) _ _ 0
        (record {
          inflight = refl;
          most = refl;
          limit = refl;
          pending = refl;
          presented = refl;
          failed = refl;
          mode = refl;
          measured = omega arith;
        })
        (record {
          inflight = refl;
          most = refl;
          limit = refl;
          pending = refl;
          presented = refl;
          failed = refl;
          mode = refl;
          measured = omega arith;
        })

  flags-Recorded : (s : State) (flags : ℕ) → Recorded s (note_flags kinds s flags) 0
  unfolding note_flags
  flags-Recorded s flags = record {
    inflight = refl;
    most = refl;
    limit = refl;
    pending = refl;
    presented = refl;
    failed = refl;
    mode = refl;
    measured = omega arith;
  }

  pub presentation-Recorded :
      (s : State) (f : AsyncFeedback) (time flags : ℕ)
      → let result = record_presentation kinds s f time flags in
        Recorded s result.0 (measures result.1)
  unfolding record_presentation
  presentation-Recorded s f time flags =
      by_time (ltb time f.submit.time_ns || ltb time f.surface_ready_ns)
    where
      latency : State
      latency = note_latency kinds s f time

      target : State
      target = note_target kinds latency f time

      interval : State
      interval = note_interval kinds target time

      noted : Recorded s (note_flags kinds interval flags) 1
      noted =
          Recorded-trans s interval (note_flags kinds interval flags) 1
            (Recorded-trans s target interval 1
              (Recorded-trans s latency target 1 (latency-Recorded s f time)
                (target-Recorded latency f time))
              (interval-Recorded target time))
            (flags-Recorded interval flags)

      by_time :
          (c : Bool)
          → let result : State × Bool =
              if c then (s, false) else (note_flags kinds interval flags, true) in
            Recorded s result.0 (measures result.1)
      by_time true = same-Recorded s
      by_time false = noted
