-- ===== src/Kms/Schedule/Plans.antt =====
-- When the decoder is woken for a frame.
use teraguchi.Common.{
  ℕ, ◌+◌, ◌-◌, ◌*◌, ◌/◌, ◌%◌, ◌^◌, ◌≤◌, ◌<◌, ◌≡◌, refl, ◌⊎◌, inl, inr, leb, arith, Bool-cases,
}
use native.Mathlib.Nat.{div-mul-le_self, lt-mul-div-succ}
use teraguchi.Kms.Schedule.{Plan, shift_plan, plan}

-- A plan that is to come: it wakes after `now`, by `lead` before its target, which is `index` periods
-- behind the epoch; it is the plan of the epoch given, or it is that plan moved by whole periods, to
-- the next period after `now`.
pub record Upcoming (refresh lead now epoch index : ℕ) (p : Plan) : Type 0 where
  pub later : now < p.wake
  pub lead_kept : p.target ≡ p.wake + lead
  pub on_grid : p.target ≡ p.epoch + index * refresh
  pub periods : (k : ℕ) × (p.epoch ≡ epoch + k * refresh)
  pub soon : (p.epoch ≡ epoch) ⊎ (p.wake ≤ now + refresh)

-- The periods that a late plan is moved by: past `now`, and no more than one period past it.
periods_bounds :
    (d refresh : ℕ)
    → 0 < refresh
    → (d < (d / refresh + 1) * refresh) × ((d / refresh + 1) * refresh ≤ d + refresh)
periods_bounds d refresh pos =
    let expand : (d / refresh + 1) * refresh ≡ d / refresh * refresh + refresh = grind arith in
    let comm : refresh * (d / refresh + 1) ≡ (d / refresh + 1) * refresh = grind arith in
    (omega (arith, lt-mul-div-succ d pos, comm), omega (arith, expand, div-mul-le_self d refresh))

moved-Upcoming :
    (refresh lead now epoch index k move : ℕ) (p : Plan)
    → now + refresh + lead < 2 ^ 64
    → p.target ≡ p.wake + lead
    → p.target ≡ p.epoch + index * refresh
    → p.epoch ≡ epoch
    → p.wake ≤ now
    → move ≡ k * refresh
    → now - p.wake < move
    → move ≤ now - p.wake + refresh
    → Upcoming refresh lead now epoch index (record {
      epoch = (p.epoch + move) % 2 ^ 64;
      target = (p.target + move) % 2 ^ 64;
      wake = (p.wake + move) % 2 ^ 64;
    })
moved-Upcoming refresh lead now epoch index k move p small led grid same late whole past most =
    record {
      later = omega arith;
      lead_kept = omega arith;
      on_grid = omega arith;
      periods = (k, omega arith);
      soon = inr (omega arith);
    }

shift-Upcoming :
    (refresh lead now epoch index : ℕ) (p : Plan)
    → 0 < refresh
    → now + refresh + lead < 2 ^ 64
    → p.target ≡ p.wake + lead
    → p.target ≡ p.epoch + index * refresh
    → p.epoch ≡ epoch
    → Upcoming refresh lead now epoch index (shift_plan refresh now p)
unfolding shift_plan
shift-Upcoming refresh lead now epoch index p pos small led grid same =
    elim (Bool-cases (leb p.wake now)) [
      | inl late ↦
          rw late
            let (past, most) = periods_bounds (now - p.wake) refresh pos in
              moved-Upcoming refresh lead now epoch index ((now - p.wake) / refresh + 1) _ p small
                led grid same (ground arith) refl past most
      | inr early ↦ rw early (record {
        later = ground arith;
        lead_kept = led;
        on_grid = grid;
        periods = (0, omega arith);
        soon = inl same;
      })
    ]

-- Where the clock and the target fit a word and the lead is not longer than the time to the target, a plan
-- wakes the decoder in the future, by the lead before the target; the target stays on the grid of refresh
-- periods from the epoch, and a plan that was late is moved to the first period that is not.
plan-Upcoming :
    (refresh lead now epoch index : ℕ)
    → 0 < refresh
    → now + refresh + lead < 2 ^ 64
    → epoch + index * refresh < 2 ^ 64
    → lead ≤ epoch + index * refresh
    → Upcoming refresh lead now epoch index (plan refresh lead now epoch index)
unfolding plan
plan-Upcoming refresh lead now epoch index pos small fits led =
    shift-Upcoming refresh lead now epoch index _ pos small (omega arith) (omega arith) refl
