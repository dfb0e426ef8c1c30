-- ===== src/Video/Options/Accepted.antt =====
-- What holds of the options with which the probe runs.
use Prim.Native.String.{String}
use text.Mathlib.TextEquality.{eq_iff}
use teraguchi.Common.{
  ℕ, zero, suc, ◌+◌, ◌<◌, ◌≢◌, Bool-cases, ◌≤◌, ◌≡◌, refl, subst, ◌⊎◌, inl, inr, Bool, true, false,
  not, ◌&&◌, ◌||◌, List, [], ◌∷◌, Option, none, some, ltb, leb, ◌==◌, if◌then◌else◌, arith,
}
use teraguchi.Video.Gates.{reference_invalidation_requested, recovery_is_outside, feedback_is_early}
use teraguchi.Video.Options.{
  is, Number, negative, number, Options, defaults, settings_of, take_flag, take_value, period_of,
  count_of, Parsed, returns, self_tests, runs, check_recovery, check, parse,
}
use teraguchi.Video.Options.Kept.{
  is_same, IsPeriod, IsCount, InRange, Kept, kept, take_flag-Kept, take_value-Kept,
}

-- Recovery by the reference frames is not asked for.
abbrev pub NoRecovery : Options → Type 0
NoRecovery o = (o.simulate_loss_frame ≡ 0) ⊎ (o.reference_invalidation_enabled ≡ false)

-- A period within its range, and a count below it.
abbrev pub Refreshes : Number → Number → Type 0
Refreshes period negative = ⊥
Refreshes negative (number count) = ⊥
Refreshes (number period) (number count) =
    (1 ≤ period) × (period ≤ 36000) × (count ≤ 36000) × ((count ≡ 0) ⊎ (count < period))

-- What the options of a run have in common.
abbrev pub IsAccepted : Options → Type 0
IsAccepted o =
    (1 ≤ o.frame_count)
    × (o.frame_count ≤ 36000)
    × (1 ≤ o.frame_rate)
    × (o.frame_rate ≤ 240)
    × (o.queue_depth ≤ 1)
    × (1000000 ≤ o.bitrate)
    × (o.bitrate ≤ 4000000000)
    × (1000 ≤ o.vbv_bits)
    × (o.vbv_bits ≤ 1000000000)
    × (1 ≤ o.invalidate_delay_frames)
    × (o.invalidate_delay_frames ≤ 36000)
    × (o.simulate_loss_frame ≤ o.frame_count)
    × (o.force_idr_frame ≤ o.frame_count)
    × (NoRecovery o
        ⊎ ((o.simulate_loss_frame + o.invalidate_delay_frames ≤ o.frame_count)
            × (1 ≤ o.reference_frames)
            × ((o.queue_depth ≢ 1) ⊎ (2 ≤ o.invalidate_delay_frames))))
    × (o.reference_frames ≤ 8)
    × Refreshes o.intra_refresh_period o.intra_refresh_count
    × ((o.reference_bitstream_path ≡ "") ⊎ (o.reference_bitstream_path ≢ o.bitstream_path))

-- The frames of the recovery, when the checks pass.
recovery_lem :
    (o : Options)
    → recovery_is_outside (settings_of o) ≡ false
    → feedback_is_early (settings_of o) o.queue_depth ≡ false
    → NoRecovery o
      ⊎ ((o.simulate_loss_frame + o.invalidate_delay_frames ≤ o.frame_count)
          × (1 ≤ (
              if reference_invalidation_requested (settings_of o) && o.reference_frames == 0
              then 4
              else o.reference_frames))
          × ((o.queue_depth ≢ 1) ⊎ (2 ≤ o.invalidate_delay_frames)))
unfolding recovery_is_outside feedback_is_early reference_invalidation_requested
recovery_lem o within late = elim (Bool-cases (o.simulate_loss_frame == 0)) [
  | inl none_lost ↦ inl (inl (ground (arith, none_lost)))
  | inr lost ↦ elim (Bool-cases o.reference_invalidation_enabled) [
    | inr disabled ↦ inl (inr disabled)
    | inl enabled ↦ inr (
      ground (arith, lost, enabled, within),
      ground arith,
      elim (Bool-cases (o.queue_depth == 1)) [
        | inl queued ↦ inr (ground (arith, lost, enabled, queued, late))
        | inr not_queued ↦ inl (ground (arith, not_queued))
      ],
    )
  ]
]

outside_lem :
    (o : Options)
    → recovery_is_outside (settings_of o) ≡ false
    → (o.simulate_loss_frame ≤ o.frame_count) × (o.force_idr_frame ≤ o.frame_count)
unfolding recovery_is_outside
outside_lem o within = (ground (arith, within), ground (arith, within))

paths_lem :
    (reference path : String)
    → (not (is reference "") && is reference path) ≡ false
    → (reference ≡ "") ⊎ (reference ≢ path)
paths_lem reference path e = elim (Bool-cases (is reference "")) [
  | inl empty ↦ inl (is_same reference "" empty)
  | inr given ↦ inr (λ same. ground (arith, e, given, (eq_iff reference path).1 same))
]

period_lem :
    (o : Options) (period : Number)
    → IsPeriod period
    → 1 ≤ o.frame_rate
    → o.frame_rate ≤ 240
    → (1 ≤ period_of o period) × (period_of o period ≤ 36000)
period_lem o negative h one rate = (one, omega (arith, rate))
period_lem o (number period) h one rate = h

count_lem :
    (period : ℕ) (count : Number) → IsCount count → period ≤ 36000 → count_of period count ≤ 36000
count_lem period negative h le = omega (arith, le)
count_lem period (number count) h le = h

-- A run has accepted options.
pub data Ends : Parsed → Type 0 where
  with_code : (code : ℕ) → Ends (returns code)
  with_tests : Ends self_tests
  accepted : (o : Options) → IsAccepted o → Ends (runs o)

if-Ends :
    (c : Bool) (a b : Parsed)
    → (c ≡ true → Ends a)
    → (c ≡ false → Ends b)
    → Ends (if c then a else b)
if-Ends true a b p q = p refl
if-Ends false a b p q = q refl

check_recovery-Ends :
    (o : Options)
    → InRange o
    → o.frame_rate ≤ 240
    → Refreshes o.intra_refresh_period o.intra_refresh_count
    → Ends (check_recovery o)
unfolding check_recovery
check_recovery-Ends o w rate fits =
    if-Ends (recovery_is_outside (settings_of o) || ltb 8 o.reference_frames) _ _ (λ _. with_code 2)
      (λ checked.
        if-Ends (feedback_is_early (settings_of o) o.queue_depth) _ _ (λ _. with_code 2)
          (λ late.
            if-Ends
              (not (is o.reference_bitstream_path "")
                && is o.reference_bitstream_path o.bitstream_path)
              _ _ (λ _. with_code 2)
              (λ apart.
                let within : recovery_is_outside (settings_of o) ≡ false =
                  ground (arith, checked) in
                let (loss, idr) = outside_lem o within in
                accepted _ (
                  w.0,
                  w.1,
                  w.2,
                  rate,
                  w.3,
                  w.4,
                  w.5,
                  w.6,
                  w.7,
                  w.8,
                  w.9,
                  loss,
                  idr,
                  recovery_lem o within late,
                  ground (arith, checked),
                  fits,
                  paths_lem o.reference_bitstream_path o.bitstream_path apart,
                ))))

check-Ends : (o : Options) → InRange o → Ends (check o)
unfolding check
check-Ends o w =
    if-Ends (ltb 240 o.frame_rate) _ _ (λ _. with_code 2)
      (λ slow.
        if-Ends
          (ltb 0 (count_of (period_of o o.intra_refresh_period) o.intra_refresh_count)
            && leb (period_of o o.intra_refresh_period)
                (count_of (period_of o o.intra_refresh_period) o.intra_refresh_count))
          _ _ (λ _. with_code 2)
          (λ e.
            let rate : o.frame_rate ≤ 240 = ground (arith, slow) in
            let period = period_of o o.intra_refresh_period in
            let count = count_of period o.intra_refresh_count in
            let (one, most) = period_lem o o.intra_refresh_period w.10 w.2 rate in
            let few = count_lem period o.intra_refresh_count w.11 most in
            check_recovery-Ends _
              (w.0, w.1, w.2, w.3, w.4, w.5, w.6, w.7, w.8, w.9, (one, most), few) rate
              (one, most, few, below count period e)))
  where
    below :
        (count period : ℕ)
        → (ltb 0 count && leb period count) ≡ false
        → (count ≡ 0) ⊎ (count < period)
    below zero period e = inl refl
    below (suc count) period e = inr (ground (arith, e))

module _ (stoul : String → Option ℕ) (stoi : String → Option Number) where
  parse-Ends :
      (arguments : List String) (o : Options) → InRange o → Ends (parse stoul stoi o arguments)
  unfolding parse
  parse-Ends [] o w = check-Ends o w
  parse-Ends (argument ∷ []) o w =
      if-Ends (is argument "--self-test") _ _ (λ _. with_tests)
        (λ _. go (take_flag o argument) (take_flag-Kept o argument w))
    where
      go :
          (r : Option Options)
          → Kept r
          → Ends (elim r [ some flagged ↦ check flagged | none ↦ returns 2 ])
      go none k = with_code 2
      go (some flagged) (kept f h) = check-Ends flagged h
  parse-Ends (argument ∷ value ∷ rest) o w =
      if-Ends (is argument "--self-test") _ _ (λ _. with_tests)
        (λ _.
          go (take_flag o argument) (take_flag-Kept o argument w)
            (take_value stoul stoi o argument value) (take_value-Kept stoul stoi o argument value w)
            (parse-Ends (value ∷ rest)) (parse-Ends rest))
    where
      go :
          (r : Option Options)
          → Kept r
          → (v : Option Options) → Kept v
          → ((o : Options) → InRange o → Ends (parse stoul stoi o (value ∷ rest)))
          → ((o : Options) → InRange o → Ends (parse stoul stoi o rest))
          → Ends (elim r [
            | some flagged ↦ parse stoul stoi flagged (value ∷ rest)
            | none ↦ elim v [ some valued ↦ parse stoul stoi valued rest | none ↦ returns 2 ]
          ])
      go none k none l all more = with_code 2
      go none k (some valued) (kept f h) all more = more valued h
      go (some flagged) (kept f h) v l all more = all flagged h

  Ends-IsAccepted : (p : Parsed) (o : Options) → p ≡ runs o → Ends p → IsAccepted o
  Ends-IsAccepted p o e (with_code code) = absurd (ground (arith, e))
  Ends-IsAccepted p o e with_tests = absurd (ground (arith, e))
  Ends-IsAccepted p o e (accepted f h) = subst IsAccepted {x = f} {y = o} (cc e) h

  -- Whatever the standard library makes of the numbers, the options with which the probe runs have 1 to 36000
  -- frames at 1 to 240 a second, a queue of 1 at most, 1 to 4000 Mbit/s, 1 to 1000000 kbit for the buffer, a
  -- feedback delay of 1 to 36000 frames, and 8 reference frames at most. The lost frame and the forced IDR frame
  -- are not behind the last frame. When recovery is asked for, the feedback comes within the run, there is
  -- a reference frame, and with a queue the delay is 2 at least. The refresh has a period of
  -- 1 to 36000 and a count below it, or none. The two files have different paths.
  pub parse-IsAccepted :
      (arguments : List String) (o : Options)
      → parse stoul stoi defaults arguments ≡ runs o
      → IsAccepted o
  parse-IsAccepted arguments o e = Ends-IsAccepted (parse stoul stoi defaults arguments) o e (
      parse-Ends arguments defaults (
        omega arith,
        omega arith,
        omega arith,
        omega arith,
        omega arith,
        omega arith,
        omega arith,
        omega arith,
        omega arith,
        omega arith,
        tt,
        tt,
      ))
