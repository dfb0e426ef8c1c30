-- ===== src/Kms/Output/Rank.antt =====
-- The order of modes, and the best mode of a list.
use teraguchi.Common.{
  ◌≢◌, ◌<◌, ◌*◌, ◌⊎◌, ◌==◌, bit_and, ◌≡◌, inl, inr, true, false, List, [], ◌∷◌, if◌then◌else◌,
  arith, All, Bool-cases,
}
use teraguchi.Kms.Output.{ModeInfo, ModeFlags, Doubles, mode_refresh_hz, better_mode, best_mode}

-- What the comparison of doubles other than NaN gives.
pub record IsOrdered (doubles : Doubles) : Type 0 where
  pub asymmetric : (a b : doubles.Double) → doubles.less a b ≡ true → doubles.less b a ≡ false
  pub transitive :
      (a b c : doubles.Double)
      → doubles.less a b ≡ false
      → doubles.less b c ≡ false
      → doubles.less a c ≡ false

module _ (drm : ModeFlags) (doubles : Doubles) (ordered : IsOrdered doubles) where
  -- No better than.
  abbrev pub Below : ModeInfo → ModeInfo → Type 0
  Below m n = better_mode drm doubles m n ≡ false

  pub Below-trans : (a b c : ModeInfo) → Below a b → Below b c → Below a c
  unfolding better_mode
  Below-trans a b c p q =
      let rates =
        ordered.transitive (mode_refresh_hz drm doubles c) (mode_refresh_hz drm doubles b)
          (mode_refresh_hz drm doubles a) in
      ground (arith, rates)

  pub better-Below : (a b : ModeInfo) → better_mode drm doubles a b ≡ true → Below b a
  unfolding better_mode
  better-Below a b p =
      let rates =
        ordered.asymmetric (mode_refresh_hz drm doubles b) (mode_refresh_hz drm doubles a) in
      ground (arith, rates)

  pub Below-refl : (a : ModeInfo) → Below a a
  unfolding better_mode
  Below-refl a =
      let rate = mode_refresh_hz drm doubles a in ground (arith, ordered.asymmetric rate rate)

  abbrev pub AllBelow : List ModeInfo → ModeInfo → Type 0
  AllBelow modes n = All (λ (m : ModeInfo). Below m n) modes

  pub AllBelow-trans :
      (modes : List ModeInfo) (b c : ModeInfo) → AllBelow modes b → Below b c → AllBelow modes c
  AllBelow-trans [] b c all q = tt
  AllBelow-trans (m ∷ modes) b c all q =
      (Below-trans m b c all.0 q, AllBelow-trans modes b c all.1 q)

  -- The better one of two modes is not beaten by either.
  better_of_two :
      (m b : ModeInfo)
      → (Below b (if better_mode drm doubles m b then m else b))
        × (Below m (if better_mode drm doubles m b then m else b))
  better_of_two m b = elim (Bool-cases (better_mode drm doubles m b)) [
    | inl better ↦ rw better (better-Below m b better, Below-refl m)
    | inr not_better ↦ rw not_better (Below-refl b, not_better)
  ]

  pub best_mode-Below :
      (b : ModeInfo) (modes : List ModeInfo) → AllBelow (b ∷ modes) (best_mode drm doubles b modes)
  unfolding best_mode
  best_mode-Below b [] = (Below-refl b, tt)
  best_mode-Below b (m ∷ modes) =
      let next = if better_mode drm doubles m b then m else b in
      let (old, new) = better_of_two m b in
      let (top, rest) = best_mode-Below next modes in
      let last = best_mode drm doubles next modes in
      (Below-trans b next last old top, (Below-trans m next last new top, rest))

  -- Whether the mode has the flag of a preferred one.
  abbrev pub Prefers : ModeInfo → Type 0
  Prefers m = bit_and m.type drm.preferred ≢ 0

  -- By area, then by preference, then by refresh rate.
  abbrev pub Ranked : ModeInfo → ModeInfo → Type 0
  Ranked m n =
      (m.hdisplay * m.vdisplay < n.hdisplay * n.vdisplay)
      ⊎ ((m.hdisplay * m.vdisplay ≡ n.hdisplay * n.vdisplay)
          × (((¬ (Prefers m)) × Prefers n)
              ⊎ (((Prefers m × Prefers n) ⊎ ((¬ (Prefers m)) × (¬ (Prefers n))))
                  × (doubles.less (mode_refresh_hz drm doubles n) (mode_refresh_hz drm doubles m)
                      ≡ false))))

  abbrev pub AllRanked : List ModeInfo → ModeInfo → Type 0
  AllRanked modes n = All (λ (m : ModeInfo). Ranked m n) modes

  Below-Ranked : (m n : ModeInfo) → Below m n → Ranked m n
  unfolding better_mode
  Below-Ranked m n h = elim (Bool-cases (m.hdisplay * m.vdisplay == n.hdisplay * n.vdisplay)) [
    | inr e ↦ inl (ground (arith, h, e))
    | inl e ↦ inr (
      ground (arith, e),
      elim (Bool-cases (bit_and m.type drm.preferred == 0)) [
        | inl p ↦ elim (Bool-cases (bit_and n.type drm.preferred == 0)) [
          | inl q ↦ inr (
            inr (λ k. k (ground (arith, p)), λ k. k (ground (arith, q))),
            ground (arith, h, e, p, q),
          )
          | inr q ↦ inl (λ k. k (ground (arith, p)), ground (arith, q))
        ]
        | inr p ↦ elim (Bool-cases (bit_and n.type drm.preferred == 0)) [
          | inl q ↦ absurd (ground (arith, h, e, p, q))
          | inr q ↦ inr (inl (ground (arith, p), ground (arith, q)), ground (arith, h, e, p, q))
        ]
      ],
    )
  ]

  pub AllBelow-AllRanked :
      (modes : List ModeInfo) (n : ModeInfo) → AllBelow modes n → AllRanked modes n
  AllBelow-AllRanked [] n h = tt
  AllBelow-AllRanked (m ∷ modes) n h = (Below-Ranked m n h.0, AllBelow-AllRanked modes n h.1)
