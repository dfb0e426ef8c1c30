-- ===== src/Kms/Output/Best.antt =====
-- The output that is chosen is the best one.
use teraguchi.Common.{
  ℕ, ◌≡◌, subst, ◌⊎◌, inl, inr, Bool, true, false, List, [], ◌∷◌, Option, none, some, if◌then◌else◌,
  All, Bool-cases,
}
use teraguchi.Kms.Output.{
  ModeInfo, ModeFlags, Doubles, Connector, Output, better_mode, best_mode, output, output_of_modes,
  output_of, keep_better, select_connectors, select_output,
}
use teraguchi.Kms.Output.Rank.{
  IsOrdered, Below, Below-trans, better-Below, Below-refl, AllBelow, AllBelow-trans, AllRanked,
  AllBelow-AllRanked, best_mode-Below,
}

module _ (drm : ModeFlags) (doubles : Doubles) (ordered : IsOrdered doubles) where
  abbrev pub modes_of : Option Connector → List ModeInfo
  modes_of none = []
  modes_of (some connector) = connector.modes

  output_mode :
      (crtcs : List ℕ) (connector : Connector) (mode : ModeInfo) (modes : List ModeInfo)
      (index : Option ℕ) (o : Output)
      → output drm doubles crtcs connector mode modes index ≡ some o
      → AllBelow drm doubles ordered (mode ∷ modes) o.mode
  output_mode crtcs connector mode modes none o e = cc
  output_mode crtcs connector mode modes (some index) o e =
      let same : best_mode drm doubles mode modes ≡ o.mode = cc in
      subst (AllBelow drm doubles ordered (mode ∷ modes)) same
        (best_mode-Below drm doubles ordered mode modes)

  if_some :
      (c : Bool) (x : Option Output) (o : Output) → (if c then x else none) ≡ some o → x ≡ some o
  if_some true x o e = e
  if_some false x o e = cc

  output_of_modes-Below :
      (crtcs : List ℕ) (connector : Connector) (modes : List ModeInfo) (o : Output)
      → output_of_modes drm doubles crtcs connector modes ≡ some o
      → AllBelow drm doubles ordered modes o.mode
  unfolding output_of_modes
  output_of_modes-Below crtcs connector [] o e = tt
  output_of_modes-Below crtcs connector (mode ∷ modes) o e =
      output_mode crtcs connector mode modes _ o (if_some connector.connected _ o e)

  output_of-Below :
      (crtcs : List ℕ) (connector : Option Connector) (o : Output)
      → output_of drm doubles crtcs connector ≡ some o
      → AllBelow drm doubles ordered (modes_of connector) o.mode
  unfolding output_of
  output_of-Below crtcs none o e = tt
  output_of-Below crtcs (some connector) o e =
      output_of_modes-Below crtcs connector connector.modes o e

  -- A connector that gives an output, no mode of which is better than the mode chosen.
  abbrev pub Beaten : List ℕ → Output → Option Connector → Type 0
  Beaten crtcs chosen connector =
      (o : Output)
      → output_of drm doubles crtcs connector ≡ some o
      → AllRanked drm doubles ordered (modes_of connector) chosen.mode

  -- The output is that of one of the connectors.
  abbrev pub Offered : List ℕ → Output → List (Option Connector) → Type 0
  Offered crtcs chosen [] = ⊥
  Offered crtcs chosen (connector ∷ connectors) =
      (output_of drm doubles crtcs connector ≡ some chosen) ⊎ Offered crtcs chosen connectors

  -- What was found before a round is not better than what is found after it.
  abbrev Improves : Option Output → Option Output → Type 0
  Improves none later = Unit {0}
  Improves (some o) none = ⊥
  Improves (some o) (some p) = Below drm doubles ordered o.mode p.mode

  keep_better-Improves :
      (found new : Option Output)
      → Improves found (keep_better drm doubles found new)
        × Improves new (keep_better drm doubles found new)
  unfolding keep_better
  keep_better-Improves none none = (tt, tt)
  keep_better-Improves none (some new) = (tt, Below-refl drm doubles ordered new.mode)
  keep_better-Improves (some old) none = (Below-refl drm doubles ordered old.mode, tt)
  keep_better-Improves (some old) (some new) =
      elim (Bool-cases (better_mode drm doubles new.mode old.mode)) [
        | inl better ↦ rw better (
          better-Below drm doubles ordered new.mode old.mode better,
          Below-refl drm doubles ordered new.mode,
        )
        | inr not_better ↦ rw not_better (Below-refl drm doubles ordered old.mode, not_better)
      ]

  Improves-trans : (a b c : Option Output) → Improves a b → Improves b c → Improves a c
  Improves-trans none b c p q = tt
  Improves-trans (some a) none c p q = absurd p
  Improves-trans (some a) (some b) none p q = absurd q
  Improves-trans (some a) (some b) (some c) p q =
      Below-trans drm doubles ordered a.mode b.mode c.mode p q

  select-Improves :
      (crtcs : List ℕ) (found : Option Output) (connectors : List (Option Connector))
      → Improves found (select_connectors drm doubles crtcs found connectors)
        × All
            (λ (c : Option Connector).
              Improves
                (output_of drm doubles crtcs c)
                (select_connectors drm doubles crtcs found connectors))
            connectors
  unfolding select_connectors
  select-Improves crtcs none [] = (tt, tt)
  select-Improves crtcs (some o) [] = (Below-refl drm doubles ordered o.mode, tt)
  select-Improves crtcs found (c ∷ connectors) =
      let next = keep_better drm doubles found (output_of drm doubles crtcs c) in
      let (old, new) = keep_better-Improves found (output_of drm doubles crtcs c) in
      let (top, rest) = select-Improves crtcs next connectors in
      let last = select_connectors drm doubles crtcs next connectors in
      (
        Improves-trans found next last old top,
        (Improves-trans (output_of drm doubles crtcs c) next last new top, rest),
      )

  kept_one :
      (found new : Option Output) (o : Output)
      → keep_better drm doubles found new ≡ some o
      → (found ≡ some o) ⊎ (new ≡ some o)
  unfolding keep_better
  kept_one found none o e = inl e
  kept_one none (some new) o e = inr e
  kept_one (some old) (some new) o e =
      elim (Bool-cases (better_mode drm doubles new.mode old.mode)) [
        | inl better ↦ inr (rw better at e)
        | inr not_better ↦ inl (rw not_better at e)
      ]

  select-Offered :
      (crtcs : List ℕ) (found : Option Output) (connectors : List (Option Connector)) (o : Output)
      → select_connectors drm doubles crtcs found connectors ≡ some o
      → (found ≡ some o) ⊎ Offered crtcs o connectors
  unfolding select_connectors
  select-Offered crtcs found [] o e = inl e
  select-Offered crtcs found (c ∷ connectors) o e =
      elim (select-Offered crtcs (keep_better drm doubles found (output_of drm doubles crtcs c))
        connectors o e) [
          | inl here ↦ elim (kept_one found (output_of drm doubles crtcs c) o here) [
            | inl before ↦ inl before
            | inr this ↦ inr (inl this)
          ]
          | inr later ↦ inr (inr later)
        ]

  improved-Beaten :
      (crtcs : List ℕ) (chosen : Output) (c : Option Connector)
      → Improves (output_of drm doubles crtcs c) (some chosen)
      → Beaten crtcs chosen c
  improved-Beaten crtcs chosen c better o given =
      AllBelow-AllRanked drm doubles ordered (modes_of c) chosen.mode (
        AllBelow-trans drm doubles ordered (modes_of c) o.mode chosen.mode
          (output_of-Below crtcs c o given)
          (subst (λ (x : Option Output). Improves x (some chosen)) given better))

  all-Beaten :
      (crtcs : List ℕ) (chosen : Output) (connectors : List (Option Connector))
      → All
          (λ (c : Option Connector). Improves (output_of drm doubles crtcs c) (some chosen))
          connectors
      → All (Beaten crtcs chosen) connectors
  all-Beaten crtcs chosen [] all = tt
  all-Beaten crtcs chosen (c ∷ connectors) all =
      (improved-Beaten crtcs chosen c all.0, all-Beaten crtcs chosen connectors all.1)

  -- The output that `select_output` notes is that of one of the connectors. Each mode of a connector that can
  -- give an output has a smaller area than the mode chosen; or the same area, where only the mode chosen is
  -- preferred; or the same area, where both are preferred or none is, and no higher rate of
  -- `mode_refresh_hz`, where doubles are ordered.
  pub select_output-Beaten :
      (crtcs : List ℕ) (connectors : List (Option Connector)) (chosen : Output)
      → (select_output drm doubles (some (crtcs, connectors))).0 ≡ some chosen
      → Offered crtcs chosen connectors × All (Beaten crtcs chosen) connectors
  unfolding select_output
  select_output-Beaten crtcs connectors chosen e = (
    elim (select-Offered crtcs none connectors chosen e) [
      | inl before ↦ absurd (cc)
      | inr offered ↦ offered
    ],
    all-Beaten crtcs chosen connectors (
        subst
          (λ (x : Option Output).
            All (λ (c : Option Connector). Improves (output_of drm doubles crtcs c) x) connectors)
          e (select-Improves crtcs none connectors).1),
  )
