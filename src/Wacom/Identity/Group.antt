-- ===== src/Wacom/Identity/Group.antt =====
-- The physical group of an interface: what its path has in front of the number of the interface.
use teraguchi.Common.{
  ℕ, ◌≡◌, ◌≢◌, refl, ap, sym, ◌∙◌, false, List, [], ◌∷◌, ◌++◌, Option, none, some, All, ◌==◌, arith,
}
use teraguchi.Common.Bytes.{starts_with}
use teraguchi.Wacom.Identity.{input_suffix, before_last, physical_group}

abbrev pub NoSlash : List ℕ → Type 0
NoSlash text = All (λ (c : ℕ). c ≢ b'/') text

before_last-none : (text : List ℕ) → NoSlash text → before_last input_suffix text ≡ none
unfolding before_last starts_with
before_last-none [] h = refl
before_last-none (c ∷ text) (plain, h) =
    let other : (b'/' == c) ≡ false = ground arith in rw (before_last-none text h, other) refl

before_last-front :
    (front number : List ℕ)
    → NoSlash number
    → before_last input_suffix (front ++ (input_suffix ++ number)) ≡ some front
unfolding before_last starts_with
before_last-front [] number h = rw (before_last-none number h) refl
before_last-front (c ∷ front) number h = rw (before_last-front front number h) refl

group_front :
    (front number : List ℕ)
    → NoSlash number
    → physical_group (front ++ (input_suffix ++ number)) ≡ front
unfolding physical_group
group_front front number h =
    ap
      (λ (found : Option (List ℕ)). elim found [
        | some f ↦ f
        | none ↦ front ++ (input_suffix ++ number)
      ])
      (before_last-front front number h)

-- The group of a path is what stands in front of its last "/input", where no slash follows: the interfaces
-- of one tablet, whose paths differ in the number behind "/input", have the same group.
physical_group-input :
    (front number other : List ℕ)
    → NoSlash number
    → NoSlash other
    → (physical_group (front ++ (input_suffix ++ number)) ≡ front)
      × (physical_group (front ++ (input_suffix ++ number))
          ≡ physical_group (front ++ (input_suffix ++ other)))
physical_group-input front number other h k =
    (group_front front number h, group_front front number h ∙ sym (group_front front other k))
