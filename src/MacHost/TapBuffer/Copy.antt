-- ===== src/MacHost/TapBuffer/Copy.antt =====
-- What the copying loop of a push leaves in a block.
use teraguchi.Common.{
  ℕ, zero, suc, ◌+◌, ◌*◌, ◌<◌, ◌≡◌, refl, ap, ap₂, ◌∙◌, Bool, true, false, not, ◌||◌, ◌&&◌, List,
  [], ◌∷◌, Option, ◌==◌, if◌then◌else◌, arith, ==_refl,
}
use teraguchi.MacHost.TapBuffer.{store_at, store_frame, left_sample, right_sample, copy_frames}

module _ {F : Type 0} where
  -- The frames of interleaved samples, from frame `i`, as pairs.
  abbrev pub stereo : (ℕ → F) → ℕ → ℕ → List (F × F)
  stereo samples i zero = []
  stereo samples i (suc n) = (samples (i * 2), samples (i * 2 + 1)) ∷ stereo samples (suc i) n

  -- The frames that a caller hands over, from frame `i`.
  abbrev pub source : (ℕ → F) → Option (ℕ → F) → ℕ → ℕ → List (F × F)
  source left right i zero = []
  source left right i (suc n) =
      (left_sample left right i, right_sample left right i) ∷ source left right (suc i) n

  abbrev pub all_finite : (F → Bool) → List (F × F) → Bool
  all_finite is_finite [] = true
  all_finite is_finite ((l, r) ∷ frames) = is_finite l && is_finite r && all_finite is_finite frames

  store_frame_below :
      (samples : ℕ → F) (i j : ℕ) (l r : F) → j < i * 2 → store_frame samples i l r j ≡ samples j
  unfolding store_frame store_at
  store_frame_below samples i j l r h =
      let other : (j == i * 2 + 1) ≡ false = ground arith in
      let one : (j == i * 2) ≡ false = ground arith in rw (other, one) refl

  store_frame_pair :
      (samples : ℕ → F) (i : ℕ) (l r : F)
      → (store_frame samples i l r (i * 2) ≡ l) × (store_frame samples i l r (i * 2 + 1) ≡ r)
  unfolding store_frame store_at
  store_frame_pair samples i l r =
      let other : (i * 2 == i * 2 + 1) ≡ false = ground arith in
      (rw (other, ==_refl (i * 2)) refl, rw (==_refl (i * 2 + 1)) refl)

  -- The results of one round, where the two values are finite or not.
  first_of :
      (l r b : Bool) (samples : ℕ → F) (rest : Bool × (ℕ → F))
      → rest.0 ≡ b
      → (if not l || not r then (false, samples) else rest).0 ≡ l && r && b
  first_of true true b samples rest e = e
  first_of true false b samples rest e = refl
  first_of false r b samples rest e = refl

  value_of :
      (l r : Bool) (samples : ℕ → F) (rest : Bool × (ℕ → F)) (j : ℕ)
      → rest.1 j ≡ samples j
      → (if not l || not r then (false, samples) else rest).1 j ≡ samples j
  value_of true true samples rest j e = e
  value_of true false samples rest j e = refl
  value_of false r samples rest j e = refl

  all_of :
      (l r : Bool) (samples : ℕ → F) (rest : Bool × (ℕ → F))
      → (if not l || not r then (false, samples) else rest).0 ≡ true
      → ((if not l || not r then (false, samples) else rest) ≡ rest) × (rest.0 ≡ true)
  all_of true true samples rest e = (refl, e)
  all_of true false samples rest e = ground arith
  all_of false r samples rest e = ground arith

  module _ (is_finite : F → Bool) (left : ℕ → F) (right : Option (ℕ → F)) where
    copy_below :
        (n i j : ℕ) (samples : ℕ → F)
        → j < i * 2
        → (copy_frames is_finite left right n i samples).1 j ≡ samples j
    unfolding copy_frames
    copy_below zero i j samples h = refl
    copy_below (suc n) i j samples h =
        value_of (is_finite (left_sample left right i)) (is_finite (right_sample left right i))
          samples (copy_frames is_finite left right n (suc i) _) j
          (copy_below n (suc i) j _ (omega arith)
            ∙ store_frame_below samples i j (left_sample left right i) (right_sample left right i)
                h)

    pub copy_stereo :
        (n i : ℕ) (samples : ℕ → F)
        → (copy_frames is_finite left right n i samples).0 ≡ true
        → stereo (copy_frames is_finite left right n i samples).1 i n ≡ source left right i n
    unfolding copy_frames
    copy_stereo zero i samples h = refl
    copy_stereo (suc n) i samples h =
        let l = left_sample left right i in
        let r = right_sample left right i in
        let next = store_frame samples i l r in
        let (same, go) =
          all_of (is_finite l) (is_finite r) samples
            (copy_frames is_finite left right n (suc i) next) h in
        let (p, q) = store_frame_pair samples i l r in
        let p' = copy_below n (suc i) (i * 2) next (omega arith) ∙ p in
        let q' = copy_below n (suc i) (i * 2 + 1) next (omega arith) ∙ q in
        ap (λ (c : Bool × (ℕ → F)). stereo c.1 i (suc n)) same
        ∙ ap₂ (λ (x : F × F) (xs : List (F × F)). x ∷ xs) (ap₂ (λ (x y : F). (x, y)) p' q')
            (copy_stereo n (suc i) next go)

    pub copy_finite :
        (n i : ℕ) (samples : ℕ → F)
        → (copy_frames is_finite left right n i samples).0
          ≡ all_finite is_finite (source left right i n)
    unfolding copy_frames
    copy_finite zero i samples = refl
    copy_finite (suc n) i samples =
        first_of (is_finite (left_sample left right i)) (is_finite (right_sample left right i)) _
          samples (copy_frames is_finite left right n (suc i) _) (copy_finite n (suc i) _)
