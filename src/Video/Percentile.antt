-- ===== src/Video/Percentile.antt =====
-- `percentile` of the measured times. A time is a number of microseconds; the conversion to a double is
-- left out, and a value outside the list is `none`.
use native.Mathlib.Nat.{suc-mul, mul-le-mul_left}
use teraguchi.Common.{
  ℕ, zero, suc, ◌+◌, ◌-◌, ◌*◌, ◌/◌, ◌%◌, ◌^◌, ◌≤◌, ◌<◌, ◌≡◌, refl, ap, ◌∙◌, Bool, true, false, List,
  [], ◌∷◌, length, ltb, leb, if◌then◌else◌, arith, All, Option, some, get_elem?,
}

abbrev insert : ℕ → List ℕ → List ℕ
insert x [] = x ∷ []
insert x (y ∷ ys) = let rest = insert x ys in if leb x y then x ∷ y ∷ ys else y ∷ rest

abbrev sort : List ℕ → List ℕ
sort [] = []
sort (x ∷ xs) = insert x (sort xs)

unfoldable pub percentile : List ℕ → ℕ → Option ℕ
percentile [] percent = some 0
percentile (x ∷ xs) percent =
    get_elem? (sort (x ∷ xs))
      ((((length (x ∷ xs) * percent + 99) % 2 ^ 64) / 100 + (2 ^ 64 - 1)) % 2 ^ 64)

-- How many values are at most, and how many below, a value.
abbrev count_at_most : ℕ → List ℕ → ℕ
count_at_most v [] = 0
count_at_most v (x ∷ xs) = (if leb x v then 1 else 0) + count_at_most v xs

abbrev count_below : ℕ → List ℕ → ℕ
count_below v [] = 0
count_below v (x ∷ xs) = (if ltb x v then 1 else 0) + count_below v xs

abbrev AtLeast : ℕ → List ℕ → Type 0
AtLeast x xs = All (λ (y : ℕ). x ≤ y) xs

abbrev IsSorted : List ℕ → Type 0
IsSorted [] = Unit {0}
IsSorted (x ∷ xs) = AtLeast x xs × IsSorted xs

-- Insertion neither loses nor adds a value.
record Same (xs ys : List ℕ) : Type 0 where
  long : length xs ≡ length ys
  at_most : (v : ℕ) → count_at_most v xs ≡ count_at_most v ys
  below : (v : ℕ) → count_below v xs ≡ count_below v ys

insert-Same : (x : ℕ) (xs : List ℕ) → Same (insert x xs) (x ∷ xs)
insert-Same x [] = record { long = refl; at_most = λ v. refl; below = λ v. refl }
insert-Same x (y ∷ ys) =
    let h = insert-Same x ys in
    record {
      long = ground (arith, h.long);
      at_most = λ v. ground (arith, h.at_most v);
      below = λ v. ground (arith, h.below v);
    }

sort-Same : (xs : List ℕ) → Same (sort xs) xs
sort-Same [] = record { long = refl; at_most = λ v. refl; below = λ v. refl }
sort-Same (x ∷ xs) =
    let g = insert-Same x (sort xs) in
    let h = sort-Same xs in
    record {
      long = omega (arith, g.long, h.long);
      at_most = λ v. omega (arith, g.at_most v, h.at_most v);
      below = λ v. omega (arith, g.below v, h.below v);
    }

AtLeast-trans : (x y : ℕ) (ys : List ℕ) → x ≤ y → AtLeast y ys → AtLeast x ys
AtLeast-trans x y [] le h = tt
AtLeast-trans x y (z ∷ zs) le h = (omega (arith, le, h.0), AtLeast-trans x y zs le h.1)

AtLeast-insert : (y x : ℕ) (xs : List ℕ) → y ≤ x → AtLeast y xs → AtLeast y (insert x xs)
AtLeast-insert y x [] le h = (le, tt)
AtLeast-insert y x (z ∷ zs) le h = go (leb x z) (AtLeast-insert y x zs le h.1)
  where
    go :
        (c : Bool) → AtLeast y (insert x zs) → AtLeast y (if c then x ∷ z ∷ zs else z ∷ insert x zs)
    go true rest = (le, h)
    go false rest = (h.0, rest)

insert-IsSorted : (x : ℕ) (xs : List ℕ) → IsSorted xs → IsSorted (insert x xs)
insert-IsSorted x [] h = (tt, tt)
insert-IsSorted x (y ∷ ys) h = go (leb x y) refl (insert-IsSorted x ys h.1)
  where
    go :
        (c : Bool)
        → leb x y ≡ c
        → IsSorted (insert x ys)
        → IsSorted (if c then x ∷ y ∷ ys else y ∷ insert x ys)
    go true e rest = ((ground (arith, e), AtLeast-trans x y ys (ground (arith, e)) h.0), h)
    go false e rest = (AtLeast-insert y x ys (ground (arith, e)) h.0, rest)

sort-IsSorted : (xs : List ℕ) → IsSorted (sort xs)
sort-IsSorted [] = tt
sort-IsSorted (x ∷ xs) = insert-IsSorted x (sort xs) (sort-IsSorted xs)

none_below : (x : ℕ) (xs : List ℕ) → AtLeast x xs → count_below x xs ≡ 0
none_below x [] h = refl
none_below x (y ∷ ys) h = ground (arith, h.0, none_below x ys h.1)

AtLeast-get_elem? : (x v : ℕ) (xs : List ℕ) (i : ℕ) → AtLeast x xs → get_elem? xs i ≡ some v → x ≤ v
AtLeast-get_elem? x v [] i h e = absurd (ground (arith, e))
AtLeast-get_elem? x v (y ∷ ys) zero h e = ground (arith, h.0, e)
AtLeast-get_elem? x v (y ∷ ys) (suc i) h e = AtLeast-get_elem? x v ys i h.1 e

-- The value at a place of a sorted list.
record Ranks (xs : List ℕ) (i : ℕ) : Type 0 where
  value : ℕ
  there : get_elem? xs i ≡ some value
  at_most : suc i ≤ count_at_most value xs
  below : count_below value xs ≤ i

sorted-Ranks : (xs : List ℕ) (i : ℕ) → IsSorted xs → i < length xs → Ranks xs i
sorted-Ranks [] i h lt = absurd (omega (arith, lt))
sorted-Ranks (x ∷ xs) zero h lt = record {
  value = x;
  there = refl;
  at_most = ground arith;
  below = ground (arith, none_below x xs h.0);
}
sorted-Ranks (x ∷ xs) (suc i) h lt =
    let r = sorted-Ranks xs i h.1 (omega (arith, lt)) in
    record {
      value = r.value;
      there = r.there;
      at_most = ground (arith, r.at_most, AtLeast-get_elem? x r.value xs i h.0 r.there);
      below = ground (arith, r.below);
    }

-- The smallest value with a share of the values at most as great.
pub record Nearest (xs : List ℕ) (percent : ℕ) : Type 0 where
  value : ℕ
  found : percentile xs percent ≡ some value
  enough : length xs * percent ≤ 100 * count_at_most value xs
  least : 100 * count_below value xs < length xs * percent

share_bounds :
    (n percent : ℕ)
    → 1 ≤ percent
    → percent ≤ 100
    → (1 ≤ suc n * percent) × (suc n * percent ≤ 100 * suc n)
share_bounds n percent one hundred =
    (omega (arith, suc-mul n percent, one), omega (arith, mul-le-mul_left (suc n) hundred))

index-wraps :
    (m : ℕ)
    → 1 ≤ m
    → m + 99 < 2 ^ 64
    → ((m + 99) % 2 ^ 64 / 100 + (2 ^ 64 - 1)) % 2 ^ 64 ≡ (m + 99) / 100 - 1
index-wraps m one small = omega (arith, one, small)

-- For a percentage from 1 to 100 of a list with values, few enough that the product is a word,
-- `percentile` is a value v of the list: at least that share of the values is at most v, and less than that
-- share is below v.
pub percentile-Nearest :
    (x : ℕ) (xs : List ℕ) (percent : ℕ)
    → 1 ≤ percent
    → percent ≤ 100
    → length (x ∷ xs) * percent + 99 < 2 ^ 64
    → Nearest (x ∷ xs) percent
unfolding percentile
percentile-Nearest x xs percent one hundred small =
    let same = sort-Same (x ∷ xs) in
    let bounds = share_bounds (length xs) percent one hundred in
    let r =
      sorted-Ranks (sort (x ∷ xs)) ((length (x ∷ xs) * percent + 99) / 100 - 1)
        (sort-IsSorted (x ∷ xs)) (omega (arith, same.long, bounds)) in
    record {
      value = r.value;
      found =
          ap (get_elem? (sort (x ∷ xs))) (index-wraps (length (x ∷ xs) * percent) bounds.0 small)
          ∙ r.there;
      enough = omega (arith, r.at_most, same.at_most r.value);
      least = omega (arith, r.below, same.below r.value, bounds.0);
    }
