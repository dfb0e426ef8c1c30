-- ===== src/X11/Fields.antt =====
-- Fields of bits in a word: what a mask keeps of a union of fields.
use teraguchi.Common.{
  ℕ, zero, suc, ◌+◌, ◌-◌, ◌*◌, ◌/◌, ◌%◌, ◌^◌, ◌≤◌, ◌<◌, min, max, ◌≡◌, refl, ap, ap₂, ◌∙◌, ◌⊎◌, inl,
  inr, bit_and, bit_or, arith,
}
use teraguchi.Common.Bits.{bit_and_step, bit_or_step, bit_and_low}
use native.Mathlib.Nat.{pow-suc, mod-eq_of_lt}

or_half :
    (a b : ℕ) → (bit_or a b / 2 ≡ bit_or (a / 2) (b / 2)) × (bit_or a b % 2 ≡ max (a % 2) (b % 2))
or_half a b = (omega (arith, bit_or_step a b), omega (arith, bit_or_step a b))

and_half :
    (a b : ℕ)
    → (bit_and a b / 2 ≡ bit_and (a / 2) (b / 2)) × (bit_and a b % 2 ≡ min (a % 2) (b % 2))
and_half a b = (omega (arith, bit_and_step a b), omega (arith, bit_and_step a b))

-- Where one number has run out, by halving the other.
zero_beside : (bound b : ℕ) → b ≤ bound → (bit_or 0 b ≡ b) × (bit_and 0 b ≡ 0) × (bit_or b 0 ≡ b)
zero_beside zero b le = let e : b ≡ 0 = omega arith in rw e (refl, refl, refl)
zero_beside (suc bound) b le =
    let rest = zero_beside bound (b / 2) (omega arith) in
    (
      omega (arith, bit_or_step 0 b, rest.0),
      omega (arith, bit_and_step 0 b, rest.1),
      omega (arith, bit_or_step b 0, rest.2),
    )

pub or_zero : (b : ℕ) → bit_or b 0 ≡ b
or_zero b = (zero_beside b b (omega arith)).2

pub zero_or : (b : ℕ) → bit_or 0 b ≡ b
zero_or b = (zero_beside b b (omega arith)).0

zero_and : (b : ℕ) → bit_and 0 b ≡ 0
zero_and b = (zero_beside b b (omega arith)).1

distribute_to :
    (bound a b m : ℕ)
    → a ≤ bound
    → b ≤ bound
    → bit_and (bit_or a b) m ≡ bit_or (bit_and a m) (bit_and b m)
distribute_to zero a b m p q =
    let e : a ≡ 0 = omega arith in let f : b ≡ 0 = omega arith in rw (e, f, zero_and m) refl
distribute_to (suc bound) a b m p q =
    let rest = distribute_to bound (a / 2) (b / 2) (m / 2) (omega arith) (omega arith) in
    let left : bit_and (bit_or a b / 2) (m / 2) ≡ bit_and (bit_or (a / 2) (b / 2)) (m / 2) =
      ap (λ (t : ℕ). bit_and t (m / 2)) (or_half a b).0 in
    let right : bit_or (bit_and a m / 2) (bit_and b m / 2)
        ≡ bit_or (bit_and (a / 2) (m / 2)) (bit_and (b / 2) (m / 2)) =
      ap₂ bit_or (and_half a m).0 (and_half b m).0 in
    omega (
      arith,
      bit_and_step (bit_or a b) m,
      bit_or_step (bit_and a m) (bit_and b m),
      left,
      right,
      rest,
      (or_half a b).1,
      (and_half a m).1,
      (and_half b m).1,
    )

-- A mask keeps of a union what it keeps of its parts.
pub bit_and-bit_or : (a b m : ℕ) → bit_and (bit_or a b) m ≡ bit_or (bit_and a m) (bit_and b m)
bit_and-bit_or a b m = distribute_to (max a b) a b m (omega arith) (omega arith)

pub double : (a p q : ℕ) → q ≡ p * 2 → (a * q / 2 ≡ a * p) × (a * q % 2 ≡ 0)
double a p q e = rw e (omega arith, omega arith)

-- Both numbers shifted, and the lower of two fields under the mask of the other.
pub bit_and_shifted : (s a b : ℕ) → bit_and (a * 2 ^ s) (b * 2 ^ s) ≡ bit_and a b * 2 ^ s
bit_and_shifted zero a b =
    let e : a * 1 ≡ a = omega arith in let f : b * 1 ≡ b = omega arith in rw (e, f) (omega arith)
bit_and_shifted (suc s) a b =
    let (da, ma) = double a (2 ^ s) (2 ^ suc s) (pow-suc 2 s) in
    let (db, mb) = double b (2 ^ s) (2 ^ suc s) (pow-suc 2 s) in
    let (dc, mc) = double (bit_and a b) (2 ^ s) (2 ^ suc s) (pow-suc 2 s) in
    omega (
      arith,
      bit_and_step (a * 2 ^ suc s) (b * 2 ^ suc s),
      ap₂ bit_and da db,
      ma,
      mb,
      dc,
      mc,
      bit_and_shifted s a b,
    )

low_and_high : (t a b : ℕ) → a < 2 ^ t → bit_and a (b * 2 ^ t) ≡ 0
low_and_high zero a b h = let e : a ≡ 0 = omega arith in rw e (zero_and (b * 1))
low_and_high (suc t) a b h =
    let (db, mb) = double b (2 ^ t) (2 ^ suc t) (pow-suc 2 t) in
    omega (
      arith,
      bit_and_step a (b * 2 ^ suc t),
      ap (λ (x : ℕ). bit_and (a / 2) x) db,
      mb,
      low_and_high t (a / 2) b (omega (arith, h, pow-suc 2 t)),
    )

bit_and_zero : (bound a : ℕ) → a ≤ bound → bit_and a 0 ≡ 0
bit_and_zero zero a le = let e : a ≡ 0 = omega arith in rw e refl
bit_and_zero (suc bound) a le =
    omega (arith, bit_and_step a 0, bit_and_zero bound (a / 2) (omega arith))

high_and_low : (t a b : ℕ) → b < 2 ^ t → bit_and (a * 2 ^ t) b ≡ 0
high_and_low zero a b h =
    let e : b ≡ 0 = omega arith in rw e (omega (arith, bit_and_zero (a * 1) (a * 1) (omega arith)))
high_and_low (suc t) a b h =
    let (da, ma) = double a (2 ^ t) (2 ^ suc t) (pow-suc 2 t) in
    omega (
      arith,
      bit_and_step (a * 2 ^ suc t) b,
      ap (λ (x : ℕ). bit_and x (b / 2)) da,
      ma,
      high_and_low t a (b / 2) (omega (arith, h, pow-suc 2 t)),
    )

-- A field of `k` bits above the place `s`, all ones.
abbrev pub field : ℕ → ℕ → ℕ
field k s = (2 ^ k - 1) * 2 ^ s

abbrev pub Apart : ℕ → ℕ → ℕ → Type 0
Apart k s t = (s + k ≤ t) ⊎ (t + k ≤ s)

pub pow-pos : (k : ℕ) → 0 < 2 ^ k
pow-pos zero = omega arith
pow-pos (suc k) = omega (arith, pow-suc 2 k, pow-pos k)

pub pow-le : (k t : ℕ) → k ≤ t → 2 ^ k ≤ 2 ^ t
pow-le zero t le = pow-pos t
pow-le (suc k) zero le = absurd (omega (arith, le))
pow-le (suc k) (suc t) le =
    let rest : 2 ^ k ≤ 2 ^ t = pow-le k t (omega (arith, le)) in
    omega (arith, pow-suc 2 k, pow-suc 2 t, rest)

pub below-lt : (k s t a : ℕ) → a < 2 ^ k → s + k ≤ t → a * 2 ^ s < 2 ^ t
below-lt k zero t a h le = omega (arith, pow-le k t (omega (arith, le)))
below-lt k (suc s) zero a h le = absurd (omega (arith, le))
below-lt k (suc s) (suc t) a h le =
    let (half, even) = double a (2 ^ s) (2 ^ suc s) (pow-suc 2 s) in
    omega (arith, pow-suc 2 t, half, even, below-lt k s t a h (omega (arith, le)))

pub field-Apart : (k s t a : ℕ) → Apart k s t → a < 2 ^ k → bit_and (a * 2 ^ s) (field k t) ≡ 0
field-Apart k s t a (inl le) h = low_and_high t (a * 2 ^ s) (2 ^ k - 1) (below-lt k s t a h le)
field-Apart k s t a (inr le) h =
    high_and_low s a (field k t) (below-lt k t s (2 ^ k - 1) (omega (arith, pow-pos k)) le)

pub field-same : (k s a : ℕ) → a < 2 ^ k → bit_and (a * 2 ^ s) (field k s) ≡ a * 2 ^ s
field-same k s a h =
    bit_and_shifted s a (2 ^ k - 1) ∙ ap (λ (x : ℕ). x * 2 ^ s) (bit_and_low k a ∙ mod-eq_of_lt h)
