-- ===== src/Common/Bits.antt =====
-- Masks, and unions of disjoint bit fields, as arithmetic.
use Prim.Native.Nat.{
  ℕ, zero, suc, ◌+◌, ◌-◌, ◌*◌, ◌/◌, ◌%◌, ◌^◌, ◌≤◌, ◌<◌, min, max, bit_and, bit_or, digits, bitwise,
  bit_and-bitwise, bit_or-bitwise,
}
use mathlib.Core.Path.{◌≡◌, refl, ap, ap₂, sym, ◌∙◌}
use native.Mathlib.Nat.{pow-suc, mod-lt, div-add-mod}
use native.Mathlib.Omega.{arith}

-- An operation on the digits, lowest first: `f` acts on two digits, and `z` gives the result once the
-- first number has run out.
module _ (z : ℕ → ℕ) (f : ℕ → ℕ → ℕ) where
  no_digits : (fuel b : ℕ) → digits z f fuel 0 b ≡ z b
  no_digits zero b = refl
  no_digits (suc fuel) b = refl

  -- More fuel than the first number is spare.
  spare_fuel :
      (fuel a other b : ℕ) → a ≤ fuel → a ≤ other → digits z f fuel a b ≡ digits z f other a b
  spare_fuel fuel zero other b _ _ = no_digits fuel b ∙ sym (no_digits other b)
  spare_fuel (suc fuel) (suc a) (suc other) b le le' =
      ap (λ (t : ℕ). t * 2 + f (suc a % 2) (b % 2))
        (spare_fuel fuel (suc a / 2) other (b / 2) (omega arith) (omega arith))
  spare_fuel zero (suc a) other b le _ = absurd (omega arith)
  spare_fuel (suc fuel) (suc a) zero b _ le = absurd (omega arith)

  digits_law :
      ((b : ℕ) → z b ≡ z (b / 2) * 2 + f 0 (b % 2))
      → (a b : ℕ) → bitwise z f a b ≡ bitwise z f (a / 2) (b / 2) * 2 + f (a % 2) (b % 2)
  digits_law law zero b = law b
  digits_law law (suc a) b =
      ap (λ (t : ℕ). t * 2 + f (suc a % 2) (b % 2))
        (spare_fuel a (suc a / 2) (suc a / 2) (b / 2) (omega arith) (omega arith))

pub bit_and_step : (a b : ℕ) → bit_and a b ≡ bit_and (a / 2) (b / 2) * 2 + min (a % 2) (b % 2)
bit_and_step a b =
    rw (bit_and-bitwise a b, bit_and-bitwise (a / 2) (b / 2))
      (digits_law (λ b. zero) min (λ b. omega arith) a b)

pub bit_or_step : (a b : ℕ) → bit_or a b ≡ bit_or (a / 2) (b / 2) * 2 + max (a % 2) (b % 2)
bit_or_step a b =
    rw (bit_or-bitwise a b, bit_or-bitwise (a / 2) (b / 2))
      (digits_law (λ b. b) max (λ b. omega (arith, div-add-mod b 2)) a b)

-- A number beside 0, by halving.
beside_zero : (bound a : ℕ) → a ≤ bound → (bit_or a 0 ≡ a) × (bit_and a 0 ≡ 0)
beside_zero bound zero _ = (refl, refl)
beside_zero (suc bound) (suc a) le =
    let (or_zero, and_zero) = beside_zero bound (suc a / 2) (omega arith) in
    (omega (arith, bit_or_step (suc a) 0, or_zero), omega (arith, bit_and_step (suc a) 0, and_zero))
beside_zero zero (suc a) le = absurd (omega arith)

double : (a p q : ℕ) → q ≡ p * 2 → (a * q / 2 ≡ a * p) × (a * q % 2 ≡ 0)
double a p q e = rw e (omega arith, omega arith)

half-lt : (b p q : ℕ) → q ≡ p * 2 → b < q → b / 2 < p
half-lt b p q e h = omega arith

-- A field shifted past the bits of `b` is joined to `b` by addition.
pub bit_or_disjoint : (k a b : ℕ) → b < 2 ^ k → bit_or (a * 2 ^ k) b ≡ a * 2 ^ k + b
bit_or_disjoint zero a b h =
    let e : b ≡ 0 = omega arith in
    rw (e, (beside_zero (a * 1) (a * 1) (omega arith)).0) (omega arith)
bit_or_disjoint (suc k) a b h = omega (
  arith,
  bit_or_step (a * 2 ^ suc k) b,
  double a (2 ^ k) (2 ^ suc k) (pow-suc 2 k),
  ap (λ (t : ℕ). bit_or t (b / 2)) (double a (2 ^ k) (2 ^ suc k) (pow-suc 2 k)).0,
  bit_or_disjoint k a (b / 2) (half-lt b (2 ^ k) (2 ^ suc k) (pow-suc 2 k) h),
)

halve : (q p t r : ℕ) → t ≡ p * 2 → ((q * t + r) / 2 ≡ q * p + r / 2) × ((q * t + r) % 2 ≡ r % 2)
halve q p t r e = rw e (omega arith, omega arith)

ones : (p t : ℕ) → t ≡ p * 2 → 0 < p → ((t - 1) / 2 ≡ p - 1) × ((t - 1) % 2 ≡ 1)
ones p t e h = (omega arith, omega arith)

pow-pos : (k : ℕ) → 0 < 2 ^ k
pow-pos zero = omega arith
pow-pos (suc k) = omega (arith, pow-suc 2 k, pow-pos k)

-- A mask of k ones keeps the k lowest bits.
bit_and_ones : (k q r : ℕ) → r < 2 ^ k → bit_and (q * 2 ^ k + r) (2 ^ k - 1) ≡ r
bit_and_ones zero q r h =
    let e : r ≡ 0 = omega arith in rw e (beside_zero (q * 1 + 0) (q * 1 + 0) (omega arith)).1
bit_and_ones (suc k) q r h = omega (
  arith,
  bit_and_step (q * 2 ^ suc k + r) (2 ^ suc k - 1),
  halve q (2 ^ k) (2 ^ suc k) r (pow-suc 2 k),
  ones (2 ^ k) (2 ^ suc k) (pow-suc 2 k) (pow-pos k),
  ap₂ bit_and (halve q (2 ^ k) (2 ^ suc k) r (pow-suc 2 k)).0
      (ones (2 ^ k) (2 ^ suc k) (pow-suc 2 k) (pow-pos k)).0,
  bit_and_ones k q (r / 2) (half-lt r (2 ^ k) (2 ^ suc k) (pow-suc 2 k) h),
)

pub bit_and_low : (k a : ℕ) → bit_and a (2 ^ k - 1) ≡ a % 2 ^ k
bit_and_low k a = rw split at (bit_and_ones k (a / 2 ^ k) (a % 2 ^ k) (mod-lt a (pow-pos k)))
  where
    split : a / 2 ^ k * 2 ^ k + a % 2 ^ k ≡ a
    split = omega (arith, div-add-mod a (2 ^ k))
