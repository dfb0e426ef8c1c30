-- ===== src/Common/Memory.antt =====
-- C buffers with an explicit fault: a call that reads or writes outside a buffer gives `fault`.
use Prim.Native.Nat.{ℕ, zero, suc, ◌+◌, ◌≤◌}
use mathlib.Core.Path.{◌≡◌, refl}
use mathlib.Core.Bool.{Bool, true, false}
use mathlib.Core.Option.{Option, none, some}
use mathlib.Core.List.{List, [], ◌∷◌, ◌++◌}
use native.Mathlib.Omega.{arith}
use teraguchi.Common.Lists.{length, take, drop, take-append, drop-append, length-append}
use teraguchi.Common.Tests.{◌!=◌, if◌then◌else◌}

-- `refused` is the status -1 of a checked call; `fault` is undefined behaviour.
pub data Outcome {ℓ} (A : Type ℓ) : Type ℓ where
  done : A → Outcome A
  refused : Outcome A
  fault : Outcome A

infixl 5 ◌>>=◌ ◌>>◌
abbrev pub ◌>>=◌ {ℓ κ} : {A : Type ℓ} {B : Type κ} → Outcome A → (A → Outcome B) → Outcome B
done a >>= f = f a
refused >>= f = refused
fault >>= f = fault

abbrev pub ◌>>◌ {ℓ} : {B : Type ℓ} → Outcome (Unit {0}) → Outcome B → Outcome B
m >> k = m >>= λ _. k

-- An early `return -1` when the test holds.
abbrev pub refuse_if : Bool → Outcome (Unit {0})
refuse_if true = refused
refuse_if false = done tt

-- A pointer with the bytes behind it; `none` is NULL.
abbrev pub Pointer : Type 0
Pointer = Option (List ℕ)

abbrev pub is_null : Pointer → Bool
is_null none = true
is_null (some bytes) = false

-- What a pointer that may be NULL gives to read: at NULL the first read faults.
abbrev pub bytes_of : Pointer → List ℕ
bytes_of none = []
bytes_of (some bytes) = bytes

-- `input[i]`
unfoldable pub load : List ℕ → ℕ → Outcome ℕ
load [] i = fault
load (b ∷ bs) zero = done b
load (b ∷ bs) (suc i) = load bs i

-- `output[i] = v`
unfoldable pub store : List ℕ → ℕ → ℕ → Outcome (List ℕ)
store [] i v = fault
store (b ∷ bs) zero v = done (v ∷ bs)
store (b ∷ bs) (suc i) v = store bs i v >>= λ rest. done (b ∷ rest)

copy_front : ℕ → List ℕ → List ℕ → Outcome (List ℕ)
copy_front zero src dst = done dst
copy_front (suc n) [] dst = fault
copy_front (suc n) (s ∷ src) [] = fault
copy_front (suc n) (s ∷ src) (d ∷ dst) = copy_front n src dst >>= λ rest. done (s ∷ rest)

-- `memcpy(dst + off, src, n)`
unfoldable pub memcpy : List ℕ → ℕ → List ℕ → ℕ → Outcome (List ℕ)
unfolding copy_front
memcpy dst zero src n = copy_front n src dst
memcpy [] (suc off) src n = fault
memcpy (d ∷ dst) (suc off) src n = memcpy dst off src n >>= λ rest. done (d ∷ rest)

copy_front_lem :
    (n : ℕ) (src dst : List ℕ)
    → n ≤ length src
    → n ≤ length dst
    → copy_front n src dst ≡ done (take n src ++ drop n dst)
unfolding copy_front
copy_front_lem zero src dst h k = refl
copy_front_lem (suc n) [] dst h k = absurd (omega arith)
copy_front_lem (suc n) (s ∷ src) [] h k = absurd (omega arith)
copy_front_lem (suc n) (s ∷ src) (d ∷ dst) h k =
    rw (copy_front_lem n src dst (omega arith) (omega arith))

pub memcpy_lem :
    (dst : List ℕ) (off : ℕ) (src : List ℕ) (n : ℕ)
    → n ≤ length src
    → off + n ≤ length dst
    → memcpy dst off src n ≡ done (take off dst ++ (take n src ++ drop n (drop off dst)))
unfolding memcpy
memcpy_lem dst zero src n h k = copy_front_lem n src dst h (omega arith)
memcpy_lem [] (suc off) src n h k = absurd (omega arith)
memcpy_lem (d ∷ dst) (suc off) src n h k = rw (memcpy_lem dst off src n h (omega arith))

-- A copy of a payload behind what is written already, skipped where the size is 0.
pub copy_payload :
    (front rest payload : List ℕ) (size : ℕ)
    → size ≤ length payload
    → size ≤ length rest
    → (if size != 0
        then memcpy (front ++ rest) (length front) payload size
        else done (front ++ rest))
      ≡ done (front ++ (take size payload ++ drop size rest))
copy_payload front rest payload zero h k = refl
copy_payload front rest payload (suc n) h k =
    let used : (suc n != 0) ≡ true = ground arith in
    let behind : take (length front) (front ++ rest) ≡ front = take-append front rest in
    rw (
      used,
      memcpy_lem (front ++ rest) (length front) payload (suc n) h
          (omega (arith, length-append front rest)),
      behind,
      drop-append front rest,
    )
