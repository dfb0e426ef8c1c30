-- ===== src/Common/Families.antt =====
-- Arrays as functions of the index.
use Prim.Native.Nat.{ℕ}
use teraguchi.Common.Tests.{◌==◌, if◌then◌else◌}

abbrev pub update {ℓ} : {A : Type ℓ} → (ℕ → A) → ℕ → A → ℕ → A
update f i a j = if j == i then a else f j
