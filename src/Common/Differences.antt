-- ===== src/Common/Differences.antt =====
-- Differences of machine words: signed, and with wrap-around.
use Prim.Native.Nat.{ℕ, ◌+◌, ◌-◌, ◌%◌, ◌^◌}
use teraguchi.Common.Tests.{leb, if◌then◌else◌}

-- A signed difference.
pub data ℤ : Type 0 where
  pos : ℕ → ℤ
  negsuc : ℕ → ℤ

abbrev pub sub_ℕ : ℕ → ℕ → ℤ
sub_ℕ a b = if leb b a then pos (a - b) else negsuc (b - a - 1)

-- `a - b` of two words of 64 bits.
abbrev pub sub_u64 : ℕ → ℕ → ℕ
sub_u64 a b = (a + (2 ^ 64 - b)) % 2 ^ 64
