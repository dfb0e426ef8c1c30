-- ===== src/X11/Expansion.antt =====
-- The codes of 10 bits that come from codes of 8 bits.
use teraguchi.Common.{
  ℕ, zero, suc, ◌+◌, ◌*◌, ◌/◌, ◌%◌, ◌<◌, ◌≡◌, refl, Bool, ◌&&◌, bit_or, ltb, leb, ◌==◌, arith,
}
use teraguchi.Common.Bits.{bit_or_disjoint}
use teraguchi.X11.Channels.{expands_from, is_eight_to_ten_expansion}

expanded :
    (source : ℕ) → source < 256 → bit_or (source * 4) (source / 64) ≡ source * 4 + source / 64
expanded source h = bit_or_disjoint 2 source (source / 64) (omega arith)

-- A code of 10 bits whose two lowest bits are its two highest.
abbrev pub repeats_top_bits : ℕ → Bool
repeats_top_bits value = ltb value 1024 && value % 4 == value / 256

expands_from_lem :
    (n source value : ℕ)
    → source + n ≡ 256
    → expands_from n source value ≡ (repeats_top_bits value && leb source (value / 4))
unfolding expands_from
expands_from_lem zero source value e = ground (arith, e)
expands_from_lem (suc n) source value e =
    let rest = expands_from_lem n (suc source) value (omega (arith, e)) in
    rw (expanded source (omega (arith, e)), rest) (ground (arith, e))

-- The search through all 256 codes of 8 bits finds just the codes of 10 bits whose two lowest bits repeat
-- their two highest.
pub is_eight_to_ten_expansion_lem :
    (value : ℕ) → is_eight_to_ten_expansion value ≡ repeats_top_bits value
unfolding is_eight_to_ten_expansion
is_eight_to_ten_expansion_lem value = ground (arith, expands_from_lem 256 0 value refl)
