-- ===== src/Transport/Wire.antt =====
-- The big-endian fields of protocol/plank-transport/include: each header of that directory has its
-- own copy of these four functions, with the same bodies.
use teraguchi.Common.{
  ℕ, ◌+◌, ◌*◌, ◌/◌, ◌%◌, ◌^◌, ◌≤◌, ◌<◌, ◌≡◌, false, length, ◌∙◌, ap, List, bit_or, arith,
}
use teraguchi.Common.Bits.{bit_or_disjoint}
use teraguchi.Common.Memory.{Pointer, is_null, bytes_of, Outcome, done, ◌>>=◌, load, store}

-- `(uint8_t)(value >> k)`
abbrev pub byte_at : ℕ → ℕ → ℕ
byte_at value k = value / 2 ^ k % 256

unfoldable pub write_u16 : List ℕ → ℕ → ℕ → Outcome (List ℕ)
unfolding store
write_u16 output at value = do
  output ← store output at (byte_at value 8)
  store output (at + 1) (byte_at value 0)

unfoldable pub write_u32 : List ℕ → ℕ → ℕ → Outcome (List ℕ)
unfolding store
write_u32 output at value = do
  output ← store output at (byte_at value 24)
  output ← store output (at + 1) (byte_at value 16)
  output ← store output (at + 2) (byte_at value 8)
  store output (at + 3) (byte_at value 0)

-- The bytes are at most 255, so no shift loses a bit.
abbrev pub join_u16 : ℕ → ℕ → ℕ
join_u16 a b = bit_or (a * 2 ^ 8) b

abbrev pub join_u32 : ℕ → ℕ → ℕ → ℕ → ℕ
join_u32 a b c d = bit_or (bit_or (bit_or (a * 2 ^ 24) (b * 2 ^ 16)) (c * 2 ^ 8)) d

unfoldable pub read_u16 : List ℕ → ℕ → Outcome ℕ
unfolding load
read_u16 input at = do a ← load input at; b ← load input (at + 1); done (join_u16 a b)

unfoldable pub read_u32 : List ℕ → ℕ → Outcome ℕ
unfolding load
read_u32 input at = do
  a ← load input at
  b ← load input (at + 1)
  c ← load input (at + 2)
  d ← load input (at + 3)
  done (join_u32 a b c d)

pub join_u16_bytes : (v : ℕ) → v < 2 ^ 16 → join_u16 (byte_at v 8) (byte_at v 0) ≡ v
join_u16_bytes v h = omega (arith, bit_or_disjoint 8 (byte_at v 8) (byte_at v 0) (omega arith))

pub join_u32_sum :
    (a b c d : ℕ)
    → b < 256
    → c < 256
    → d < 256
    → join_u32 a b c d ≡ a * 2 ^ 24 + b * 2 ^ 16 + c * 2 ^ 8 + d
join_u32_sum a b c d hb hc hd =
    let high : (a * 256 + b) * 2 ^ 16 ≡ a * 2 ^ 24 + b * 2 ^ 16 = omega arith in
    let upper : (a * 65536 + b * 256 + c) * 2 ^ 8 ≡ a * 2 ^ 24 + b * 2 ^ 16 + c * 2 ^ 8 =
      omega arith in
    ap (λ t. bit_or (bit_or t (c * 2 ^ 8)) d) (bit_or_disjoint 24 a (b * 2 ^ 16) (omega arith))
    ∙ ap (λ t. bit_or t d) (rw high at (bit_or_disjoint 16 (a * 256 + b) (c * 2 ^ 8) (omega arith)))
    ∙ rw upper at (bit_or_disjoint 8 (a * 65536 + b * 256 + c) d hd)

pub join_u32_bytes :
    (v : ℕ) → v < 2 ^ 32 → join_u32 (byte_at v 24) (byte_at v 16) (byte_at v 8) (byte_at v 0) ≡ v
join_u32_bytes v h = omega (
  arith,
  join_u32_sum (byte_at v 24) (byte_at v 16) (byte_at v 8) (byte_at v 0) (omega arith) (omega arith)
      (omega arith),
)

pub join_u16_fields :
    (a b : ℕ)
    → a < 256
    → b < 256
    → (byte_at (join_u16 a b) 8 ≡ a) × (byte_at (join_u16 a b) 0 ≡ b) × (join_u16 a b < 2 ^ 16)
join_u16_fields a b ha hb = rw (bit_or_disjoint 8 a b hb) (omega arith, omega arith, omega arith)

pub join_u32_fields :
    (a b c d : ℕ)
    → a < 256
    → b < 256
    → c < 256
    → d < 256
    → (byte_at (join_u32 a b c d) 24 ≡ a)
      × (byte_at (join_u32 a b c d) 16 ≡ b)
      × (byte_at (join_u32 a b c d) 8 ≡ c)
      × (byte_at (join_u32 a b c d) 0 ≡ d)
      × (join_u32 a b c d < 2 ^ 32)
join_u32_fields a b c d ha hb hc hd =
    rw (join_u32_sum a b c d hb hc hd)
      (omega arith, omega arith, omega arith, omega arith, omega arith)

-- The caller's part: the buffers are as long as their stated sizes.
pub record Fits (payload : Pointer) (payload_size : ℕ) (output : List ℕ) (capacity : ℕ)
    : Type 0 where
  pub room : capacity ≤ length output
  pub given : is_null payload ≡ false → payload_size ≤ length (bytes_of payload)
