-- ===== src/X11/Channels.antt =====
-- Channels: `make_channel`, `pack_code` and `unpack_code`, and the test of `controlled_round_trip` and
-- `visible_drawable_round_trip` that an image has kept all codes. What XGetPixel gives is a function of the
-- column. The loops of `trailing_zeroes` and `bit_count` run on 64 rounds of fuel, the bits of a mask.
use teraguchi.Common.{
  ℕ, zero, suc, ◌+◌, ◌*◌, ◌/◌, ◌%◌, ◌^◌, Bool, true, false, not, ◌&&◌, ◌||◌, List, [], ◌∷◌, bit_and,
  bit_or, ◌==◌, ◌!=◌, if◌then◌else◌,
}

-- The name is left out, which is only printed.
pub record Channel : Type 0 where
  pub mask : ℕ
  pub shift : ℕ
  pub bits : ℕ

unfoldable pub zeroes_loop : ℕ → ℕ → ℕ → ℕ
zeroes_loop zero value count = count
zeroes_loop (suc n) value count =
    let rest = zeroes_loop n (value / 2) (count + 1) in if value % 2 == 0 then rest else count

unfoldable pub trailing_zeroes : ℕ → ℕ
trailing_zeroes value = if value == 0 then 0 else zeroes_loop 64 value 0

unfoldable pub count_loop : ℕ → ℕ → ℕ → ℕ
count_loop zero value count = count
count_loop (suc n) value count =
    let rest = count_loop n (value / 2) (count + value % 2) in if value == 0 then count else rest

unfoldable pub bit_count : ℕ → ℕ
bit_count value = count_loop 64 value 0

unfoldable pub make_channel : ℕ → Channel
make_channel mask = record { mask = mask; shift = trailing_zeroes mask; bits = bit_count mask }

unfoldable pub pack_code : Channel → ℕ → ℕ
pack_code channel code = bit_and (code * 2 ^ channel.shift % 2 ^ 64) channel.mask

unfoldable pub unpack_code : Channel → ℕ → ℕ
unpack_code channel pixel = bit_and pixel channel.mask / 2 ^ channel.shift % 2 ^ 32

-- A code in every channel.
unfoldable pub pack_pixel : List Channel → ℕ → ℕ → ℕ
pack_pixel [] code pixel = pixel
pack_pixel (channel ∷ channels) code pixel =
    pack_pixel channels code (bit_or pixel (pack_code channel code))

unfoldable pub shows_code : List Channel → ℕ → ℕ → Bool
shows_code [] code pixel = true
shows_code (channel ∷ channels) code pixel =
    if unpack_code channel pixel != code then false else shows_code channels code pixel

-- The codes from `code`.
unfoldable pub exact : List Channel → (ℕ → ℕ) → ℕ → ℕ → Bool
exact channels get_pixel zero code = true
exact channels get_pixel (suc n) code =
    let rest = exact channels get_pixel n (suc code) in
    if shows_code channels code (get_pixel code) then rest else false

-- What `main` asks of the masks of the root window.
unfoldable pub accepts_masks : Channel → Channel → Channel → Bool
accepts_masks red green blue =
    let masks_are_10_bit = red.bits == 10 && (green.bits == 10 && blue.bits == 10) in
    let masks_overlap =
      bit_and red.mask green.mask != 0
      || (bit_and red.mask blue.mask != 0 || bit_and green.mask blue.mask != 0) in
    masks_are_10_bit && not masks_overlap

-- The codes of 10 bits that a code of 8 bits expands to, from `source` on.
unfoldable pub expands_from : ℕ → ℕ → ℕ → Bool
expands_from zero source value = false
expands_from (suc n) source value =
    let rest = expands_from n (suc source) value in
    if bit_or (source * 4) (source / 64) == value then true else rest

unfoldable pub is_eight_to_ten_expansion : ℕ → Bool
is_eight_to_ten_expansion value = expands_from 256 0 value
