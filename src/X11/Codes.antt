-- ===== src/X11/Codes.antt =====
-- Codes of three channels in one pixel.
use teraguchi.Common.{
  ℕ, zero, suc, ◌+◌, ◌-◌, ◌*◌, ◌/◌, ◌%◌, ◌^◌, ◌≤◌, ◌<◌, ◌≡◌, refl, sym, ap₂, subst, inl, inr, true,
  List, [], ◌∷◌, bit_and, bit_or, ◌==◌, if◌then◌else◌, arith,
}
use teraguchi.X11.Channels.{
  Channel, zeroes_loop, trailing_zeroes, count_loop, bit_count, make_channel, pack_code,
  unpack_code, pack_pixel, shows_code, exact, accepts_masks,
}
use teraguchi.X11.Fields.{
  or_zero, zero_or, bit_and-bit_or, double, field, Apart, pow-pos, pow-le, below-lt, field-Apart,
  field-same,
}
use native.Mathlib.Nat.{pow-suc, mod-eq_of_lt, mul-div_cancel}

ones : (k : ℕ) → ((2 ^ suc k - 1) % 2 ≡ 1) × ((2 ^ suc k - 1) / 2 ≡ 2 ^ k - 1)
ones k = (omega (arith, pow-suc 2 k, pow-pos k), omega (arith, pow-suc 2 k, pow-pos k))

zeroes-shift : (s n v c : ℕ) → v % 2 ≡ 1 → s < n → zeroes_loop n (v * 2 ^ s) c ≡ c + s
unfolding zeroes_loop
zeroes-shift s zero v c odd h = absurd (omega (arith, h))
zeroes-shift zero (suc n) v c odd h = ground (arith, odd)
zeroes-shift (suc s) (suc n) v c odd h =
    let (half, even) = double v (2 ^ s) (2 ^ suc s) (pow-suc 2 s) in
    let rest : zeroes_loop n (v * 2 ^ s) (c + 1) ≡ c + 1 + s =
      zeroes-shift s n v (c + 1) odd (omega (arith, h)) in
    rw (even, half) (omega (arith, rest))

count-ones : (k n c : ℕ) → k ≤ n → count_loop n (2 ^ k - 1) c ≡ c + k
unfolding count_loop
count-ones zero zero c h = omega arith
count-ones zero (suc n) c h = omega arith
count-ones (suc k) zero c h = absurd (omega (arith, h))
count-ones (suc k) (suc n) c h =
    let rest : count_loop n (2 ^ k - 1) (c + 1) ≡ c + 1 + k =
      count-ones k n (c + 1) (omega (arith, h)) in
    rw ((ones k).0, (ones k).1) (ground (arith, rest, (ones k).0))

field-pos : (k s : ℕ) → 0 < field (suc k) s
field-pos k zero = omega (arith, pow-suc 2 k, pow-pos k)
field-pos k (suc s) =
    omega (arith, double (2 ^ suc k - 1) (2 ^ s) (2 ^ suc s) (pow-suc 2 s), field-pos k s)

count-field : (s n k c : ℕ) → s + suc k ≤ n → count_loop n (field (suc k) s) c ≡ c + suc k
unfolding count_loop
count-field zero n k c le =
    let e : (2 ^ suc k - 1) * 1 ≡ 2 ^ suc k - 1 = omega arith in
    rw e (count-ones (suc k) n c (omega (arith, le)))
count-field (suc s) zero k c le = absurd (omega (arith, le))
count-field (suc s) (suc n) k c le =
    let (half, even) = double (2 ^ suc k - 1) (2 ^ s) (2 ^ suc s) (pow-suc 2 s) in
    let rest : count_loop n (field (suc k) s) (c + 0) ≡ c + 0 + suc k =
      count-field s n k (c + 0) (omega (arith, le)) in
    let some_bit = field-pos k (suc s) in rw (even, half) (ground (arith, rest, some_bit))

-- A mask that is one field is read as this field.
make_channel-field :
    (k s : ℕ)
    → s + suc k ≤ 64
    → make_channel (field (suc k) s) ≡ record { mask = field (suc k) s; shift = s; bits = suc k }
unfolding make_channel trailing_zeroes bit_count
make_channel-field k s le =
    ap₂ (λ (shift bits : ℕ). record { mask = field (suc k) s; shift = shift; bits = bits })
      (shifted (zeroes-shift s 64 (2 ^ suc k - 1) 0 (ones k).0 (omega (arith, le))))
      (omega (arith, count-field s 64 k 0 le))
  where
    shifted :
        zeroes_loop 64 (field (suc k) s) 0 ≡ 0 + s
        → (if field (suc k) s == 0 then 0 else zeroes_loop 64 (field (suc k) s) 0) ≡ s
    shifted e = ground (arith, e, field-pos k s)

abbrev channel_of : ℕ → ℕ → Channel
channel_of k s = record { mask = field k s; shift = s; bits = k }

pack_code-field :
    (k s code : ℕ) → s + k ≤ 32 → code < 2 ^ k → pack_code (channel_of k s) code ≡ code * 2 ^ s
unfolding pack_code
pack_code-field k s code le h =
    let small : code * 2 ^ s < 2 ^ 64 = below-lt k s 64 code h (omega (arith, le)) in
    rw (mod-eq_of_lt small) (field-same k s code h)

unpack_code-field :
    (k s code pixel : ℕ)
    → s + k ≤ 32
    → code < 2 ^ k
    → bit_and pixel (field k s) ≡ code * 2 ^ s
    → unpack_code (channel_of k s) pixel ≡ code
unfolding unpack_code
unpack_code-field k s code pixel le h e =
    let bound : 2 ^ k ≤ 2 ^ 32 = pow-le k 32 (omega (arith, le)) in
    let small : code < 2 ^ 32 = omega (arith, h, bound) in
    rw (e, mul-div_cancel code (pow-pos s)) (mod-eq_of_lt small)

-- Three channels at these places, made from their masks.
abbrev pub three_channels : ℕ → ℕ → ℕ → ℕ → List Channel
three_channels k r g b =
    make_channel (field k r) ∷ (make_channel (field k g) ∷ (make_channel (field k b) ∷ []))

-- The fields lie in a word of 32 bits and do not overlap.
pub record Disjoint (k r g b : ℕ) : Type 0 where
  pub red_fits : r + k ≤ 32
  pub green_fits : g + k ≤ 32
  pub blue_fits : b + k ≤ 32
  pub red_green : Apart k r g
  pub red_blue : Apart k r b
  pub green_blue : Apart k g b

swap : (k s t : ℕ) → Apart k s t → Apart k t s
swap k s t (inl h) = inr h
swap k s t (inr h) = inl h

module _ (k r g b : ℕ) (fits : Disjoint (suc k) r g b) where
  channels_made :
      three_channels (suc k) r g b
      ≡ channel_of (suc k) r ∷ (channel_of (suc k) g ∷ (channel_of (suc k) b ∷ []))
  channels_made =
      rw
        (
          make_channel-field k r (omega (arith, fits.red_fits)),
          make_channel-field k g (omega (arith, fits.green_fits)),
          make_channel-field k b (omega (arith, fits.blue_fits)),
        )
        refl

  -- What the mask of a field keeps of the pixel.
  masked :
      (t code : ℕ)
      → code < 2 ^ suc k
      → bit_and
          (pack_pixel
            (channel_of (suc k) r ∷ (channel_of (suc k) g ∷ (channel_of (suc k) b ∷ [])))
            code
            0)
          (field (suc k) t)
        ≡ bit_or
            (bit_or
              (bit_and (code * 2 ^ r) (field (suc k) t))
              (bit_and (code * 2 ^ g) (field (suc k) t)))
            (bit_and (code * 2 ^ b) (field (suc k) t))
  unfolding pack_pixel
  masked t code h =
      rw
        (
          pack_code-field (suc k) r code fits.red_fits h,
          pack_code-field (suc k) g code fits.green_fits h,
          pack_code-field (suc k) b code fits.blue_fits h,
          zero_or (code * 2 ^ r),
          bit_and-bit_or (bit_or (code * 2 ^ r) (code * 2 ^ g)) (code * 2 ^ b) (field (suc k) t),
          bit_and-bit_or (code * 2 ^ r) (code * 2 ^ g) (field (suc k) t),
        )
        refl

  unpack_red :
      (code : ℕ)
      → code < 2 ^ suc k
      → unpack_code (channel_of (suc k) r) (
          pack_pixel
            (channel_of (suc k) r ∷ (channel_of (suc k) g ∷ (channel_of (suc k) b ∷ [])))
            code
            0)
        ≡ code
  unpack_red code h = unpack_code-field (suc k) r code _ fits.red_fits h (
      rw
        (
          masked r code h,
          field-same (suc k) r code h,
          field-Apart (suc k) g r code (swap (suc k) r g fits.red_green) h,
          field-Apart (suc k) b r code (swap (suc k) r b fits.red_blue) h,
          or_zero (code * 2 ^ r),
        )
        (or_zero (code * 2 ^ r)))

  unpack_green :
      (code : ℕ)
      → code < 2 ^ suc k
      → unpack_code (channel_of (suc k) g) (
          pack_pixel
            (channel_of (suc k) r ∷ (channel_of (suc k) g ∷ (channel_of (suc k) b ∷ [])))
            code
            0)
        ≡ code
  unpack_green code h = unpack_code-field (suc k) g code _ fits.green_fits h (
      rw
        (
          masked g code h,
          field-same (suc k) g code h,
          field-Apart (suc k) r g code fits.red_green h,
          field-Apart (suc k) b g code (swap (suc k) g b fits.green_blue) h,
          zero_or (code * 2 ^ g),
        )
        (or_zero (code * 2 ^ g)))

  unpack_blue :
      (code : ℕ)
      → code < 2 ^ suc k
      → unpack_code (channel_of (suc k) b) (
          pack_pixel
            (channel_of (suc k) r ∷ (channel_of (suc k) g ∷ (channel_of (suc k) b ∷ [])))
            code
            0)
        ≡ code
  unpack_blue code h = unpack_code-field (suc k) b code _ fits.blue_fits h (
      rw
        (
          masked b code h,
          field-same (suc k) b code h,
          field-Apart (suc k) r b code fits.red_blue h,
          field-Apart (suc k) g b code fits.green_blue h,
          zero_or 0,
        )
        (zero_or (code * 2 ^ b)))

  shows_made :
      (code : ℕ)
      → code < 2 ^ suc k
      → shows_code
          (channel_of (suc k) r ∷ (channel_of (suc k) g ∷ (channel_of (suc k) b ∷ [])))
          code
          (pack_pixel
            (channel_of (suc k) r ∷ (channel_of (suc k) g ∷ (channel_of (suc k) b ∷ [])))
            code
            0)
        ≡ true
  unfolding shows_code
  shows_made code h = ground (arith, unpack_red code h, unpack_green code h, unpack_blue code h)

  shows-pack :
      (code : ℕ)
      → code < 2 ^ suc k
      → shows_code
          (three_channels (suc k) r g b)
          code
          (pack_pixel (three_channels (suc k) r g b) code 0)
        ≡ true
  shows-pack code h =
      subst (λ (cs : List Channel). shows_code cs code (pack_pixel cs code 0) ≡ true)
        (sym channels_made) (shows_made code h)

  exact-from :
      (get_pixel : ℕ → ℕ) (n code : ℕ)
      → code + n ≤ 2 ^ suc k
      → ((x : ℕ) → x < 2 ^ suc k → get_pixel x ≡ pack_pixel (three_channels (suc k) r g b) x 0)
      → exact (three_channels (suc k) r g b) get_pixel n code ≡ true
  unfolding exact
  exact-from get_pixel zero code le kept = refl
  exact-from get_pixel (suc n) code le kept =
      let here : code < 2 ^ suc k = omega (arith, le) in
      let rest = exact-from get_pixel n (suc code) (omega (arith, le)) kept in
      rw (kept code here, shows-pack code here) rest

accepted :
    (r g b : ℕ)
    → Disjoint 10 r g b
    → accepts_masks
        (make_channel (field 10 r))
        (make_channel (field 10 g))
        (make_channel (field 10 b))
      ≡ true
unfolding accepts_masks
accepted r g b fits =
    rw
      (
        make_channel-field 9 r (omega (arith, fits.red_fits)),
        make_channel-field 9 g (omega (arith, fits.green_fits)),
        make_channel-field 9 b (omega (arith, fits.blue_fits)),
        field-Apart 10 r g 1023 fits.red_green (omega arith),
        field-Apart 10 r b 1023 fits.red_blue (omega arith),
        field-Apart 10 g b 1023 fits.green_blue (omega arith),
      )
      refl

-- Three fields of 10 bits that do not overlap, anywhere in a word of 32 bits, are accepted as the masks of
-- the root window; and an image that gives the pixels back as they were put passes the test of all 1024
-- codes: each channel reads its code.
pub exact-pack_pixel :
    (r g b : ℕ) (get_pixel : ℕ → ℕ)
    → Disjoint 10 r g b
    → ((x : ℕ) → x < 1024 → get_pixel x ≡ pack_pixel (three_channels 10 r g b) x 0)
    → (accepts_masks
          (make_channel (field 10 r))
          (make_channel (field 10 g))
          (make_channel (field 10 b))
        ≡ true)
      × (exact (three_channels 10 r g b) get_pixel 1024 0 ≡ true)
exact-pack_pixel r g b get_pixel fits kept =
    (accepted r g b fits, exact-from 9 r g b fits get_pixel 1024 0 (omega arith) kept)
