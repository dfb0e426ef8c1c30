-- ===== src/X11/Tests.antt =====
-- The unpacking at concrete inputs.
use teraguchi.Common.{ℕ, ◌+◌, ◌*◌, ◌≡◌, refl, inr, true, false, some, [], ◌∷◌, arith}
use teraguchi.X11.Channels.{
  unpack_code, zeroes_loop, trailing_zeroes, count_loop, bit_count, make_channel, pack_pixel, exact,
  accepts_masks, is_eight_to_ten_expansion,
}
use teraguchi.X11.Fields.{field}
use teraguchi.X11.Codes.{three_channels, Disjoint, exact-pack_pixel}
use teraguchi.X11.Expansion.{repeats_top_bits, is_eight_to_ten_expansion_lem}
use teraguchi.X11.Segment.{
  creates_image, destroys_image, gets_segment, removes, maps, unmaps, Answers, cleanup, throws,
  attach, map_segment, get_segment, create_image, construct, lifetime, Balanced, lifetime-Balanced,
}
use teraguchi.X11.Planes.{
  Channels, Planes, put, unpack_pixel, unpack_columns, unpack_from, unpack_identity_rows,
  unpack_identity_single, make_workers, run_workers, unpack_identity_parallel,
}
use teraguchi.X11.Workers.{rows, rows_of, parallel-single}

abbrev rgb10 : Channels
rgb10 = record {
  red = record { mask = 0x3ff00000; shift = 20; bits = 10 };
  green = record { mask = 0xffc00; shift = 10; bits = 10 };
  blue = record { mask = 0x3ff; shift = 0; bits = 10 };
}

abbrev blank_planes : Planes
blank_planes = record { red = λ i. 0; green = λ i. 0; blue = λ i. 0 }

-- Two columns and five rows, their pixels numbered by their place in memory.
abbrev small_image : ℕ → ℕ
small_image at = at * 1048576 + 7

parallel-single_example :
    (rows_of (make_workers 5 3 3 0) ≡ rows 0 5)
    × (unpack_identity_parallel rgb10 small_image 2 12 5 3 blank_planes
        ≡ unpack_identity_single rgb10 small_image 2 12 5 blank_planes)
parallel-single_example = parallel-single rgb10 small_image 2 12 5 3 blank_planes (omega arith)

-- The second pixel of the last row stands 52 bytes into the image.
last_red : (unpack_identity_parallel rgb10 small_image 2 12 5 3 blank_planes).red 9 ≡ 52
unfolding unpack_identity_parallel make_workers run_workers unpack_identity_rows unpack_from
    unpack_columns unpack_pixel put unpack_code
last_red = refl

-- The masks of RGB 10:10:10, and an image that keeps what was put into it.
rgb10-Disjoint : Disjoint 10 20 10 0
rgb10-Disjoint = record {
  red_fits = omega arith;
  green_fits = omega arith;
  blue_fits = omega arith;
  red_green = inr (omega arith);
  red_blue = inr (omega arith);
  green_blue = inr (omega arith);
}

exact-pack_pixel_example :
    (accepts_masks
        (make_channel (field 10 20))
        (make_channel (field 10 10))
        (make_channel (field 10 0))
      ≡ true)
    × (exact (three_channels 10 20 10 0) (λ x. pack_pixel (three_channels 10 20 10 0) x 0) 1024 0
        ≡ true)
exact-pack_pixel_example =
    exact-pack_pixel 20 10 0 (λ x. pack_pixel (three_channels 10 20 10 0) x 0) rgb10-Disjoint
      (λ x h. refl)

-- The red mask of RGB 10:10:10, and a mask with a gap.
red_made : make_channel 0x3ff00000 ≡ record { mask = 0x3ff00000; shift = 20; bits = 10 }
unfolding make_channel trailing_zeroes zeroes_loop bit_count count_loop
red_made = refl

gap_made : make_channel 0xb0 ≡ record { mask = 0xb0; shift = 4; bits = 3 }
unfolding make_channel trailing_zeroes zeroes_loop bit_count count_loop
gap_made = refl

is_eight_to_ten_expansion_lem_example : is_eight_to_ten_expansion 514 ≡ repeats_top_bits 514
is_eight_to_ten_expansion_lem_example = is_eight_to_ten_expansion_lem 514

-- The server refuses the attachment.
abbrev unattached : Answers
unattached = record {
  image = some 8294400;
  segment = true;
  mapping = true;
  attachment = false;
  marking = true;
  removal = true;
}

unattached_calls :
    (lifetime unattached).calls
    ≡ creates_image ∷ (gets_segment ∷ (maps ∷ (destroys_image ∷ (unmaps ∷ (removes true ∷ [])))))
unfolding lifetime construct create_image get_segment map_segment attach throws cleanup
unattached_calls = refl

lifetime-Balanced_example : Balanced (lifetime unattached).calls
lifetime-Balanced_example = lifetime-Balanced unattached refl
