-- ===== src/Kms/Tests/Screens.antt =====
-- An output, framebuffers, plans and frames at concrete inputs.
use teraguchi.Common.{
  ℕ, ◌*◌, ◌/◌, ◌≡◌, refl, ap, All, true, List, [], ◌∷◌, Option, none, some, ltb, arith,
}
use teraguchi.Kms.Output.{
  ModeInfo, ModeFlags, Doubles, Connector, Output, better_mode, select_output, select_connectors,
  keep_better, output_of, output_of_modes, best_mode, mode_refresh_hz, crtc_of, or_possible,
  possible_crtc, current_crtc, refresh_ns,
}
use teraguchi.Kms.Output.Rank.{IsOrdered}
use teraguchi.Kms.Output.Best.{Offered, Beaten, select_output-Beaten}
use teraguchi.Kms.Framebuffers.{
  SampleInfo, Answers, Strtoull, create_frame, release_framebuffer_cache, import_handle,
  close_handle, add_framebuffer, remove_framebuffer, release_calls, create_accepted, use_buffer,
  import_buffer, add_imported, find_cached, accept_sample, parse_modifier, behind_colon,
}
use teraguchi.Common.Bytes.{starts_with}
use teraguchi.Kms.Framebuffers.Balance.{
  empty_cache, count_if, imports, closes, adds, removes, create_frames, release-create_frames,
}
use teraguchi.Kms.Schedule.{plan, shift_plan}

abbrev drm : ModeFlags
drm = record { interlace = 16; dblscan = 32; preferred = 8 }

-- Whole numbers in place of doubles.
abbrev whole : Doubles
whole = record {
  Double = ℕ;
  of_nat = λ n. n;
  times = λ a b. a * b;
  over = λ a b. a / b;
  less = ltb;
  rounded = λ x. x;
}

abbrev full_hd : ModeInfo
full_hd = record {
  clock = 148500;
  hdisplay = 1920;
  htotal = 2200;
  vdisplay = 1080;
  vtotal = 1125;
  vscan = 0;
  flags = 0;
  type = 8;
}

abbrev slow : ModeInfo
slow = record {
  clock = 74250;
  hdisplay = 1920;
  htotal = 2200;
  vdisplay = 1080;
  vtotal = 1125;
  vscan = 0;
  flags = 0;
  type = 8;
}

-- The second connector's encoder drives no CRTC yet, and can drive the second.
abbrev connectors : List (Option Connector)
connectors =
    none
    ∷ (some (record {
      connector_id = 31;
      connected = true;
      modes = slow ∷ (full_hd ∷ []);
      encoder_id = 5;
      encoder = some (record { crtc_id = 0; possible_crtcs = 2 });
    })
        ∷ [])

abbrev monitor : Output
monitor = record { connector_id = 31; crtc_index = 1; crtc_id = 41; mode = full_hd }

select_monitor :
    select_output drm whole (some (40 ∷ (41 ∷ []), connectors)) ≡ (some monitor, some 16666666)
unfolding select_output select_connectors keep_better output_of output_of_modes best_mode
    better_mode mode_refresh_hz crtc_of or_possible possible_crtc current_crtc refresh_ns
select_monitor = refl

whole-IsOrdered : IsOrdered whole
whole-IsOrdered = record {
  asymmetric = λ a b h. ground (arith, h);
  transitive = λ a b c h k. ground (arith, h, k);
}

select_output-Beaten_example :
    Offered drm whole whole-IsOrdered (40 ∷ (41 ∷ [])) monitor connectors
    × All (Beaten drm whole whole-IsOrdered (40 ∷ (41 ∷ [])) monitor) connectors
select_output-Beaten_example =
    select_output-Beaten drm whole whole-IsOrdered (40 ∷ (41 ∷ [])) connectors monitor
      (ap (λ r. r.0) select_monitor)

-- Every number is 7, and nothing stands behind it.
abbrev seven : Strtoull
seven text = (7, [])

abbrev full_sample : SampleInfo
full_sample = record {
  meta = some (record { width = 1920; height = 1080 });
  drm_format = some (b'Y' ∷ (b'4' ∷ (b'1' ∷ (b'0' ∷ (b':' ∷ (b'7' ∷ []))))));
  n_memory = 1;
  stat = some (1, 2);
}

-- A framebuffer that cannot be made, one that is made, and one from the cache.
abbrev three_samples : List (SampleInfo × Answers)
three_samples =
    (full_sample, (record { handle = some 5; framebuffer = none }))
    ∷ ((full_sample, (record { handle = some 5; framebuffer = some 9 }))
        ∷ ((full_sample, (record { handle = none; framebuffer = none })) ∷ []))

three_calls :
    (release_framebuffer_cache (create_frames seven 1920 1080 empty_cache three_samples)).calls
    ≡ import_handle 5
      ∷ (close_handle 5
          ∷ (import_handle 5
              ∷ (add_framebuffer 9 ∷ (remove_framebuffer 9 ∷ (close_handle 5 ∷ [])))))
unfolding release_framebuffer_cache release_calls create_frames create_frame create_accepted
    use_buffer import_buffer add_imported find_cached accept_sample parse_modifier behind_colon
    starts_with
three_calls = refl

release-create_frames_example :
    let calls =
      (release_framebuffer_cache (create_frames seven 1920 1080 empty_cache three_samples)).calls in
    (count_if (imports 5) calls ≡ count_if (closes 5) calls)
    × (count_if (adds 5) calls ≡ count_if (removes 5) calls)
release-create_frames_example = release-create_frames seven 1920 1080 three_samples 5 (omega arith)

-- The plan of the fourth frame, 10 ms before its target, with a lead of 12 ms: it moves to the fifth.
late_plan :
    plan 16666666 12000000 90000000 83333334 1
    ≡ record { epoch = 100000000; target = 116666666; wake = 104666666 }
unfolding plan shift_plan
late_plan = refl
