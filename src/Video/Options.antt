-- ===== src/Video/Options.antt =====
-- The options of the probe: the loop over the arguments, and the checks behind it. `stoul` and `stoi` are the
-- standard library's, `none` where they throw; what a negative number is does not matter to the code.
pub mod Kept
pub mod Accepted
mod Tests
use Prim.Native.String.{String, compare}
use text.Mathlib.Text.{is_eq}
use teraguchi.Common.{
  ℕ, zero, suc, ◌+◌, ◌-◌, ◌*◌, ◌/◌, ◌%◌, ◌^◌, Bool, true, false, not, ◌&&◌, ◌||◌, List, [], ◌∷◌,
  Option, none, some, ltb, leb, ◌==◌, ◌!=◌, if◌then◌else◌,
}
use teraguchi.Video.Encoder.{Settings}
use teraguchi.Video.Gates.{reference_invalidation_requested, recovery_is_outside, feedback_is_early}

abbrev pub is : String → String → Bool
is s t = is_eq (compare s t)

-- An `int` that is set.
pub data Number : Type 0 where
  negative : Number
  number : ℕ → Number

pub record Options : Type 0 where
  pub frame_count : ℕ
  pub frame_rate : ℕ
  pub queue_depth : ℕ
  pub simulate_loss_frame : ℕ
  pub invalidate_delay_frames : ℕ
  pub force_idr_frame : ℕ
  pub reference_frames : ℕ
  pub reference_invalidation_enabled : Bool
  pub intra_refresh_period : Number
  pub intra_refresh_count : Number
  pub single_slice_intra_refresh : Bool
  pub require_changing_source : Bool
  pub require_robustness : Bool
  pub unpaced : Bool
  pub is_hevc : Bool
  pub bitrate : ℕ
  pub vbv_bits : ℕ
  pub output_name : String
  pub bitstream_path : String
  pub reference_bitstream_path : String
  pub split_mode : String
  pub tuning : String

abbrev pub defaults : Options
defaults = record {
  frame_count = 600;
  frame_rate = 60;
  queue_depth = 1;
  simulate_loss_frame = 0;
  invalidate_delay_frames = 2;
  force_idr_frame = 0;
  reference_frames = 0;
  reference_invalidation_enabled = true;
  intra_refresh_period = negative;
  intra_refresh_count = negative;
  single_slice_intra_refresh = true;
  require_changing_source = false;
  require_robustness = false;
  unpaced = false;
  is_hevc = true;
  bitrate = 100000000;
  vbv_bits = 2000000;
  output_name = "DP-2";
  bitstream_path = "plank-identity-gbr.hevc";
  reference_bitstream_path = "";
  split_mode = "auto";
  tuning = "low-latency";
}

abbrev pub settings_of : Options → Settings
settings_of o = record {
  frame_count = o.frame_count;
  simulate_loss_frame = o.simulate_loss_frame;
  invalidate_delay_frames = o.invalidate_delay_frames;
  reference_invalidation_enabled = o.reference_invalidation_enabled;
  force_idr_frame = o.force_idr_frame;
  has_reference_bitstream = not (is o.reference_bitstream_path "");
}

unfoldable pub take_flag : Options → String → Option Options
take_flag o argument =
    if is argument "--require-changing"
    then some (record o { require_changing_source = true })
    else if is argument "--require-robustness"
    then some (record o { require_robustness = true })
    else if is argument "--unpaced"
    then some (record o { unpaced = true })
    else if is argument "--no-reference-invalidation"
    then some (record o { reference_invalidation_enabled = false })
    else none

unfoldable pub take_rate : Options → String → Option ℕ → Option Options
take_rate o argument none = none
take_rate o argument (some value) =
    if value == 0 || ltb (if is argument "--bitrate-mbps" then 4000 else 1000000) value
    then none
    else if is argument "--bitrate-mbps"
    then some (record o { bitrate = value * 1000000 % 2 ^ 32 })
    else some (record o { vbv_bits = value * 1000 % 2 ^ 32 })

unfoldable pub take_intra_refresh_count : Options → Option Number → Option Options
take_intra_refresh_count o none = none
take_intra_refresh_count o (some negative) = none
take_intra_refresh_count o (some (number value)) =
    if ltb 36000 value then none else some (record o { intra_refresh_count = number value })

unfoldable pub take_intra_refresh_period : Options → Option Number → Option Options
take_intra_refresh_period o none = none
take_intra_refresh_period o (some negative) = none
take_intra_refresh_period o (some (number value)) =
    if value == 0 || ltb 36000 value
    then none
    else some (record o { intra_refresh_period = number value })

abbrev pub is_numeric : String → Bool
is_numeric argument =
    is argument "--frames"
    || (is argument "--fps"
        || (is argument "--simulate-loss-frame"
            || (is argument "--invalidate-delay-frames"
                || (is argument "--force-idr-frame" || is argument "--reference-frames"))))

unfoldable pub take_number : Options → String → Option ℕ → Option Options
take_number o argument none = none
take_number o argument (some value) =
    if not (is argument "--reference-frames") && value == 0 || ltb 36000 value
    then none
    else if is argument "--frames"
    then some (record o { frame_count = value })
    else if is argument "--fps"
    then some (record o { frame_rate = value })
    else if is argument "--simulate-loss-frame"
    then some (record o { simulate_loss_frame = value })
    else if is argument "--invalidate-delay-frames"
    then some (record o { invalidate_delay_frames = value })
    else if is argument "--force-idr-frame"
    then some (record o { force_idr_frame = value })
    else some (record o { reference_frames = value })

-- The options that are one of a set of names, and the paths.
unfoldable pub take_name : Options → String → String → Option Options
take_name o argument value =
    if is argument "--codec"
    then (if is value "hevc-10bit-444"
        then some (record o { is_hevc = true })
        else if is value "h264-8bit-444"
        then some (record o { is_hevc = false })
        else none)
    else if is argument "--queue-depth"
    then (if is value "0"
        then some (record o { queue_depth = 0 })
        else if is value "1"
        then some (record o { queue_depth = 1 })
        else none)
    else if is argument "--single-slice-intra-refresh"
    then (if is value "0" || is value "1"
        then some (record o { single_slice_intra_refresh = is value "1" })
        else none)
    else if is argument "--output"
    then some (record o { output_name = value })
    else if is argument "--bitstream"
    then some (record o { bitstream_path = value })
    else if is argument "--reference-bitstream"
    then some (record o { reference_bitstream_path = value })
    else if is argument "--split"
    then (if is value "auto" || (is value "forced" || is value "disabled")
        then some (record o { split_mode = value })
        else none)
    else if is argument "--tuning"
    then (if is value "low-latency" || is value "ultra-low-latency"
        then some (record o { tuning = value })
        else none)
    else none

-- The period and the count that are not given.
abbrev pub period_of : Options → Number → ℕ
period_of o negative = o.frame_rate
period_of o (number period) = period

abbrev pub count_of : ℕ → Number → ℕ
count_of period negative = period / 2
count_of period (number count) = count

pub data Parsed : Type 0 where
  returns : ℕ → Parsed
  self_tests : Parsed
  runs : Options → Parsed

unfoldable pub check_recovery : Options → Parsed
check_recovery o =
    if recovery_is_outside (settings_of o) || ltb 8 o.reference_frames
    then returns 2
    else if feedback_is_early (settings_of o) o.queue_depth
    then returns 2
    else if not (is o.reference_bitstream_path "") && is o.reference_bitstream_path o.bitstream_path
    then returns 2
    else runs (record o {
      reference_frames =
          (if reference_invalidation_requested (settings_of o) && o.reference_frames == 0
            then 4
            else o.reference_frames);
    })

unfoldable pub check : Options → Parsed
check o =
    let period = period_of o o.intra_refresh_period in
    let count = count_of period o.intra_refresh_count in
    if ltb 240 o.frame_rate
    then returns 2
    else if ltb 0 count && leb period count
    then returns 2
    else check_recovery
        (record o { intra_refresh_period = number period; intra_refresh_count = number count })

module _ (stoul : String → Option ℕ) (stoi : String → Option Number) where
  unfoldable pub take_value : Options → String → String → Option Options
  take_value o argument value =
      if is argument "--bitrate-mbps" || is argument "--vbv-kbits"
      then take_rate o argument (stoul value)
      else if is argument "--intra-refresh-count"
      then take_intra_refresh_count o (stoi value)
      else if is argument "--intra-refresh-period"
      then take_intra_refresh_period o (stoi value)
      else if is_numeric argument
      then take_number o argument (stoul value)
      else take_name o argument value

  -- `argv` behind the program's name.
  unfoldable pub parse : Options → List String → Parsed
  parse o [] = check o
  parse o (argument ∷ []) =
      if is argument "--self-test"
      then self_tests
      else elim (take_flag o argument) [ some flagged ↦ check flagged | none ↦ returns 2 ]
  parse o (argument ∷ value ∷ rest) =
      if is argument "--self-test" then self_tests else elim (take_flag o argument) [
        | some flagged ↦ parse flagged (value ∷ rest)
        | none ↦ elim (take_value o argument value) [
          | some valued ↦ parse valued rest
          | none ↦ returns 2
        ]
      ]
