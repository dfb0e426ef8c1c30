-- ===== src/Video/Options/Tests.antt =====
-- The options and the percentiles of the video pipeline probe at fixed inputs.
use teraguchi.Common.{Option, none, if◌then◌else◌, some, ℕ, ◌≡◌, refl, true, List, [], ◌∷◌, arith}
use teraguchi.Video.Gates.{feedback_is_early, recovery_is_outside, reference_invalidation_requested}
use Prim.Native.String.{String}
use teraguchi.Video.Options.{
  is, Number, number, Options, defaults, take_flag, take_value, take_number, take_name, take_rate,
  take_intra_refresh_count, check, check_recovery, returns, runs, parse,
}
use teraguchi.Video.Options.Accepted.{IsAccepted, parse-IsAccepted}
use teraguchi.Video.Percentile.{percentile, Nearest, percentile-Nearest}

percentile_95 : percentile (9 ∷ 2 ∷ 7 ∷ 2 ∷ []) 95 ≡ some 9
unfolding percentile
percentile_95 = refl

percentile_50 : percentile (9 ∷ 2 ∷ 7 ∷ 3 ∷ []) 50 ≡ some 3
unfolding percentile
percentile_50 = refl

percentile-Nearest_example : Nearest (9 ∷ 2 ∷ 7 ∷ 3 ∷ []) 50
percentile-Nearest_example =
    percentile-Nearest 9 (2 ∷ 7 ∷ 3 ∷ []) 50 (omega arith) (omega arith) (omega arith)

abbrev read_number : String → Option ℕ
read_number s = if is s "900" then some 900 else if is s "12" then some 12 else none

abbrev read_int : String → Option Number
read_int s = if is s "7" then some (number 7) else none

abbrev arguments : List String
arguments =
    "--frames" ∷ "900" ∷ "--unpaced" ∷ "--simulate-loss-frame" ∷ "12" ∷ "--intra-refresh-count"
    ∷ "7" ∷ "--queue-depth" ∷ "1" ∷ []

abbrev chosen : Options
chosen = record defaults {
  frame_count = 900;
  unpaced = true;
  simulate_loss_frame = 12;
  reference_frames = 4;
  intra_refresh_period = number 60;
  intra_refresh_count = number 7;
}

parse-arguments : parse read_number read_int defaults arguments ≡ runs chosen
unfolding parse take_flag take_value take_number take_name take_rate take_intra_refresh_count check
    check_recovery recovery_is_outside feedback_is_early reference_invalidation_requested
parse-arguments = refl

-- The lost frame must be one of the run.
parse_outside :
    parse read_number read_int defaults ("--frames" ∷ "12" ∷ "--simulate-loss-frame" ∷ "900" ∷ [])
    ≡ returns 2
unfolding parse take_flag take_value take_number take_name take_rate take_intra_refresh_count check
    check_recovery recovery_is_outside feedback_is_early reference_invalidation_requested
parse_outside = refl

parse-IsAccepted_example : IsAccepted chosen
parse-IsAccepted_example = parse-IsAccepted read_number read_int arguments chosen parse-arguments
