-- ===== src/Video/Gates.antt =====
-- The checks of the options in front of the run, and the gates that were asked for behind it.
use teraguchi.Common.{ℕ, ◌+◌, Bool, true, false, not, ◌&&◌, ◌||◌, ltb, ◌==◌, ◌!=◌, List, arith, ◌≡◌}
use teraguchi.Video.Encoder.{Settings, Encoding}
use teraguchi.Video.Encoder.Sequential.{Complete}

unfoldable pub reference_invalidation_requested : Settings → Bool
reference_invalidation_requested s = s.simulate_loss_frame != 0 && s.reference_invalidation_enabled

unfoldable pub recovery_is_outside : Settings → Bool
recovery_is_outside s =
    ltb s.frame_count s.simulate_loss_frame
    || (ltb s.frame_count s.force_idr_frame
        || (reference_invalidation_requested s
            && ltb s.frame_count (s.simulate_loss_frame + s.invalidate_delay_frames)))

unfoldable pub feedback_is_early : Settings → ℕ → Bool
feedback_is_early s queue_depth =
    reference_invalidation_requested s && (queue_depth == 1 && ltb s.invalidate_delay_frames 2)

unfoldable pub bitstream_loss_passed : Settings → Encoding → Bool
bitstream_loss_passed s e = s.simulate_loss_frame == 0 || e.bitstream_frames_dropped == 1

unfoldable pub reference_invalidation_passed : Settings → Encoding → Bool
reference_invalidation_passed s e =
    not (reference_invalidation_requested s) || e.reference_invalidation_called

unfoldable pub forced_idr_passed : Settings → Encoding → Bool
forced_idr_passed s e = s.force_idr_frame == 0 || e.forced_idr_submitted

unfoldable pub requested_gates_passed : Settings → Encoding → Bool
requested_gates_passed s e =
    bitstream_loss_passed s e && (reference_invalidation_passed s e && forced_idr_passed s e)

module _ (picture_bytes : ℕ → List ℕ) (settings : Settings) where
  pub Complete-requested_gates_passed :
      (e : Encoding)
      → recovery_is_outside settings ≡ false
      → Complete picture_bytes settings e settings.frame_count
      → requested_gates_passed settings e ≡ true
  unfolding reference_invalidation_requested recovery_is_outside bitstream_loss_passed
      reference_invalidation_passed forced_idr_passed requested_gates_passed
  Complete-requested_gates_passed e within c =
      ground (arith, within, c.written.dropped, c.flagged.invalidated, c.flagged.forced)
