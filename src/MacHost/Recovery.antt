-- ===== src/MacHost/Recovery.antt =====
-- apps/host/macos/media/video-recovery.h, with the calls that apps/host/macos/media/native-video.m
-- makes of it: whether a key frame is needed, and whether one is being encoded already.
pub mod Traces
use teraguchi.Common.{Bool, true, false, not, ◌&&◌, ◌||◌, List, [], ◌∷◌, if◌then◌else◌}

pub record VideoRecovery : Type 0 where
  pub requested : Bool
  pub encoding : Bool

unfoldable pub begin : VideoRecovery → VideoRecovery × Bool
begin state =
    if not state.requested || state.encoding
    then (state, false)
    else (record state { encoding = true }, true)

unfoldable pub sent : VideoRecovery → Bool → Bool → Bool → VideoRecovery
sent state key accepted evicted =
    if key && accepted
    then record state { requested = false }
    else if not accepted || evicted
    then record state { requested = true }
    else state

-- What the capture queue does with the state. A delta frame is not sent while a key frame is needed.
pub data Event : Type 0 where
  request_key_frame : Event
  begin_key_frame : Event
  complete_key_frame : Event
  send_sample : Bool → Bool → Bool → Event

-- The state when the sender is made.
abbrev pub initial : VideoRecovery
initial = record { requested = true; encoding = false }

unfoldable pub step : VideoRecovery → Event → VideoRecovery
unfolding begin sent
step state request_key_frame = record state { requested = true }
step state begin_key_frame = (begin state).0
step state complete_key_frame = record state { encoding = false }
step state (send_sample key accepted evicted) =
    if state.requested && not key then state else sent state key accepted evicted

unfoldable pub run : VideoRecovery → List Event → VideoRecovery
unfolding step
run state [] = state
run state (e ∷ es) = run (step state e) es
