-- ===== src/MacHost/FrameTiming/Tests.antt =====
-- The trace at concrete times.
use teraguchi.Common.{ℕ, ◌≡◌, refl, List, [], ◌∷◌, some}
use teraguchi.MacHost.FrameTiming.{Trace, append, append_unless, append_all}

abbrev new_trace : Trace
new_trace = record { origin = 1000; captures = [] }

abbrev capture_times : List ℕ
capture_times = 1000 ∷ (999 ∷ (2000 ∷ (120000001000 ∷ [])))

-- A time before the origin and one after two minutes are refused.
captures_example :
    append_all (some new_trace) capture_times
    ≡ some (record { origin = 1000; captures = 1000 ∷ (2000 ∷ []) })
unfolding append_all append append_unless
captures_example = refl
