-- ===== src/MacHost/Recovery/Traces.antt =====
-- Key frame recovery over whole histories.
use teraguchi.Common.{◌≡◌, ◌≢◌, refl, Bool, true, false, List, [], ◌∷◌, arith, All}
use teraguchi.MacHost.Recovery.{
  VideoRecovery, Event, request_key_frame, begin_key_frame, complete_key_frame, send_sample, begin,
  step, run,
}

-- The event is not an accepted key frame.
abbrev pub NoKey : Event → Type 0
NoKey e = (evicted : Bool) → e ≢ send_sample true true evicted

step-requested :
    (s : VideoRecovery) (e : Event) → NoKey e → s.requested ≡ true → (step s e).requested ≡ true
unfolding step
step-requested s request_key_frame h r = refl
step-requested s begin_key_frame h r = ground arith
step-requested s complete_key_frame h r = r
step-requested s (send_sample true true evicted) h r = absurd (h evicted refl)
step-requested s (send_sample true false evicted) h r = ground arith
step-requested s (send_sample false accepted evicted) h r = ground arith

-- A key frame that is needed stays needed until one is accepted, whatever else happens.
pub run-requested :
    (s : VideoRecovery) (es : List Event)
    → All NoKey es
    → s.requested ≡ true
    → (run s es).requested ≡ true
unfolding run
run-requested s [] h r = r
run-requested s (e ∷ es) h r = run-requested (step s e) es h.1 (step-requested s e h.0 r)

step-encoding :
    (s : VideoRecovery) (e : Event)
    → e ≢ complete_key_frame
    → s.encoding ≡ true
    → (step s e).encoding ≡ true
unfolding step
step-encoding s request_key_frame h r = r
step-encoding s begin_key_frame h r = ground arith
step-encoding s complete_key_frame h r = absurd (h refl)
step-encoding s (send_sample key accepted evicted) h r = ground arith

run-encoding :
    (s : VideoRecovery) (es : List Event)
    → All (λ e. e ≢ complete_key_frame) es
    → s.encoding ≡ true
    → (run s es).encoding ≡ true
unfolding run
run-encoding s [] h r = r
run-encoding s (e ∷ es) h r = run-encoding (step s e) es h.1 (step-encoding s e h.0 r)

-- After a key frame request was begun, no other is begun before the first completes, and the refused
-- request changes nothing.
pub begin-run :
    (s : VideoRecovery) (es : List Event)
    → (begin s).1 ≡ true
    → All (λ e. e ≢ complete_key_frame) es
    → begin (run (begin s).0 es) ≡ (run (begin s).0 es, false)
unfolding begin
begin-run s es h quiet = ground (arith, run-encoding (begin s).0 es quiet)
