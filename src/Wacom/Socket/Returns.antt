-- ===== src/Wacom/Socket/Returns.antt =====
-- When the loops return true: schedules that go on long enough.
use teraguchi.Common.{
  ℕ, zero, suc, ◌+◌, ◌-◌, ◌≤◌, ◌≡◌, refl, min, true, List, [], ◌∷◌, some, take, drop, length, arith,
  length-take, length-drop, All,
}
use teraguchi.Wacom.Socket.{SendStep, write_all, ReceiveStep, read_all}
use teraguchi.Wacom.Socket.Exact.{IsProductive, productive_calls}

-- No call fails, and each takes a byte at least.
abbrev pub IsTaking : SendStep → Type 0
IsTaking (SendStep.takes zero) = ⊥
IsTaking (SendStep.takes (suc n)) = Unit {0}
IsTaking SendStep.interrupted = Unit {0}
IsTaking SendStep.failed = ⊥

abbrev pub taking_calls : List SendStep → ℕ
taking_calls [] = 0
taking_calls (SendStep.takes n ∷ schedule) = suc (taking_calls schedule)
taking_calls (SendStep.interrupted ∷ schedule) = taking_calls schedule
taking_calls (SendStep.failed ∷ schedule) = taking_calls schedule

-- The schedules that are sure to hand over, or to bring, `size` bytes.
abbrev pub SendsAll : List SendStep → ℕ → Type 0
SendsAll schedule size = All IsTaking schedule × (size ≤ taking_calls schedule)

abbrev pub BringsAll : List ReceiveStep → ℕ → Type 0
BringsAll schedule size = All IsProductive schedule × (size ≤ productive_calls schedule)

-- `write_all` returns true, and the rest of the schedule is enough for `more` bytes.
pub write_all_returns :
    (schedule : List SendStep) (bytes : List ℕ) (more : ℕ)
    → SendsAll schedule (length bytes + more)
    → ((write_all schedule bytes).status ≡ some true)
      × SendsAll (write_all schedule bytes).schedule more
unfolding write_all
write_all_returns schedule [] more h = (refl, (h.0, omega (arith, h.1)))
write_all_returns [] (b ∷ bytes) more h = absurd (omega (arith, h.1))
write_all_returns (SendStep.interrupted ∷ schedule) (b ∷ bytes) more h =
    write_all_returns schedule (b ∷ bytes) more (h.0.1, h.1)
write_all_returns (SendStep.failed ∷ schedule) (b ∷ bytes) more h = absurd h.0.0
write_all_returns (SendStep.takes zero ∷ schedule) (b ∷ bytes) more h = absurd h.0.0
write_all_returns (SendStep.takes (suc n) ∷ schedule) (b ∷ bytes) more h =
    write_all_returns schedule (drop n bytes) more (h.0.1, omega (arith, h.1, length-drop n bytes))

pub read_all_leaves :
    (schedule : List ReceiveStep) (stream : List ℕ) (size more : ℕ)
    → size ≤ length stream
    → BringsAll schedule (size + more)
    → BringsAll (read_all schedule stream size).schedule more
unfolding read_all
read_all_leaves schedule stream zero more hs h = (h.0, omega (arith, h.1))
read_all_leaves [] stream (suc size) more hs h = absurd (omega (arith, h.1))
read_all_leaves (ReceiveStep.interrupted ∷ schedule) stream (suc size) more hs h =
    read_all_leaves schedule stream (suc size) more hs (h.0.1, h.1)
read_all_leaves (ReceiveStep.failed ∷ schedule) stream (suc size) more hs h = absurd h.0.0
read_all_leaves (ReceiveStep.gives zero ∷ schedule) stream (suc size) more hs h = absurd h.0.0
read_all_leaves (ReceiveStep.gives (suc n) ∷ schedule) [] (suc size) more hs h =
    absurd (omega arith)
read_all_leaves (ReceiveStep.gives (suc n) ∷ schedule) (b ∷ stream) (suc size) more hs h =
    let k = min n size in
    let chunk = length-take k stream in
    read_all_leaves schedule (drop k stream) (size - length (take k stream)) more
      (omega (arith, chunk, length-drop k stream)) (h.0.1, omega (arith, h.1, chunk))
