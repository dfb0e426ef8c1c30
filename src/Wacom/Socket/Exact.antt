-- ===== src/Wacom/Socket/Exact.antt =====
-- Neither loop loses, repeats or reorders a byte, however the kernel cuts the transfer.
use teraguchi.Common.{
  ℕ, zero, suc, ◌-◌, ◌≤◌, ◌≡◌, refl, sym, ap, ap₂, ◌∙◌, min, true, List, [], ◌∷◌, ◌++◌, some, take,
  drop, length, append-nil, append_assoc, arith, take-append-drop, length-take, length-append,
  length-drop, All, take-append, drop-append,
}
use teraguchi.Wacom.Socket.{SendStep, write_all, ReceiveStep, read_all}

-- The bytes on the wire are a beginning of the data, and all of it where the call returns true.
pub write_all_exact :
    (schedule : List SendStep) (bytes : List ℕ)
    → (rest : List ℕ) × ((write_all schedule bytes).wire ++ rest ≡ bytes)
      × (((write_all schedule bytes).status ≡ some true) → rest ≡ [])
unfolding write_all
write_all_exact schedule [] = ([], refl, λ h. refl)
write_all_exact [] (b ∷ bytes) = (b ∷ bytes, refl, λ h. cc)
write_all_exact (SendStep.interrupted ∷ schedule) (b ∷ bytes) = write_all_exact schedule (b ∷ bytes)
write_all_exact (SendStep.failed ∷ schedule) (b ∷ bytes) = (b ∷ bytes, refl, λ h. cc)
write_all_exact (SendStep.takes zero ∷ schedule) (b ∷ bytes) = (b ∷ bytes, refl, λ h. cc)
write_all_exact (SendStep.takes (suc n) ∷ schedule) (b ∷ bytes) =
    let (rest, e, h) = write_all_exact schedule (drop n bytes) in
    (
      rest,
      ap (◌∷◌ b) (
          append_assoc (take n bytes) (write_all schedule (drop n bytes)).wire rest
          ∙ rw e (take-append-drop n bytes)),
      h,
    )

-- What was read and what is left make up the stream, and where the call returns true just `size`
-- bytes were read.
pub read_all_exact :
    (schedule : List ReceiveStep) (stream : List ℕ) (size : ℕ)
    → ((read_all schedule stream size).bytes ++ (read_all schedule stream size).stream ≡ stream)
      × (((read_all schedule stream size).status ≡ some true)
          → length (read_all schedule stream size).bytes ≡ size)
unfolding read_all
read_all_exact schedule stream zero = (refl, λ h. refl)
read_all_exact [] stream (suc size) = (refl, λ h. cc)
read_all_exact (ReceiveStep.interrupted ∷ schedule) stream (suc size) =
    read_all_exact schedule stream (suc size)
read_all_exact (ReceiveStep.failed ∷ schedule) stream (suc size) = (refl, λ h. cc)
read_all_exact (ReceiveStep.gives zero ∷ schedule) stream (suc size) = (refl, λ h. cc)
read_all_exact (ReceiveStep.gives (suc n) ∷ schedule) [] (suc size) = (refl, λ h. cc)
read_all_exact (ReceiveStep.gives (suc n) ∷ schedule) (b ∷ stream) (suc size) =
    let k = min n size in
    let chunk = take k stream in
    let rest = read_all schedule (drop k stream) (size - length chunk) in
    let (e, h) = read_all_exact schedule (drop k stream) (size - length chunk) in
    (
      ap (◌∷◌ b) (append_assoc chunk rest.bytes rest.stream ∙ rw e (take-append-drop k stream)),
      λ done. omega (arith, length-append chunk rest.bytes, h done, length-take k stream),
    )

-- A call of `write_all` that returns true has handed over the data, byte for byte.
pub write_all_sends :
    (schedule : List SendStep) (bytes : List ℕ)
    → (write_all schedule bytes).status ≡ some true
    → (write_all schedule bytes).wire ≡ bytes
write_all_sends schedule bytes done =
    let (rest, e, h) = write_all_exact schedule bytes in
    sym (append-nil _) ∙ ap (◌++◌ (write_all schedule bytes).wire) (sym (h done)) ∙ e

-- A call of `read_all` that returns true has read the next `size` bytes of the stream, and no others.
pub read_all_reads :
    (schedule : List ReceiveStep) (stream : List ℕ) (size : ℕ)
    → (read_all schedule stream size).status ≡ some true
    → ((read_all schedule stream size).bytes ≡ take size stream)
      × ((read_all schedule stream size).stream ≡ drop size stream)
read_all_reads schedule stream size done =
    let r = read_all schedule stream size in
    let (e, h) = read_all_exact schedule stream size in
    let n : length r.bytes ≡ size = h done in
    (
      sym (take-append r.bytes r.stream) ∙ ap₂ take n e,
      sym (drop-append r.bytes r.stream) ∙ ap₂ drop n e,
    )

-- No call fails, and there is no end of the stream.
abbrev pub IsProductive : ReceiveStep → Type 0
IsProductive (ReceiveStep.gives zero) = ⊥
IsProductive (ReceiveStep.gives (suc n)) = Unit {0}
IsProductive ReceiveStep.interrupted = Unit {0}
IsProductive ReceiveStep.failed = ⊥

abbrev pub productive_calls : List ReceiveStep → ℕ
productive_calls [] = 0
productive_calls (ReceiveStep.gives n ∷ schedule) = suc (productive_calls schedule)
productive_calls (ReceiveStep.interrupted ∷ schedule) = productive_calls schedule
productive_calls (ReceiveStep.failed ∷ schedule) = productive_calls schedule

-- Where the stream has the bytes and every call that is not interrupted gives one at least, at most
-- `size` such calls are made and `read_all` returns true.
pub read_all_returns :
    (schedule : List ReceiveStep) (stream : List ℕ) (size : ℕ)
    → All IsProductive schedule
    → size ≤ length stream
    → size ≤ productive_calls schedule
    → (read_all schedule stream size).status ≡ some true
unfolding read_all
read_all_returns schedule stream zero p hs hc = refl
read_all_returns [] stream (suc size) p hs hc = absurd (omega arith)
read_all_returns (ReceiveStep.interrupted ∷ schedule) stream (suc size) p hs hc =
    read_all_returns schedule stream (suc size) p.1 hs hc
read_all_returns (ReceiveStep.failed ∷ schedule) stream (suc size) p hs hc = absurd p.0
read_all_returns (ReceiveStep.gives zero ∷ schedule) stream (suc size) p hs hc = absurd p.0
read_all_returns (ReceiveStep.gives (suc n) ∷ schedule) [] (suc size) p hs hc = absurd (omega arith)
read_all_returns (ReceiveStep.gives (suc n) ∷ schedule) (b ∷ stream) (suc size) p hs hc =
    let k = min n size in
    let chunk = length-take k stream in
    read_all_returns schedule (drop k stream) (size - length (take k stream)) p.1
      (omega (arith, chunk, length-drop k stream)) (omega (arith, chunk))
