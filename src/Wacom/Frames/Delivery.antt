-- ===== src/Wacom/Frames/Delivery.antt =====
-- When a frame is sent and received, and when it is not.
use teraguchi.Common.{
  ℕ, ◌+◌, ◌%◌, ◌^◌, ◌≤◌, ◌<◌, ◌≡◌, ◌≢◌, refl, ap, ◌∙◌, ◌⊎◌, inl, inr, Bool, true, false, List, ◌++◌,
  Option, some, none, length, arith, append_assoc, length-append,
}
use teraguchi.Wacom.Socket.{SendStep, Written, write_all, ReceiveStep, read_all}
use teraguchi.Wacom.Socket.Exact.{read_all_reads, read_all_returns}
use teraguchi.Wacom.Socket.Returns.{SendsAll, BringsAll, write_all_returns, read_all_leaves}
use teraguchi.Wacom.Frames.{
  magic, version, Kernel, maximum_payload, WireHeader, Frame, header_bytes, header_of, then_write,
  send_frame, Received, receive_payload, receive_frame,
}
use teraguchi.Wacom.Frames.Exchange.{
  header, InRange, header_of-header_bytes, header_take, header_drop, send_frame_wire, received-sent,
}

length-header_bytes : (h : WireHeader) → length (header_bytes h) ≡ 20
unfolding header_bytes
length-header_bytes h = refl

then_write_returns :
    (first : Written) (bytes : List ℕ)
    → first.status ≡ some true
    → SendsAll first.schedule (length bytes + 0)
    → (then_write first bytes).status ≡ some true
unfolding then_write
then_write_returns first bytes done h = rw done (write_all_returns first.schedule bytes 0 h).0

pub send_frame_returns :
    (kernel : Kernel) (sends : List SendStep) (f : Frame)
    → length f.payload ≤ maximum_payload kernel
    → SendsAll sends (20 + length f.payload)
    → (send_frame kernel sends f.type f.interface f.transaction f.payload).status ≡ some true
unfolding send_frame
send_frame_returns kernel sends f fits h =
    let front =
      header_bytes (header f.type f.interface f.transaction (length f.payload % 2 ^ 32)) in
    let (done, left) = write_all_returns sends front (length f.payload + 0) (
      h.0,
      omega (
        arith,
        h.1,
        length-header_bytes (header f.type f.interface f.transaction (length f.payload % 2 ^ 32)),
      ),
    ) in
    ground (arith, done, then_write_returns (write_all sends front) f.payload done left)

receive_payload_returns :
    (before : Frame) (h : WireHeader) (schedule : List ReceiveStep) (stream : List ℕ)
    → h.size ≤ length stream
    → BringsAll schedule h.size
    → (receive_payload before h schedule stream).status ≡ some true
unfolding receive_payload
receive_payload_returns before h schedule stream long b =
    read_all_returns schedule stream h.size b.0 long b.1

receive_frame_accepts :
    (kernel : Kernel) (schedule : List ReceiveStep) (stream : List ℕ) (before : Frame)
    (h : WireHeader)
    → (read_all schedule stream 20).status ≡ some true
    → header_of (read_all schedule stream 20).bytes ≡ h
    → h.magic ≡ magic
    → h.version ≡ version
    → h.size ≤ maximum_payload kernel
    → receive_frame kernel schedule stream before
      ≡ receive_payload before h
          (read_all schedule stream 20).schedule
          (read_all schedule stream 20).stream
unfolding receive_frame
receive_frame_accepts kernel schedule stream before h done same m v fits =
    ground (arith, done, same, m, v, fits)

pub receive_frame_returns :
    (kernel : Kernel) (receives : List ReceiveStep) (f before : Frame) (more : List ℕ)
    → InRange f
    → length f.payload ≤ maximum_payload kernel
    → maximum_payload kernel < 2 ^ 32
    → BringsAll receives (20 + length f.payload)
    → (receive_frame kernel receives
        (header_bytes (header f.type f.interface f.transaction (length f.payload))
          ++ (f.payload ++ more))
        before).status
      ≡ some true
receive_frame_returns kernel receives f before more r fits narrow b =
    let h = header f.type f.interface f.transaction (length f.payload) in
    let stream = header_bytes h ++ (f.payload ++ more) in
    let long : 20 ≤ length stream =
      omega (arith, length-append (header_bytes h) (f.payload ++ more), length-header_bytes h) in
    let done = read_all_returns receives stream 20 b.0 long (omega (arith, b.1)) in
    let (read, left) = read_all_reads receives stream 20 done in
    let same : header_of (read_all receives stream 20).bytes ≡ h =
      ap header_of (read ∙ header_take h (f.payload ++ more))
      ∙ header_of-header_bytes f (length f.payload) r (omega (arith, fits, narrow)) in
    let rest : (read_all receives stream 20).stream ≡ f.payload ++ more =
      left ∙ header_drop h (f.payload ++ more) in
    ap (λ (t : Received). t.status)
      (receive_frame_accepts kernel receives stream before h done same refl refl fits)
    ∙ receive_payload_returns before h (read_all receives stream 20).schedule
        (read_all receives stream 20).stream
        (omega (arith, ap length rest, length-append f.payload more))
        (read_all_leaves receives stream 20 (length f.payload) long b)

pub sent_frame_returns :
    (kernel : Kernel) (sends : List SendStep) (receives : List ReceiveStep) (f before : Frame)
    (more : List ℕ)
    → InRange f
    → maximum_payload kernel < 2 ^ 32
    → length f.payload ≤ maximum_payload kernel
    → (send_frame kernel sends f.type f.interface f.transaction f.payload).status ≡ some true
    → BringsAll receives (20 + length f.payload)
    → (receive_frame kernel receives
        ((send_frame kernel sends f.type f.interface f.transaction f.payload).wire ++ more)
        before).status
      ≡ some true
sent_frame_returns kernel sends receives f before more r narrow fits done b =
    let (wire, _) = send_frame_wire kernel sends f done in
    let small : length f.payload % 2 ^ 32 ≡ length f.payload = omega (arith, fits, narrow) in
    let front = header_bytes (header f.type f.interface f.transaction (length f.payload)) in
    let stream_eq : (send_frame kernel sends f.type f.interface f.transaction f.payload).wire
          ++ more
        ≡ front ++ (f.payload ++ more) =
      rw (wire, small) (append_assoc front f.payload more) in
    rw stream_eq (receive_frame_returns kernel receives f before more r fits narrow b)

-- A frame that was sent and received, with the bytes behind it.
abbrev pub Arrives : Frame → List ℕ → Received → Type 0
Arrives f more r = (r.status ≡ some true) × (r.frame ≡ f) × (r.stream ≡ more)

is_true : (s : Option Bool) → (s ≡ some true) ⊎ (s ≢ some true)
is_true none = inr (λ e. cc e)
is_true (some true) = inl refl
is_true (some false) = inr (λ e. ground (arith, e))

-- A frame whose payload is not longer than the maximum is sent whenever no call of `send` fails and as many
-- of them as there are bytes are not interrupted. A frame that is sent is received whenever this
-- holds of the calls of `recv`; and whenever `receive_frame` returns true it has found just this frame at the
-- front of the stream, whatever the frame variable held before and however the kernel cut the bytes,
-- and the bytes behind the frame stay in the stream.
pub receive_frame-send_frame :
    (kernel : Kernel) (sends : List SendStep) (receives : List ReceiveStep) (f before : Frame)
    (more : List ℕ)
    → InRange f
    → maximum_payload kernel < 2 ^ 32
    → length f.payload ≤ maximum_payload kernel
    → let sent = send_frame kernel sends f.type f.interface f.transaction f.payload in
      let received = receive_frame kernel receives (sent.wire ++ more) before in
      ((sent.status ≢ some true) × (¬ (SendsAll sends (20 + length f.payload))))
      ⊎ ((sent.status ≡ some true)
          × (((received.status ≢ some true) × (¬ (BringsAll receives (20 + length f.payload))))
              ⊎ Arrives f more received))
receive_frame-send_frame kernel sends receives f before more r narrow fits =
    let sent = send_frame kernel sends f.type f.interface f.transaction f.payload in
    let received = receive_frame kernel receives (sent.wire ++ more) before in
    elim (is_true sent.status) [
      | inr lost ↦ inl (lost, λ h. lost (send_frame_returns kernel sends f fits h))
      | inl done ↦ inr (
        done,
        elim (is_true received.status) [
          | inl got ↦
              let (same, rest) =
                received-sent kernel sends receives f before more r narrow done got in
              inr (got, same, rest)
          | inr lost ↦ inl (
            lost,
            λ b. lost (sent_frame_returns kernel sends receives f before more r narrow fits done b),
          )
        ],
      )
    ]
