-- ===== src/Wacom/Frames/Exchange.antt =====
-- A frame that is sent is the frame that is received.
use teraguchi.Common.{
  ℕ, ◌%◌, ◌^◌, ◌≤◌, ◌<◌, ◌≡◌, refl, sym, ap, ap₂, ◌∙◌, true, List, [], ◌∷◌, ◌++◌, some, take, drop,
  length, ◌==◌, arith, ==→eq, append-nil, append_assoc, length-take, replicate, take-append,
  drop-append, drop-all,
}
use teraguchi.Wacom.Socket.{SendStep, Written, write_all, ReceiveStep, read_all}
use teraguchi.Wacom.Socket.Exact.{write_all_sends, read_all_reads}
use teraguchi.Wacom.Frames.{
  magic, version, Kernel, maximum_payload, WireHeader, Frame, header_bytes, header_of, then_write,
  send_frame, Received, resize, receive_payload, receive_frame,
}

abbrev pub header : ℕ → ℕ → ℕ → ℕ → WireHeader
header type interface transaction size = record {
  magic = magic;
  version = version;
  type = type;
  interface = interface;
  reserved = 0;
  transaction = transaction;
  size = size;
}

-- The fields of a frame are within their widths, as the types of the code have it.
pub record InRange (f : Frame) : Type 0 where
  pub type : f.type < 2 ^ 16
  pub interface : f.interface < 2 ^ 16
  pub transaction : f.transaction < 2 ^ 32

pub header_of-header_bytes :
    (f : Frame) (size : ℕ)
    → InRange f
    → size < 2 ^ 32
    → header_of (header_bytes (header f.type f.interface f.transaction size))
      ≡ header f.type f.interface f.transaction size
unfolding header_of header_bytes
header_of-header_bytes f size r hs = ground arith

then_write_sends :
    (first : Written) (front bytes : List ℕ)
    → (first.status ≡ some true → first.wire ≡ front)
    → (then_write first bytes).status ≡ some true
    → (then_write first bytes).wire ≡ front ++ bytes
unfolding then_write
then_write_sends first front bytes h done = ground (arith, write_all_sends first.schedule bytes)

empty_of_length : (bytes : List ℕ) → (length bytes == 0) ≡ true → bytes ≡ []
empty_of_length [] h = refl
empty_of_length (b ∷ bytes) h = absurd (omega (arith, ==→eq _ 0 h))

pub send_frame_wire :
    (kernel : Kernel) (schedule : List SendStep) (f : Frame)
    → (send_frame kernel schedule f.type f.interface f.transaction f.payload).status ≡ some true
    → ((send_frame kernel schedule f.type f.interface f.transaction f.payload).wire
        ≡ header_bytes (header f.type f.interface f.transaction (length f.payload % 2 ^ 32))
          ++ f.payload)
      × (length f.payload ≤ maximum_payload kernel)
unfolding send_frame
send_frame_wire kernel schedule f done =
    let head = header_bytes (header f.type f.interface f.transaction (length f.payload % 2 ^ 32)) in
    ground (
      arith,
      write_all_sends schedule head,
      then_write_sends (write_all schedule head) head f.payload (write_all_sends schedule head),
      empty_of_length f.payload,
      append-nil head,
    )

receive_frame_inv :
    (kernel : Kernel) (schedule : List ReceiveStep) (stream : List ℕ) (frame : Frame)
    → (receive_frame kernel schedule stream frame).status ≡ some true
    → let head = read_all schedule stream 20 in
      (head.status ≡ some true)
      × (receive_frame kernel schedule stream frame
          ≡ receive_payload frame (header_of head.bytes) head.schedule head.stream)
unfolding receive_frame
receive_frame_inv kernel schedule stream frame done = ground arith

pub header_take :
    (h : WireHeader) (rest : List ℕ) → take 20 (header_bytes h ++ rest) ≡ header_bytes h
unfolding header_bytes
header_take h rest = refl

pub header_drop : (h : WireHeader) (rest : List ℕ) → drop 20 (header_bytes h ++ rest) ≡ rest
unfolding header_bytes
header_drop h rest = refl

length-resize : (n : ℕ) (bytes : List ℕ) → length (resize n bytes) ≤ n
unfolding resize
length-resize n bytes = omega (arith, length-take n (bytes ++ replicate n 0))

-- A receiver's result is the frame and what follows it.
record Delivers (f : Frame) (more : List ℕ) (r : Received) : Type 0 where
  is_frame : r.frame ≡ f
  is_rest : r.stream ≡ more

receive_payload_lem :
    (before : Frame) (h : WireHeader) (schedule : List ReceiveStep) (payload more : List ℕ)
    → length payload ≡ h.size
    → (receive_payload before h schedule (payload ++ more)).status ≡ some true
    → Delivers
        (record {
          type = h.type;
          interface = h.interface;
          transaction = h.transaction;
          payload = payload;
        })
        more
        (receive_payload before h schedule (payload ++ more))
unfolding receive_payload
receive_payload_lem before h schedule payload more size done =
    let (read, left) = read_all_reads schedule (payload ++ more) h.size done in
    let bytes_eq : (read_all schedule (payload ++ more) h.size).bytes ≡ payload =
      read ∙ ap (λ n. take n (payload ++ more)) (sym size) ∙ take-append payload more in
    let stream_eq : (read_all schedule (payload ++ more) h.size).stream ≡ more =
      left ∙ ap (λ n. drop n (payload ++ more)) (sym size) ∙ drop-append payload more in
    let old = resize h.size before.payload in
    let gone : drop (length payload) old ≡ [] =
      drop-all (length payload) old (omega (arith, length-resize h.size before.payload)) in
    record { is_frame = rw (bytes_eq, gone, append-nil payload); is_rest = stream_eq }

receive_frame_lem :
    (kernel : Kernel) (schedule : List ReceiveStep) (f before : Frame) (more : List ℕ)
    → InRange f
    → length f.payload < 2 ^ 32
    → let stream =
        header_bytes (header f.type f.interface f.transaction (length f.payload))
        ++ (f.payload ++ more) in
      (receive_frame kernel schedule stream before).status ≡ some true
      → Delivers f more (receive_frame kernel schedule stream before)
receive_frame_lem kernel schedule f before more r small done =
    let size = length f.payload in
    let h = header f.type f.interface f.transaction size in
    let stream = header_bytes h ++ (f.payload ++ more) in
    let head = read_all schedule stream 20 in
    let (head_done, eq) = receive_frame_inv kernel schedule stream before done in
    let (read, left) = read_all_reads schedule stream 20 head_done in
    let bytes_eq : head.bytes ≡ header_bytes h = read ∙ header_take h (f.payload ++ more) in
    let stream_eq : head.stream ≡ f.payload ++ more = left ∙ header_drop h (f.payload ++ more) in
    let header_eq : header_of head.bytes ≡ h =
      ap header_of bytes_eq ∙ header_of-header_bytes f size r small in
    let whole : receive_frame kernel schedule stream before
        ≡ receive_payload before h head.schedule (f.payload ++ more) =
      eq ∙ ap₂ (λ g s. receive_payload before g head.schedule s) header_eq stream_eq in
    rw whole (receive_payload_lem before h head.schedule f.payload more refl (rw whole at done))

-- Where both calls return true, the frame that was sent is the one that is received.
pub received-sent :
    (kernel : Kernel) (sends : List SendStep) (receives : List ReceiveStep) (f before : Frame)
    (more : List ℕ)
    → InRange f
    → maximum_payload kernel < 2 ^ 32
    → (send_frame kernel sends f.type f.interface f.transaction f.payload).status ≡ some true
    → (receive_frame kernel receives
        ((send_frame kernel sends f.type f.interface f.transaction f.payload).wire ++ more)
        before).status
      ≡ some true
    → ((receive_frame kernel receives
          ((send_frame kernel sends f.type f.interface f.transaction f.payload).wire ++ more)
          before).frame
        ≡ f)
      × ((receive_frame kernel receives
            ((send_frame kernel sends f.type f.interface f.transaction f.payload).wire ++ more)
            before).stream
          ≡ more)
received-sent kernel sends receives f before more r small s_done r_done =
    let (wire, size) = send_frame_wire kernel sends f s_done in
    let narrow : length f.payload % 2 ^ 32 ≡ length f.payload = omega arith in
    let front = header_bytes (header f.type f.interface f.transaction (length f.payload)) in
    let stream_eq : (send_frame kernel sends f.type f.interface f.transaction f.payload).wire
          ++ more
        ≡ front ++ (f.payload ++ more) =
      rw (wire, narrow) (append_assoc front f.payload more) in
    let d : Delivers f more (receive_frame kernel receives (front ++ (f.payload ++ more)) before) =
      receive_frame_lem kernel receives f before more r (omega arith) (rw stream_eq at r_done) in
    rw stream_eq (d.is_frame, d.is_rest)
