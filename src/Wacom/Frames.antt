-- ===== src/Wacom/Frames.antt =====
-- The bridge's messages: `WireHeader`, `Frame`, `send_frame` and `receive_frame`. A header goes over
-- the wire as it lies in memory, packed and with the low byte of each field first.
pub mod Exchange
pub mod Delivery
pub mod MessageType
use teraguchi.Common.{
  ℕ, ◌+◌, ◌*◌, ◌/◌, ◌%◌, ◌^◌, Bool, true, false, ◌||◌, List, [], ◌∷◌, ◌++◌, Option, none, some,
  take, drop, length, replicate, ltb, ◌!=◌, ◌==◌, if◌then◌else◌, get_or,
}
use teraguchi.Wacom.Socket.{SendStep, Written, write_all, ReceiveStep, Read, read_all}

abbrev pub magic : ℕ
magic = 0x504c5748

abbrev pub version : ℕ
version = 1

-- The kernel's limits and error numbers, from linux/uhid.h, linux/hid.h and errno.h.
pub record Kernel : Type 0 where
  pub uhid_data_max : ℕ
  pub hid_max_descriptor_size : ℕ
  pub einval : ℕ
  pub eio : ℕ

-- `kMaximumPayload`
abbrev pub maximum_payload : Kernel → ℕ
maximum_payload k = k.uhid_data_max + 64

pub record WireHeader : Type 0 where
  pub magic : ℕ
  pub version : ℕ
  pub type : ℕ
  pub interface : ℕ
  pub reserved : ℕ
  pub transaction : ℕ
  pub size : ℕ

pub record Frame : Type 0 where
  pub type : ℕ
  pub interface : ℕ
  pub transaction : ℕ
  pub payload : List ℕ

abbrev pub bytes16 : ℕ → List ℕ → List ℕ
bytes16 v rest = v % 256 ∷ v / 256 % 256 ∷ rest

abbrev pub bytes32 : ℕ → List ℕ → List ℕ
bytes32 v rest = v % 256 ∷ v / 256 % 256 ∷ v / 65536 % 256 ∷ v / 16777216 % 256 ∷ rest

abbrev pub field16 : List ℕ → ℕ → ℕ
field16 bytes at = get_or bytes at 0 + get_or bytes (at + 1) 0 * 256

abbrev pub field32 : List ℕ → ℕ → ℕ
field32 bytes at = field16 bytes at + field16 bytes (at + 2) * 65536

unfoldable pub header_bytes : WireHeader → List ℕ
header_bytes h = bytes32 h.magic (
    bytes16 h.version (
      bytes16 h.type
        (bytes16 h.interface (bytes16 h.reserved (bytes32 h.transaction (bytes32 h.size []))))))

unfoldable pub header_of : List ℕ → WireHeader
header_of bytes = record {
  magic = field32 bytes 0;
  version = field16 bytes 4;
  type = field16 bytes 6;
  interface = field16 bytes 8;
  reserved = field16 bytes 10;
  transaction = field32 bytes 12;
  size = field32 bytes 16;
}

-- `a && b` of two calls of `write_all`: the second is made only where the first returned true.
unfoldable pub then_write : Written → List ℕ → Written
then_write first bytes = elim first.status [
  | some true ↦
      let second = write_all first.schedule bytes in
      record second { wire = first.wire ++ second.wire }
  | some false ↦ first
  | none ↦ first
]

unfoldable pub send_frame : Kernel → List SendStep → ℕ → ℕ → ℕ → List ℕ → Written
send_frame kernel schedule type interface transaction payload =
    if ltb (maximum_payload kernel) (length payload)
    then record { status = some false; wire = []; schedule = schedule }
    else let header : WireHeader = record {
      magic = magic;
      version = version;
      type = type;
      interface = interface;
      reserved = 0;
      transaction = transaction;
      size = length payload % 2 ^ 32;
    } in
      let first = write_all schedule (header_bytes header) in
      if length payload == 0 then first else then_write first payload

-- What the caller has after `receive_frame`: the frame is set from a header that was accepted, and
-- its payload holds what was read of it.
pub record Received : Type 0 where
  pub status : Option Bool
  pub frame : Frame
  pub stream : List ℕ
  pub schedule : List ReceiveStep

unfoldable pub resize : ℕ → List ℕ → List ℕ
resize n bytes = take n (bytes ++ replicate n 0)

unfoldable pub receive_payload : Frame → WireHeader → List ReceiveStep → List ℕ → Received
unfolding resize
receive_payload frame header schedule stream =
    let body = read_all schedule stream header.size in
    record {
      status = body.status;
      frame = record {
        type = header.type;
        interface = header.interface;
        transaction = header.transaction;
        payload = body.bytes ++ drop (length body.bytes) (resize header.size frame.payload);
      };
      stream = body.stream;
      schedule = body.schedule;
    }

unfoldable pub receive_frame : Kernel → List ReceiveStep → List ℕ → Frame → Received
receive_frame kernel schedule stream frame =
    let head = read_all schedule stream 20 in
    let header = header_of head.bytes in
    elim head.status [
      | none ↦ record {
        status = none;
        frame = frame;
        stream = head.stream;
        schedule = head.schedule;
      }
      | some false ↦ record {
        status = some false;
        frame = frame;
        stream = head.stream;
        schedule = head.schedule;
      }
      | some true ↦
          if header.magic != magic
            || header.version != version
            || ltb (maximum_payload kernel) header.size
          then record {
            status = some false;
            frame = frame;
            stream = head.stream;
            schedule = head.schedule;
          }
          else receive_payload frame header head.schedule head.stream
    ]
