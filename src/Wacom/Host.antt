-- ===== src/Wacom/Host.antt =====
-- `run_host` of the bridge. The handshake reads the frames that its successive calls of
-- `receive_frame` deliver: the list ends where a call returns false. What `/dev/uhid` answers is a
-- list of steps.
pub mod Descriptors
pub mod Dispatch
use teraguchi.Common.{
  ℕ, zero, suc, ◌+◌, ◌-◌, ◌%◌, ◌^◌, Bool, true, false, ◌||◌, ◌&&◌, List, [], ◌∷◌, ◌++◌, Option,
  none, some, take, drop, length, set, replicate, ltb, leb, ◌!=◌, ◌==◌, if◌then◌else◌,
}
use teraguchi.Wacom.Frames.{Kernel, Frame, field16, field32}
use teraguchi.Wacom.Frames.MessageType

-- `DeviceMessage` as the host keeps it, its texts closed by a zero.
pub record Device : Type 0 where
  pub interface_count : ℕ
  pub bus : ℕ
  pub vendor : ℕ
  pub product : ℕ
  pub version : ℕ
  pub country : ℕ
  pub name : List ℕ
  pub physical : List ℕ
  pub unique : List ℕ

-- `sizeof(DeviceMessage)`
abbrev pub device_size : ℕ
device_size = 276

unfoldable pub device_of : List ℕ → Device
device_of bytes = record {
  interface_count = field16 bytes 0;
  bus = field16 bytes 2;
  vendor = field32 bytes 4;
  product = field32 bytes 8;
  version = field32 bytes 12;
  country = field32 bytes 16;
  name = set (take 128 (drop 20 bytes)) 127 0;
  physical = set (take 64 (drop 148 bytes)) 63 0;
  unique = set (take 64 (drop 212 bytes)) 63 0;
}

abbrev pub is_empty : List ℕ → Bool
is_empty [] = true
is_empty (b ∷ bytes) = false

-- The test by which a descriptor frame is refused, where `count` interfaces were announced.
unfoldable pub bad_descriptor : Kernel → ℕ → Frame → Bool
bad_descriptor kernel count frame =
    frame.type != MessageType.descriptor
    || leb count frame.interface
    || is_empty frame.payload
    || ltb kernel.hid_max_descriptor_size (length frame.payload)

-- The rounds left, the table so far, and the frames to come.
unfoldable pub read_descriptors :
    Kernel → ℕ → List (List ℕ) → List Frame → Option (List (List ℕ) × List Frame)
read_descriptors kernel zero table frames = some (table, frames)
read_descriptors kernel (suc left) table [] = none
read_descriptors kernel (suc left) table (frame ∷ frames) =
    let rest = read_descriptors kernel left (set table frame.interface frame.payload) frames in
    if bad_descriptor kernel (length table) frame then none else rest

pub data Handshake : Type 0 where
  exits : ℕ → Handshake
  ready : Device → List (List ℕ) → List Frame → Handshake

unfoldable pub with_device : Kernel → Device → List Frame → Handshake
with_device kernel device frames =
    if device.interface_count == 0 || ltb 16 device.interface_count
    then exits 5
    else elim (read_descriptors kernel device.interface_count (replicate device.interface_count [])
        frames) [ none ↦ exits 5 | some (table, rest) ↦ ready device table rest ]

unfoldable pub handshake : Kernel → List Frame → Handshake
handshake kernel [] = exits 5
handshake kernel (frame ∷ frames) =
    if frame.type != MessageType.device || length frame.payload != device_size
    then exits 5
    else with_device kernel (device_of frame.payload) frames

-- The fields of `create.u.create2`.
pub record Create2 : Type 0 where
  pub name : List ℕ
  pub phys : List ℕ
  pub uniq : List ℕ
  pub rd_size : ℕ
  pub bus : ℕ
  pub vendor : ℕ
  pub product : ℕ
  pub version : ℕ
  pub country : ℕ
  pub rd_data : List ℕ

-- "plank/raw-wacom" in an array of 64 bytes.
abbrev pub raw_wacom : List ℕ
raw_wacom =
    b'p'
    ∷ b'l'
    ∷ b'a'
    ∷ b'n'
    ∷ b'k'
    ∷ b'/'
    ∷ b'r'
    ∷ b'a'
    ∷ b'w'
    ∷ b'-'
    ∷ b'w'
    ∷ b'a'
    ∷ b'c'
    ∷ b'o'
    ∷ b'm'
    ∷ replicate 49 0

unfoldable pub create2 : Device → List ℕ → Create2
create2 device descriptor = record {
  name = device.name;
  phys = raw_wacom;
  uniq = device.unique;
  rd_size = length descriptor % 2 ^ 16;
  bus = device.bus;
  vendor = device.vendor;
  product = device.product;
  version = device.version;
  country = device.country;
  rd_data = descriptor;
}

-- What opening `/dev/uhid` and writing the first event to it does.
pub data UhidStep : Type 0 where
  opened_and_written : UhidStep
  open_failed : UhidStep
  write_failed : UhidStep

-- `exit` is the code of an early return; `events` are the creations written before.
pub record Created : Type 0 where
  pub exit : Option ℕ
  pub events : List Create2

-- An exhausted list of steps is a file that does not open.
unfoldable pub create_devices : Device → List (List ℕ) → List UhidStep → Created
create_devices device [] steps = record { exit = none; events = [] }
create_devices device ([] ∷ table) steps = record { exit = some 5; events = [] }
create_devices device ((b ∷ bytes) ∷ table) [] = record { exit = some 6; events = [] }
create_devices device ((b ∷ bytes) ∷ table) (open_failed ∷ steps) = record {
  exit = some 6;
  events = [];
}
create_devices device ((b ∷ bytes) ∷ table) (write_failed ∷ steps) = record {
  exit = some 6;
  events = [];
}
create_devices device ((b ∷ bytes) ∷ table) (opened_and_written ∷ steps) =
    let rest = create_devices device table steps in
    record rest { events = create2 device (b ∷ bytes) ∷ rest.events }

-- An event that the host writes to a device. `data` of an input event and of a report is what the
-- code copies into the event's array.
pub data UhidEvent : Type 0 where
  input2 : ℕ → List ℕ → UhidEvent
  get_report_reply : ℕ → ℕ → ℕ → List ℕ → UhidEvent
  set_report_reply : ℕ → ℕ → UhidEvent

-- What the loop does with a frame from the client.
pub data HostAction : Type 0 where
  finish : HostAction
  abort : HostAction
  deliver : ℕ → UhidEvent → HostAction
  ignore : HostAction

unfoldable pub host_dispatch : ℕ → Frame → HostAction
host_dispatch count frame =
    if frame.type == MessageType.detach
    then finish
    else if leb count frame.interface
    then abort
    else if frame.type == MessageType.input
    then deliver frame.interface (input2 (length frame.payload % 2 ^ 16) frame.payload)
    else if frame.type == MessageType.get_report_reply && leb 4 (length frame.payload)
    then deliver frame.interface (
        get_report_reply frame.transaction (field32 frame.payload 0 % 2 ^ 16)
          ((length frame.payload - 4) % 2 ^ 16) (drop 4 frame.payload))
    else if frame.type == MessageType.set_report_reply && length frame.payload == 4
    then deliver frame.interface
        (set_report_reply frame.transaction (field32 frame.payload 0 % 2 ^ 16))
    else ignore

-- What a device's file gives to read.
pub data KernelEvent : Type 0 where
  truncated : KernelEvent
  start : KernelEvent
  get_report : ℕ → ℕ → ℕ → KernelEvent
  set_report : ℕ → ℕ → ℕ → List ℕ → KernelEvent
  output : ℕ → ℕ → List ℕ → KernelEvent
  other : KernelEvent

-- The frame that the loop sends to the client for an event of the device `index`.
unfoldable pub host_request : ℕ → KernelEvent → Option Frame
host_request index truncated = none
host_request index start = none
host_request index (get_report id rnum rtype) = some (record {
  type = MessageType.get_report;
  interface = index % 2 ^ 16;
  transaction = id;
  payload = rnum ∷ rtype ∷ [];
})
host_request index (set_report id rtype size bytes) = some (record {
  type = MessageType.set_report;
  interface = index % 2 ^ 16;
  transaction = id;
  payload = rtype ∷ take size bytes;
})
host_request index (output rtype size bytes) = some (record {
  type = MessageType.output;
  interface = index % 2 ^ 16;
  transaction = 0;
  payload = rtype ∷ take size bytes;
})
host_request index other = none
