-- ===== src/Wacom/Identity.antt =====
-- The opening of the tablet's interfaces by `run_client` of the bridge, and the frames that announce
-- them. What the kernel answers for a file is a record; a report of an error is `none`.
pub mod Announcement
pub mod Opening
pub mod Group
mod Tests
use teraguchi.Common.{
  ℕ, zero, suc, ◌+◌, ◌-◌, ◌*◌, ◌/◌, ◌%◌, ◌^◌, Bool, true, false, not, ◌||◌, ◌&&◌, List, [], ◌∷◌,
  ◌++◌, Option, none, some, take, drop, length, set, replicate, ltb, leb, ◌!=◌, ◌==◌, if◌then◌else◌,
}
use teraguchi.Common.Bytes.{same_bytes, starts_with}
use teraguchi.Common.Options.{◌>>=◌}
use teraguchi.Wacom.Frames.{Kernel, Frame, bytes16, bytes32}
use teraguchi.Wacom.Frames.MessageType
use teraguchi.Wacom.Host.{Device, is_empty}

-- `hidraw_devinfo`, with the 16 bits of its signed fields.
pub record DeviceInfo : Type 0 where
  pub bus : ℕ
  pub vendor : ℕ
  pub product : ℕ

-- A file: whether it opens, what its ioctls answer, and the version that `read_input_version` finds. The
-- texts are the whole arrays that the ioctls fill. A size that is negative is 0 here.
pub record Interface : Type 0 where
  pub opens : Bool
  pub info : Option DeviceInfo
  pub name : Option (List ℕ)
  pub physical : Option (List ℕ)
  pub unique : Option (List ℕ)
  pub version : Option ℕ
  pub descriptor_size : Option ℕ
  pub descriptor : Option (List ℕ)

-- An array of `n` zeros that an ioctl may fill, closed by a zero.
unfoldable pub ioctl_text : ℕ → Option (List ℕ) → List ℕ
ioctl_text n none = replicate n 0
ioctl_text n (some text) = set text (n - 1) 0

-- The text in front of the first zero.
unfoldable pub c_string : List ℕ → List ℕ
c_string [] = []
c_string (b ∷ bytes) = let rest = c_string bytes in if b == 0 then [] else b ∷ rest

-- "/input"
abbrev pub input_suffix : List ℕ
input_suffix = b'/' ∷ (b'i' ∷ (b'n' ∷ (b'p' ∷ (b'u' ∷ (b't' ∷ [])))))

-- What stands in front of the last occurrence of a text.
unfoldable pub before_last : List ℕ → List ℕ → Option (List ℕ)
unfolding starts_with
before_last part [] = none
before_last part (c ∷ text) = elim (before_last part text) [
  | some front ↦ some (c ∷ front)
  | none ↦ if starts_with part (c ∷ text) then some [] else none
]

unfoldable pub physical_group : List ℕ → List ℕ
physical_group physical = elim (before_last input_suffix physical) [
  | some front ↦ front
  | none ↦ physical
]

-- The client's variables: its message, the group and serial number of the first interface, and the
-- descriptors read so far. The interface at hand is the first where there are none.
pub record Tablet : Type 0 where
  pub device : Device
  pub expected_group : List ℕ
  pub expected_unique : List ℕ
  pub descriptors : List (List ℕ)

-- The variables that the first interface sets.
unfoldable pub first_interface : Tablet → Interface → DeviceInfo → List ℕ → List ℕ → Tablet
first_interface tablet file info group unique = record tablet {
  device = record tablet.device {
    bus = info.bus % 2 ^ 16;
    vendor = info.vendor % 2 ^ 16;
    product = info.product % 2 ^ 16;
    version = elim file.version [ some v ↦ v | none ↦ 0 ];
    name = ioctl_text 128 file.name;
    physical = ioctl_text 64 file.physical;
    unique = ioctl_text 64 file.unique;
  };
  expected_group = group;
  expected_unique = unique;
}

-- The test by which another interface is refused.
unfoldable pub other_tablet : Tablet → DeviceInfo → List ℕ → List ℕ → Bool
other_tablet tablet info group unique =
    tablet.device.bus != info.bus
    || tablet.device.vendor != info.vendor % 2 ^ 16
    || tablet.device.product != info.product % 2 ^ 16
    || not (same_bytes group tablet.expected_group)
    || not (is_empty tablet.expected_unique) && not (same_bytes unique tablet.expected_unique)

unfoldable pub identify :
    Tablet → List (List ℕ) → Interface → DeviceInfo → List ℕ → List ℕ → Option Tablet
identify tablet [] file info group unique = some (first_interface tablet file info group unique)
identify tablet (d ∷ ds) file info group unique =
    if other_tablet tablet info group unique then none else some tablet

unfoldable pub descriptor_of : Kernel → Interface → ℕ → Option (List ℕ)
descriptor_of kernel file size =
    if size == 0 || ltb kernel.hid_max_descriptor_size size
    then none
    else elim file.descriptor [ some bytes ↦ some (take size bytes) | none ↦ none ]

unfoldable pub read_descriptor : Kernel → Interface → Option (List ℕ)
read_descriptor kernel file = file.descriptor_size >>= descriptor_of kernel file

abbrev pub keep_descriptor : Tablet → List ℕ → Option Tablet
keep_descriptor tablet descriptor =
    some (record tablet { descriptors = tablet.descriptors ++ (descriptor ∷ []) })

-- The part of a round behind the reading of the file's identity.
unfoldable pub add_identified : Kernel → Tablet → Interface → DeviceInfo → Option Tablet
add_identified kernel tablet file info = do
  let group = physical_group (c_string (ioctl_text 64 file.physical))
  let unique = c_string (ioctl_text 64 file.unique)
  next ← identify tablet tablet.descriptors file info group unique
  read_descriptor kernel file >>= keep_descriptor next

-- One round of the loop over the files; `none` is the return with 3.
unfoldable pub add_interface : Kernel → Tablet → Interface → Option Tablet
add_interface kernel tablet file =
    (if file.opens then file.info else none) >>= add_identified kernel tablet file

unfoldable pub add_interfaces : Kernel → Tablet → List Interface → Option Tablet
add_interfaces kernel tablet [] = some tablet
add_interfaces kernel tablet (file ∷ files) = do
  next ← add_interface kernel tablet file
  add_interfaces kernel next files

unfoldable pub no_tablet : ℕ → Tablet
no_tablet files = record {
  device = record {
    interface_count = files % 2 ^ 16;
    bus = 0;
    vendor = 0;
    product = 0;
    version = 0;
    country = 0;
    name = replicate 128 0;
    physical = replicate 64 0;
    unique = replicate 64 0;
  };
  expected_group = [];
  expected_unique = [];
  descriptors = [];
}

unfoldable pub open_tablet : Kernel → List Interface → Option Tablet
open_tablet kernel files = add_interfaces kernel (no_tablet (length files)) files

-- `DeviceMessage` as it lies in memory.
unfoldable pub device_bytes : Device → List ℕ
device_bytes d = bytes16 d.interface_count (
    bytes16 d.bus (
      bytes32 d.vendor (
        bytes32 d.product
          (bytes32 d.version (bytes32 d.country (d.name ++ (d.physical ++ d.unique)))))))

unfoldable pub descriptor_frames : ℕ → List (List ℕ) → List Frame
descriptor_frames index [] = []
descriptor_frames index (descriptor ∷ descriptors) =
    record {
      type = MessageType.descriptor;
      interface = index % 2 ^ 16;
      transaction = 0;
      payload = descriptor;
    }
    ∷ descriptor_frames (suc index) descriptors

-- The frames that announce the tablet.
unfoldable pub tablet_frames : Tablet → List Frame
tablet_frames tablet =
    record {
      type = MessageType.device;
      interface = 0;
      transaction = 0;
      payload = device_bytes tablet.device;
    }
    ∷ descriptor_frames 0 tablet.descriptors
