-- ===== src/Wacom/Identity/Tests.antt =====
-- The opening of a tablet with two interfaces.
use teraguchi.Common.{ℕ, ◌≡◌, refl, ap, true, List, [], ◌∷◌, none, some, length, replicate, arith}
use teraguchi.Common.Bytes.{same_bytes, starts_with}
use teraguchi.Wacom.Frames.{Kernel}
use teraguchi.Wacom.Identity.{
  Interface, Tablet, open_tablet, add_interfaces, add_interface, add_identified, read_descriptor,
  descriptor_of, identify, first_interface, other_tablet, no_tablet, ioctl_text, c_string,
  physical_group, before_last,
}
use teraguchi.Wacom.Identity.Announcement.{WholeArray, Coherent, some_inj}
use teraguchi.Wacom.Identity.Opening.{open_tablet-Coherent}

abbrev small_kernel : Kernel
small_kernel = record { uhid_data_max = 64; hid_max_descriptor_size = 4; einval = 22; eio = 5 }

abbrev hid_array : List ℕ
hid_array = 5 ∷ (13 ∷ (9 ∷ (2 ∷ [])))

-- An interface at "u/input" and a digit.
abbrev interface_at : ℕ → ℕ → Interface
interface_at digit size = record {
  opens = true;
  info = some (record { bus = 3; vendor = 0x56a; product = 0x392 });
  name = none;
  physical =
      some (b'u' ∷ (b'/' ∷ (b'i' ∷ (b'n' ∷ (b'p' ∷ (b'u' ∷ (b't' ∷ (digit ∷ replicate 56 0))))))));
  unique = none;
  version = some 0x110;
  descriptor_size = some size;
  descriptor = some hid_array;
}

abbrev two_files : List Interface
two_files = interface_at b'0' 4 ∷ (interface_at b'1' 2 ∷ [])

abbrev opened_tablet : Tablet
opened_tablet = record {
  device = record {
    interface_count = 2;
    bus = 3;
    vendor = 0x56a;
    product = 0x392;
    version = 0x110;
    country = 0;
    name = replicate 128 0;
    physical = b'u' ∷ (b'/' ∷ (b'i' ∷ (b'n' ∷ (b'p' ∷ (b'u' ∷ (b't' ∷ (b'0' ∷ replicate 56 0)))))));
    unique = replicate 64 0;
  };
  expected_group = b'u' ∷ [];
  expected_unique = [];
  descriptors = hid_array ∷ ((5 ∷ (13 ∷ [])) ∷ []);
}

two_files_open : open_tablet small_kernel two_files ≡ some opened_tablet
unfolding open_tablet add_interfaces add_interface add_identified read_descriptor descriptor_of
    identify first_interface other_tablet no_tablet ioctl_text c_string physical_group before_last
    starts_with same_bytes
two_files_open = refl

whole_arrays : (digit size : ℕ) → WholeArray small_kernel (interface_at digit size)
whole_arrays digit size bytes e = omega (arith, ap length (some_inj hid_array bytes e))

open_tablet-Coherent_example : Coherent small_kernel opened_tablet two_files
open_tablet-Coherent_example =
    open_tablet-Coherent small_kernel two_files opened_tablet
      (whole_arrays b'0' 4, (whole_arrays b'1' 2, tt)) two_files_open
