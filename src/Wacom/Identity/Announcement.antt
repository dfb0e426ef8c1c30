-- ===== src/Wacom/Identity/Announcement.antt =====
-- What a client that opened its files announces, and that the host accepts it.
use teraguchi.Common.{
  ℕ, ◌%◌, ◌^◌, ◌≤◌, ◌<◌, ◌≡◌, ◌≢◌, refl, subst, Bool, true, false, ◌||◌, List, [], ◌∷◌, ◌++◌,
  Option, none, some, take, length, ltb, ◌==◌, if◌then◌else◌, arith, All, length-take,
}
use teraguchi.Common.Bytes.{same_bytes→eq}
use teraguchi.Common.Options.{◌>>=◌, bind-some}
use teraguchi.Wacom.Frames.{Kernel}
use teraguchi.Wacom.Host.{is_empty}
use teraguchi.Wacom.Identity.{
  DeviceInfo, Interface, ioctl_text, c_string, physical_group, Tablet, first_interface,
  other_tablet, identify, descriptor_of, read_descriptor, keep_descriptor, add_identified,
  add_interface,
}

-- The group and the serial number of a file.
abbrev pub group_of : Interface → List ℕ
group_of file = physical_group (c_string (ioctl_text 64 file.physical))

abbrev pub serial_of : Interface → List ℕ
serial_of file = c_string (ioctl_text 64 file.unique)

-- A descriptor that the host takes: not empty, and no longer than the kernel's array.
abbrev pub Sendable : Kernel → List ℕ → Type 0
Sendable kernel d = (1 ≤ length d) × (length d ≤ kernel.hid_max_descriptor_size)

-- A file that belongs to the tablet.
pub record Belongs (tablet : Tablet) (file : Interface) : Type 0 where
  pub info : DeviceInfo
  pub opened : file.opens ≡ true
  pub known : file.info ≡ some info
  pub vendor : tablet.device.vendor ≡ info.vendor % 2 ^ 16
  pub product : tablet.device.product ≡ info.product % 2 ^ 16
  pub bus : tablet.device.bus ≡ info.bus % 2 ^ 16
  pub group : group_of file ≡ tablet.expected_group
  pub serial : tablet.expected_unique ≢ [] → serial_of file ≡ tablet.expected_unique

-- What a round leaves: the same tablet, with one more descriptor.
pub record Added (kernel : Kernel) (before after : Tablet) (file : Interface) : Type 0 where
  pub next : Tablet
  pub info : DeviceInfo
  pub descriptor : List ℕ
  pub opened : file.opens ≡ true
  pub known : file.info ≡ some info
  pub same :
      identify before before.descriptors file info (group_of file) (serial_of file) ≡ some next
  pub sendable : Sendable kernel descriptor
  pub kept : record next { descriptors = next.descriptors ++ (descriptor ∷ []) } ≡ after

-- The kernel hands over the whole array of a descriptor, whatever part of it is used.
abbrev pub WholeArray : Kernel → Interface → Type 0
WholeArray kernel file =
    (bytes : List ℕ) → file.descriptor ≡ some bytes → kernel.hid_max_descriptor_size ≤ length bytes

pub some_inj : {A : Type 0} (a b : A) → some a ≡ some b → a ≡ b
some_inj a b e = cc

taken-Sendable :
    (kernel : Kernel) (bad : Bool) (size : ℕ) (descriptor : Option (List ℕ)) (d : List ℕ)
    → (bad ≡ false → (1 ≤ size) × (size ≤ kernel.hid_max_descriptor_size))
    → ((bytes : List ℕ) → descriptor ≡ some bytes → kernel.hid_max_descriptor_size ≤ length bytes)
    → (if bad then none else elim descriptor [ some bytes ↦ some (take size bytes) | none ↦ none ])
      ≡ some d
    → Sendable kernel d
taken-Sendable kernel true size descriptor d fits whole e = cc
taken-Sendable kernel false size none d fits whole e = cc
taken-Sendable kernel false size (some bytes) d fits whole e =
    let (least, most) = fits refl in
    let long = whole bytes refl in
    subst (Sendable kernel) (some_inj (take size bytes) d e)
      (omega (arith, length-take size bytes), omega (arith, length-take size bytes))

descriptor_of-Sendable :
    (kernel : Kernel) (file : Interface) (size : ℕ) (d : List ℕ)
    → WholeArray kernel file
    → descriptor_of kernel file size ≡ some d
    → Sendable kernel d
unfolding descriptor_of
descriptor_of-Sendable kernel file size d whole e =
    taken-Sendable kernel (size == 0 || ltb kernel.hid_max_descriptor_size size) size
      file.descriptor d (λ ok. ground arith) whole e

opened_info :
    (opens : Bool) (info : Option DeviceInfo) (i : DeviceInfo)
    → (if opens then info else none) ≡ some i
    → (opens ≡ true) × (info ≡ some i)
opened_info true info i e = (refl, e)
opened_info false info i e = cc

pub add_interface-Added :
    (kernel : Kernel) (before after : Tablet) (file : Interface)
    → WholeArray kernel file
    → add_interface kernel before file ≡ some after
    → Added kernel before after file
unfolding add_interface add_identified read_descriptor
add_interface-Added kernel before after file whole e =
    let (info, known, e1) =
      bind-some (if file.opens then file.info else none) (add_identified kernel before file) after
        e in
    let (next, same, e2) =
      bind-some (identify before before.descriptors file info (group_of file) (serial_of file))
        (λ next. read_descriptor kernel file >>= keep_descriptor next) after e1 in
    let (d, read, e3) = bind-some (read_descriptor kernel file) (keep_descriptor next) after e2 in
    let (size, sized, fits) = bind-some file.descriptor_size (descriptor_of kernel file) d read in
    let (opened, there) = opened_info file.opens file.info info known in
    record {
      next = next;
      info = info;
      descriptor = d;
      opened = opened;
      known = there;
      same = same;
      sendable = descriptor_of-Sendable kernel file size d whole fits;
      kept = some_inj _ after e3;
    }

-- The tablet as the rounds over some files leave it: one descriptor for each, all of which can be sent,
-- and all the files are its own.
pub record Coherent (kernel : Kernel) (tablet : Tablet) (files : List Interface) : Type 0 where
  pub counted : length tablet.descriptors ≡ length files
  pub narrow : tablet.device.bus < 2 ^ 16
  pub sendable : All (Sendable kernel) tablet.descriptors
  pub belong : All (Belongs tablet) files

pub All-snoc :
    {A : Type 0} (P : A → Type 0) (xs : List A) (x : A) → All P xs → P x → All P (xs ++ (x ∷ []))
All-snoc P [] x a p = (p, tt)
All-snoc P (y ∷ xs) x a p = (a.0, All-snoc P xs x a.1 p)

pub first-Belongs :
    (tablet : Tablet) (file : Interface) (info : DeviceInfo)
    → file.opens ≡ true
    → file.info ≡ some info
    → Belongs (first_interface tablet file info (group_of file) (serial_of file)) file
unfolding first_interface
first-Belongs tablet file info opened known = record {
  info = info;
  opened = opened;
  known = known;
  vendor = refl;
  product = refl;
  bus = refl;
  group = refl;
  serial = λ some_serial. refl;
}

not_empty_lem : (xs : List ℕ) → xs ≢ [] → is_empty xs ≡ false
not_empty_lem [] h = absurd (h refl)
not_empty_lem (x ∷ xs) h = refl

pub next-Belongs :
    (tablet : Tablet) (file : Interface) (info : DeviceInfo)
    → tablet.device.bus < 2 ^ 16
    → file.opens ≡ true
    → file.info ≡ some info
    → other_tablet tablet info (group_of file) (serial_of file) ≡ false
    → Belongs tablet file
unfolding other_tablet
next-Belongs tablet file info narrow opened known e = record {
  info = info;
  opened = opened;
  known = known;
  vendor = ground arith;
  product = ground arith;
  bus = ground arith;
  group = ground (arith, same_bytes→eq (group_of file) tablet.expected_group);
  serial = λ some_serial.
      let there = not_empty_lem tablet.expected_unique some_serial in
      ground (arith, same_bytes→eq (serial_of file) tablet.expected_unique);
}
