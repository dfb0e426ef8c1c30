-- ===== src/Wacom/Identity/Opening.antt =====
-- The loop over a tablet's files, from the first to the last.
use teraguchi.Common.{
  ℕ, ◌^◌, ◌<◌, ◌≡◌, refl, sym, ap, ap₂, subst, Bool, true, false, List, [], ◌∷◌, ◌++◌, append-nil,
  append_assoc, none, some, length, if◌then◌else◌, arith, All, length-append,
}
use teraguchi.Common.Options.{bind-some}
use teraguchi.Wacom.Frames.{Kernel}
use teraguchi.Wacom.Identity.{
  DeviceInfo, Interface, Tablet, first_interface, other_tablet, identify, add_interface,
  add_interfaces, no_tablet, open_tablet,
}
use teraguchi.Wacom.Identity.Announcement.{
  group_of, serial_of, Sendable, Belongs, WholeArray, Coherent, some_inj, All-snoc, first-Belongs,
  next-Belongs, add_interface-Added,
}

-- A tablet after a file was identified, its descriptor still to come.
record Identified (kernel : Kernel) (tablet : Tablet) (next : Tablet) (files : List Interface)
    (file : Interface) : Type 0 where
  untouched : next.descriptors ≡ tablet.descriptors
  narrow : next.device.bus < 2 ^ 16
  belong : All (Belongs next) (files ++ (file ∷ []))

accepted_lem :
    (bad : Bool) (tablet next : Tablet)
    → (if bad then none else some tablet) ≡ some next
    → (bad ≡ false) × (tablet ≡ next)
accepted_lem true tablet next e = cc
accepted_lem false tablet next e = (refl, some_inj tablet next e)

identify-Identified :
    (kernel : Kernel) (tablet next : Tablet) (files : List Interface) (file : Interface)
    (info : DeviceInfo) (ds : List (List ℕ))
    → tablet.descriptors ≡ ds
    → Coherent kernel tablet files
    → file.opens ≡ true
    → file.info ≡ some info
    → identify tablet ds file info (group_of file) (serial_of file) ≡ some next
    → Identified kernel tablet next files file
unfolding identify first_interface
identify-Identified kernel tablet next [] file info [] d c opened known e =
    subst (λ (n : Tablet). Identified kernel tablet n [] file) (some_inj _ next e)
      (record {
        untouched = refl;
        narrow = omega arith;
        belong = (first-Belongs tablet file info opened known, tt);
      })
identify-Identified kernel tablet next (f ∷ files) file info [] d c opened known e =
    absurd (omega (arith, ap length d))
identify-Identified kernel tablet next files file info (x ∷ ds) d c opened known e =
    let (same, kept) =
      accepted_lem (other_tablet tablet info (group_of file) (serial_of file)) tablet next e in
    subst (λ (n : Tablet). Identified kernel tablet n files file) kept
      (record {
        untouched = refl;
        narrow = c.narrow;
        belong =
            All-snoc (Belongs tablet) files file c.belong
              (next-Belongs tablet file info c.narrow opened known same);
      })

keep_files :
    (tablet : Tablet) (ds : List (List ℕ)) (files : List Interface)
    → All (Belongs tablet) files
    → All (Belongs (record tablet { descriptors = ds })) files
keep_files tablet ds [] all = tt
keep_files tablet ds (file ∷ files) all =
    let b = all.0 in
    (
      record {
        info = b.info;
        opened = b.opened;
        known = b.known;
        vendor = b.vendor;
        product = b.product;
        bus = b.bus;
        group = b.group;
        serial = b.serial;
      },
      keep_files tablet ds files all.1,
    )

add_interface-Coherent :
    (kernel : Kernel) (tablet after : Tablet) (files : List Interface) (file : Interface)
    → WholeArray kernel file
    → Coherent kernel tablet files
    → add_interface kernel tablet file ≡ some after
    → Coherent kernel after (files ++ (file ∷ []))
add_interface-Coherent kernel tablet after files file whole c e =
    let added = add_interface-Added kernel tablet after file whole e in
    let i =
      identify-Identified kernel tablet added.next files file added.info tablet.descriptors refl c
        added.opened added.known added.same in
    subst (λ (t : Tablet). Coherent kernel t (files ++ (file ∷ []))) added.kept
      (record {
        counted = omega (
          arith,
          length-append added.next.descriptors (added.descriptor ∷ []),
          length-append files (file ∷ []),
          ap length i.untouched,
        );
        narrow = i.narrow;
        sendable =
            subst (λ (ds : List (List ℕ)). All (Sendable kernel) (ds ++ (added.descriptor ∷ [])))
              (sym i.untouched)
              (All-snoc (Sendable kernel) tablet.descriptors added.descriptor c.sendable
                added.sendable);
        belong =
            keep_files added.next (added.next.descriptors ++ (added.descriptor ∷ [])) _ i.belong;
      })

add_interfaces-Coherent :
    (kernel : Kernel) (files before : List Interface) (tablet after : Tablet)
    → All (WholeArray kernel) files
    → Coherent kernel tablet before
    → add_interfaces kernel tablet files ≡ some after
    → Coherent kernel after (before ++ files)
unfolding add_interfaces
add_interfaces-Coherent kernel [] before tablet after whole c e =
    subst (λ (x : Tablet × List Interface). Coherent kernel x.0 x.1)
      (ap₂ (λ (t : Tablet) (fs : List Interface). (t, fs)) (some_inj tablet after e)
        (sym (append-nil before)))
      c
add_interfaces-Coherent kernel (file ∷ files) before tablet after whole c e =
    let (next, one, rest) =
      bind-some (add_interface kernel tablet file) (λ next. add_interfaces kernel next files) after
        e in
    subst (Coherent kernel after) (append_assoc before (file ∷ []) files) (
      add_interfaces-Coherent kernel files (before ++ (file ∷ [])) next after whole.1
        (add_interface-Coherent kernel tablet next before file whole.0 c one) rest)

-- A client that gets past the loop over its files has read one descriptor for each of them, not empty and
-- within the kernel's bound, and all the files are of one tablet: each opened, and has the vendor, the
-- product, the bus and the physical group that the client announces, and the serial number too, where the
-- tablet's first file has one. The kernel hands over whole arrays.
pub open_tablet-Coherent :
    (kernel : Kernel) (files : List Interface) (tablet : Tablet)
    → All (WholeArray kernel) files
    → open_tablet kernel files ≡ some tablet
    → Coherent kernel tablet files
unfolding open_tablet no_tablet
open_tablet-Coherent kernel files tablet whole e =
    add_interfaces-Coherent kernel files [] (no_tablet (length files)) tablet whole
      (record { counted = refl; narrow = omega arith; sendable = tt; belong = tt }) e
