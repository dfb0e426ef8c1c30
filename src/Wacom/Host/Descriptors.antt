-- ===== src/Wacom/Host/Descriptors.antt =====
-- The descriptors that a handshake collects, and the devices that are made of them.
use teraguchi.Common.{
  ℕ, zero, suc, ◌≤◌, ◌≡◌, ◌≢◌, refl, ap, ◌∙◌, false, List, [], ◌∷◌, Option, none, some, map, drop,
  length, set, replicate, arith, All, length-set, drop-all, Bool-cases, inl, inr, subst,
}
use teraguchi.Wacom.Frames.{Kernel, Frame}
use teraguchi.Wacom.Host.{
  Device, bad_descriptor, read_descriptors, ready, with_device, handshake, create2, UhidStep,
  opened_and_written, open_failed, write_failed, create_devices, Create2,
}

All-set :
    (P : List ℕ → Type 0) (xs : List (List ℕ)) (i : ℕ) (v : List ℕ)
    → All P xs
    → P v
    → All P (set xs i v)
All-set P [] i v a p = tt
All-set P (x ∷ xs) zero v a p = (p, a.1)
All-set P (x ∷ xs) (suc i) v a p = (a.0, All-set P xs i v a.1 p)

length-replicate : {A : Type 0} (n : ℕ) (a : A) → length (replicate n a) ≡ n
length-replicate zero a = refl
length-replicate (suc n) a = ap suc (length-replicate n a)

All-replicate : (P : List ℕ → Type 0) (n : ℕ) (v : List ℕ) → P v → All P (replicate n v)
All-replicate P zero v p = tt
All-replicate P (suc n) v p = (p, All-replicate P n v p)

-- A descriptor that fits the kernel's array.
abbrev pub Bounded : Kernel → List ℕ → Type 0
Bounded kernel descriptor = length descriptor ≤ kernel.hid_max_descriptor_size

record Table (kernel : Kernel) (count : ℕ) (rest : List Frame) (r : List (List ℕ) × List Frame)
    : Type 0 where
  sized : length r.0 ≡ count
  bounded : All (Bounded kernel) r.0
  unread : r.1 ≡ rest

good_descriptor :
    (kernel : Kernel) (count : ℕ) (frame : Frame)
    → bad_descriptor kernel count frame ≡ false
    → Bounded kernel frame.payload
unfolding bad_descriptor
good_descriptor kernel count frame h = ground arith

read_descriptors-Table :
    (kernel : Kernel) (left : ℕ) (table : List (List ℕ)) (frames : List Frame)
    (r : List (List ℕ) × List Frame)
    → All (Bounded kernel) table
    → read_descriptors kernel left table frames ≡ some r
    → Table kernel (length table) (drop left frames) r
unfolding read_descriptors
read_descriptors-Table kernel zero table frames r a e =
    let same : (table, frames) ≡ r = ground arith in
    subst (Table kernel (length table) frames) same
      (record { sized = refl; bounded = a; unread = refl })
read_descriptors-Table kernel (suc left) table [] r a e = cc
read_descriptors-Table kernel (suc left) table (frame ∷ frames) r a e =
    elim (Bool-cases (bad_descriptor kernel (length table) frame)) [
      | inl bad ↦ absurd (none-ne-some (rw bad at e))
      | inr good ↦
          let ih =
            read_descriptors-Table kernel left (set table frame.interface frame.payload) frames r
              (All-set (Bounded kernel) table frame.interface frame.payload a
                (good_descriptor kernel (length table) frame good))
              (rw good at e) in
          record {
            sized = ih.sized ∙ length-set table frame.interface frame.payload;
            bounded = ih.bounded;
            unread = ih.unread;
          }
    ]
  where
    none-ne-some : ◌≡◌ {A = Option (List (List ℕ) × List Frame)} none (some r) → ⊥
    none-ne-some h = cc

length-map_data : (events : List Create2) → length (map (λ e. e.rd_data) events) ≡ length events
length-map_data [] = refl
length-map_data (e ∷ events) = ap suc (length-map_data events)

-- What the creations show of the descriptors.
record Shown (table : List (List ℕ)) (events : List Create2) : Type 0 where
  same : map (λ e. e.rd_data) events ≡ table
  present : All (λ d. d ≢ []) table

create_devices-Shown :
    (device : Device) (table : List (List ℕ)) (steps : List UhidStep)
    → (create_devices device table steps).exit ≡ none
    → Shown table (create_devices device table steps).events
unfolding create_devices create2
create_devices-Shown device [] steps e = record { same = refl; present = tt }
create_devices-Shown device ([] ∷ table) steps e = cc
create_devices-Shown device ((b ∷ bytes) ∷ table) [] e = cc
create_devices-Shown device ((b ∷ bytes) ∷ table) (open_failed ∷ steps) e = cc
create_devices-Shown device ((b ∷ bytes) ∷ table) (write_failed ∷ steps) e = cc
create_devices-Shown device ((b ∷ bytes) ∷ table) (opened_and_written ∷ steps) e =
    let ih = create_devices-Shown device table steps e in
    record { same = ap (◌∷◌ (b ∷ bytes)) ih.same; present = ((λ p. cc), ih.present) }

drop-drop_one : (n : ℕ) (frames : List Frame) → drop n (drop 1 frames) ≡ drop (suc n) frames
drop-drop_one n [] = drop-all n [] (omega arith)
drop-drop_one n (f ∷ frames) = refl

-- The count that a device frame announces, and the table read after it.
handshake_inv :
    (kernel : Kernel) (frames : List Frame) (device : Device) (table : List (List ℕ))
    (rest : List Frame)
    → handshake kernel frames ≡ ready device table rest
    → (1 ≤ device.interface_count)
      × (device.interface_count ≤ 16)
      × (read_descriptors kernel device.interface_count
            (replicate device.interface_count [])
            (drop 1 frames)
          ≡ some (table, rest))
unfolding handshake with_device
handshake_inv kernel [] device table rest e = cc
handshake_inv kernel (frame ∷ frames) device table rest e = ground arith

-- A host that gets past the handshake and the creation of the devices has announced 1 to 16
-- interfaces, has read one frame for the device and one for each interface, and has created, in
-- order, a device for every interface, each with a descriptor that is not empty and fits the kernel.
pub handshake-create_devices :
    (kernel : Kernel) (frames : List Frame) (device : Device) (table : List (List ℕ))
    (rest : List Frame) (steps : List UhidStep)
    → handshake kernel frames ≡ ready device table rest
    → (create_devices device table steps).exit ≡ none
    → (1 ≤ device.interface_count)
      × (device.interface_count ≤ 16)
      × (length (create_devices device table steps).events ≡ device.interface_count)
      × (map (λ e. e.rd_data) (create_devices device table steps).events ≡ table)
      × All (λ d. d ≢ []) table
      × All (Bounded kernel) table
      × (rest ≡ drop (suc device.interface_count) frames)
handshake-create_devices kernel frames device table rest steps e c =
    let (lo, hi, read) = handshake_inv kernel frames device table rest e in
    let n = device.interface_count in
    let t =
      read_descriptors-Table kernel n (replicate n []) (drop 1 frames) (table, rest)
        (All-replicate (Bounded kernel) n [] (omega arith)) read in
    let s = create_devices-Shown device table steps c in
    let events = (create_devices device table steps).events in
    let sized : length events ≡ n = omega (
      arith,
      length-map_data events,
      ap length s.same,
      t.sized,
      length-replicate {A = List ℕ} n [],
    ) in
    (lo, hi, sized, s.same, s.present, t.bounded, t.unread ∙ drop-drop_one n frames)
