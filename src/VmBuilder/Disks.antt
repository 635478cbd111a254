-- ===== src/VmBuilder/Disks.antt =====
-- Which disks a VM gets.
use proxmox_operator.Base.{
  ℕ, ◌+◌, ◌<◌, ◌≤◌, ◌≡◌, ◌≢◌, refl, List, [], ◌∷◌, ◌++◌, map, Bool, true, false, ◌||◌, ◌==◌,
  if◌then◌else◌, arith, All, not, Bool-cases, inl, inr, ◌∙◌, append-nil,
}
use proxmox_operator.Base.Text.{Text, text, eq_text, eq_text_iff, eq_text_refl, is_empty}
use proxmox_operator.Base.Decimal.{digits, itoa}
use proxmox_operator.Base.Decimal.RoundTrip.{digits-injective}
use proxmox_operator.Config.{Config, disk_slot_scsi0, default_disk_size_gb}
use proxmox_operator.Crd.{MachineSpec, Disk}
use proxmox_operator.VmBuilder.{
  VmOption, str, disk_slot, disk_option, disk_options, boot_disk_created, build_storage_options,
}

-- The disk asks to be the boot disk: by its name or by its flag.
abbrev is_root : Disk → Bool
is_root d = eq_text d.name (text "root") || d.boot

-- The slot of a data disk.
abbrev pub scsi : ℕ → Text
scsi i = text "scsi" ++ digits i

scsi-injective : (i j : ℕ) → scsi i ≡ scsi j → i ≡ j
unfolding text
scsi-injective i j e = digits-injective i j (cc)

scsi-zero : scsi 0 ≡ disk_slot_scsi0
unfolding text digits
scsi-zero = refl

scsi-eq-scsi0 : (i : ℕ) → eq_text (scsi i) disk_slot_scsi0 ≡ (i == 0)
scsi-eq-scsi0 i =
    ground (arith, eq_text_iff (scsi i) disk_slot_scsi0, scsi-injective i 0, scsi-zero)

-- The disks behind the first: those that ask to be the boot disk are left out, and any other takes the
-- slot of its index.
abbrev pub data_disks : Text → ℕ → List Disk → List VmOption
data_disks pool i [] = []
data_disks pool i (d ∷ ds) =
    if is_root d
    then data_disks pool (i + 1) ds
    else record (disk_option pool i d) { name = scsi i } ∷ data_disks pool (i + 1) ds

-- Behind the first disk a slot is scsi0 only if the disk asks to be the boot disk.
disk_slot-eq-scsi0 :
    (i : ℕ) (d : Disk) → 0 < i → eq_text (disk_slot i d) disk_slot_scsi0 ≡ is_root d
unfolding disk_slot
disk_slot-eq-scsi0 i d h = ground (arith, scsi-eq-scsi0 i, eq_text_refl disk_slot_scsi0)

disk_slot_data : (i : ℕ) (d : Disk) → 0 < i → is_root d ≡ false → disk_slot i d ≡ scsi i
unfolding disk_slot
disk_slot_data i d h r = ground arith

disk_option_data :
    (pool : Text) (i : ℕ) (d : Disk)
    → 0 < i
    → is_root d ≡ false
    → disk_option pool i d ≡ record (disk_option pool i d) { name = scsi i }
unfolding disk_option
disk_option_data pool i d h r = rw (disk_slot_data i d h r)

disk_options-data_disks :
    (pool : Text) (i : ℕ) (ds : List Disk)
    → 0 < i
    → disk_options pool i true ds ≡ data_disks pool i ds
unfolding disk_options
disk_options-data_disks pool i [] h = refl
disk_options-data_disks pool i (d ∷ ds) h = ground (
  arith,
  disk_slot-eq-scsi0 i d h,
  disk_option_data pool i d h,
  disk_options-data_disks pool (i + 1) ds (omega arith),
)

disk_slot_first : (d : Disk) → disk_slot 0 d ≡ disk_slot_scsi0
unfolding disk_slot
disk_slot_first d = ground arith

boot_disk_created-true : (i : ℕ) (ds : List Disk) → boot_disk_created i true ds ≡ true
unfolding boot_disk_created
boot_disk_created-true i [] = refl
boot_disk_created-true i (d ∷ ds) = boot_disk_created-true (i + 1) ds

pub disk_options_first :
    (pool : Text) (d : Disk) (ds : List Disk)
    → disk_options pool 0 false (d ∷ ds)
      ≡ record (disk_option pool 0 d) { name = disk_slot_scsi0 } ∷ data_disks pool 1 ds
unfolding disk_options disk_option
disk_options_first pool d ds =
    rw (disk_slot_first d, eq_text_refl disk_slot_scsi0)
      (rw (disk_options-data_disks pool (0 + 1) ds (omega arith)))

boot_disk_created_first : (d : Disk) (ds : List Disk) → boot_disk_created 0 false (d ∷ ds) ≡ true
unfolding boot_disk_created
boot_disk_created_first d ds =
    rw (disk_slot_first d, eq_text_refl disk_slot_scsi0) (boot_disk_created-true (0 + 1) ds)

-- The controller option, if one is set.
abbrev pub controller : Config → List VmOption
controller cfg =
    if not (is_empty cfg.proxmox_scsi_controller)
    then record { name = text "scsihw"; value = str cfg.proxmox_scsi_controller } ∷ []
    else []

-- With disks in the machine's spec, the first becomes scsi0 whatever its name and flag are, and those
-- behind it follow as `data_disks` says: a disk that is named "root" or is flagged as the boot disk is
-- left out unless it comes first.
pub build_storage_options_disks :
    (cfg : Config) (spec : MachineSpec) (d : Disk) (ds : List Disk)
    → spec.disks ≡ d ∷ ds
    → build_storage_options cfg spec
      ≡ controller cfg
        ++ record (disk_option cfg.proxmox_default_storage 0 d) { name = disk_slot_scsi0 }
          ∷ data_disks cfg.proxmox_default_storage 1 ds
unfolding build_storage_options
build_storage_options_disks cfg spec d ds e =
    rw (e, disk_options_first cfg.proxmox_default_storage d ds, boot_disk_created_first d ds)
      (append-nil _)

-- With no disk in the machine's spec the VM gets one, scsi0 of the default size.
pub build_storage_options_default :
    (cfg : Config) (spec : MachineSpec)
    → spec.disks ≡ []
    → build_storage_options cfg spec
      ≡ controller cfg
        ++ record {
          name = disk_slot_scsi0;
          value = str (cfg.proxmox_default_storage ++ b':' ∷ itoa default_disk_size_gb);
        }
          ∷ []
unfolding build_storage_options disk_options boot_disk_created
build_storage_options_default cfg spec e = rw e (rw append-nil)

-- No text stands twice in the list.
abbrev pub Distinct : List Text → Type 0
Distinct [] = Unit
Distinct (x ∷ xs) = All (λ y. x ≢ y) xs × Distinct xs

-- Every slot is that of an index from `n` on.
abbrev SlotsFrom : ℕ → List Text → Type 0
SlotsFrom n = All (λ s. (i : ℕ) × (s ≡ scsi i) × (n ≤ i))

abbrev pub names : List VmOption → List Text
names = map (λ o. o.name)

SlotsFrom-mono : (m n : ℕ) (xs : List Text) → m ≤ n → SlotsFrom n xs → SlotsFrom m xs
SlotsFrom-mono m n [] h a = tt
SlotsFrom-mono m n (x ∷ xs) h ((i, e, k), a) = ((i, e, omega arith), SlotsFrom-mono m n xs h a)

SlotsFrom-ne : (n i : ℕ) (xs : List Text) → i < n → SlotsFrom n xs → All (λ y. scsi i ≢ y) xs
SlotsFrom-ne n i [] h a = tt
SlotsFrom-ne n i (x ∷ xs) h ((j, e, k), a) =
    ((λ p. absurd (omega (arith, scsi-injective i j (p ∙ e)))), SlotsFrom-ne n i xs h a)

data_disks-SlotsFrom :
    (pool : Text) (i : ℕ) (ds : List Disk) → SlotsFrom i (names (data_disks pool i ds))
data_disks-SlotsFrom pool i [] = tt
data_disks-SlotsFrom pool i (d ∷ ds) = elim (Bool-cases (is_root d)) [
  | inl e ↦ rw e (SlotsFrom-mono i (i + 1) _ (omega arith) (data_disks-SlotsFrom pool (i + 1) ds))
  | inr e ↦ rw e (
    (i, refl, omega arith),
    SlotsFrom-mono i (i + 1) _ (omega arith) (data_disks-SlotsFrom pool (i + 1) ds),
  )
]

data_disks-Distinct :
    (pool : Text) (i : ℕ) (ds : List Disk) → Distinct (names (data_disks pool i ds))
data_disks-Distinct pool i [] = tt
data_disks-Distinct pool i (d ∷ ds) = elim (Bool-cases (is_root d)) [
  | inl e ↦ rw e (data_disks-Distinct pool (i + 1) ds)
  | inr e ↦ rw e (
    SlotsFrom-ne (i + 1) i _ (omega arith) (data_disks-SlotsFrom pool (i + 1) ds),
    data_disks-Distinct pool (i + 1) ds,
  )
]

-- No two disks of a VM share a slot.
pub disk_options-Distinct :
    (pool : Text) (ds : List Disk) → Distinct (names (disk_options pool 0 false ds))
disk_options-Distinct pool [] = unfold disk_options in tt
disk_options-Distinct pool (d ∷ ds) = rw (disk_options_first pool d ds) (
  rw (← scsi-zero) (SlotsFrom-ne 1 0 _ (omega arith) (data_disks-SlotsFrom pool 1 ds)),
  data_disks-Distinct pool 1 ds,
)
