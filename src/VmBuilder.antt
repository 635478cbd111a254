-- ===== src/VmBuilder.antt =====
-- internal/services/vmbuilder/vmbuilder.go: the options with which a VM is created.
pub mod Disks
pub mod Network
pub mod Placed
pub mod Names
use proxmox_operator.Base.{
  ℕ, ◌+◌, ◌/◌, List, [], ◌∷◌, ◌++◌, Bool, true, false, not, ◌&&◌, ◌||◌, if◌then◌else◌, ◌==◌,
}
use proxmox_operator.Base.Int.{ℤ, pos, negsuc, is_positive, is_zero}
use proxmox_operator.Base.Text.{Text, text, eq_text, is_empty}
use proxmox_operator.Base.Decimal.{itoa, digits}
use proxmox_operator.Config.{
  Config, default_disk_size_gb, disk_slot_scsi0, net_slot0, default_network_model,
}
use proxmox_operator.Crd.{MachineSpec, MachineClass, Disk}

pub data Value : Type 0 where
  int : ℤ → Value
  str : Text → Value

-- `proxmox.VirtualMachineOption`
pub record VmOption : Type 0 where
  pub name : Text
  pub value : Value

pub record NetworkConfig : Type 0 where
  pub mac_address : Text
  pub vlan : ℤ
  pub mtu : ℤ

abbrev pub option : Text → Value → List VmOption
option name value = record { name = name; value = value } ∷ []

-- `append(options, option)` under a test.
abbrev pub option_if : Bool → Text → Value → List VmOption
option_if test name value = if test then option name value else []

unfoldable pub build_cpu_options : Config → MachineSpec → MachineClass → List VmOption
build_cpu_options cfg spec class =
    (if is_positive spec.cpu_cores
      then option (text "cores") (int spec.cpu_cores)
      else option_if (is_positive class.cpu_cores) (text "cores") (int class.cpu_cores))
    ++ option_if (not (is_empty cfg.proxmox_default_cpu_type)) (text "cpu")
        (str cfg.proxmox_default_cpu_type)
    ++ option_if cfg.proxmox_enable_numa (text "numa") (int (pos 1))

-- `bytes / (1024 * 1024)` of a positive number.
abbrev megabytes : ℤ → ℤ
megabytes (pos n) = pos (n / 1048576)
megabytes (negsuc n) = pos 0

unfoldable pub memory_mb : MachineSpec → MachineClass → ℤ
memory_mb spec class =
    if is_positive spec.memory
    then megabytes spec.memory
    else if is_positive class.memory
    then megabytes class.memory
    else pos 0

unfoldable pub build_memory_options : MachineSpec → MachineClass → List VmOption
unfolding memory_mb
build_memory_options spec class =
    option_if (is_positive (memory_mb spec class)) (text "memory") (int (memory_mb spec class))

-- The slot of the disk with index `i`.
unfoldable pub disk_slot : ℕ → Disk → Text
disk_slot i disk =
    if eq_text disk.name (text "root") || disk.boot || i == 0
    then disk_slot_scsi0
    else text "scsi" ++ digits i

unfoldable pub disk_option : Text → ℕ → Disk → VmOption
disk_option pool i disk =
    let size_gb = if is_zero disk.size_gb then default_disk_size_gb else disk.size_gb in
    record { name = disk_slot i disk; value = str (pool ++ b':' ∷ itoa size_gb) }

-- The loop over the disks from index `i` on; `created` is the variable `diskCreated`.
unfoldable pub disk_options : Text → ℕ → Bool → List Disk → List VmOption
disk_options pool i created [] = []
disk_options pool i created (disk ∷ disks) =
    let boot_slot = eq_text (disk_slot i disk) disk_slot_scsi0 in
    let skip = boot_slot && created in
    let rest = disk_options pool (i + 1) (created || boot_slot) disks in
    if skip then rest else disk_option pool i disk ∷ rest

-- `diskCreated` after the loop.
unfoldable pub boot_disk_created : ℕ → Bool → List Disk → Bool
boot_disk_created i created [] = created
boot_disk_created i created (disk ∷ disks) =
    boot_disk_created (i + 1) (created || eq_text (disk_slot i disk) disk_slot_scsi0) disks

abbrev no_disks : List Disk → Bool
no_disks [] = true
no_disks (d ∷ ds) = false

unfoldable pub build_storage_options : Config → MachineSpec → List VmOption
build_storage_options cfg spec =
    option_if (not (is_empty cfg.proxmox_scsi_controller)) (text "scsihw")
      (str cfg.proxmox_scsi_controller)
    ++ disk_options cfg.proxmox_default_storage 0 false spec.disks
    ++ option_if (not (boot_disk_created 0 false spec.disks) && no_disks spec.disks) disk_slot_scsi0
        (str (cfg.proxmox_default_storage ++ b':' ∷ itoa default_disk_size_gb))

-- model,bridge=<bridge>[,macaddr=<mac>][,tag=<vlan>][,mtu=<mtu>]
unfoldable pub network_value : Config → NetworkConfig → Text
network_value cfg net =
    let model =
      if is_empty cfg.proxmox_network_model
      then default_network_model
      else cfg.proxmox_network_model in
    let mtu = if is_zero net.mtu then cfg.proxmox_default_mtu else net.mtu in
    model
    ++ text ",bridge="
    ++ cfg.proxmox_default_network
    ++ (if is_empty net.mac_address then [] else text ",macaddr=" ++ net.mac_address)
    ++ (if is_positive net.vlan then text ",tag=" ++ itoa net.vlan else [])
    ++ (if is_positive mtu then text ",mtu=" ++ itoa mtu else [])

abbrev has_interfaces : List Text → Bool
has_interfaces [] = false
has_interfaces (i ∷ is) = true

unfoldable pub build_network_options : Config → MachineSpec → NetworkConfig → List VmOption
build_network_options cfg spec net =
    option_if (has_interfaces spec.interfaces || not (is_empty net.mac_address)) net_slot0
      (str (network_value cfg net))

unfoldable pub build_os_options : MachineSpec → List VmOption
build_os_options spec = option_if (not (is_empty spec.image_id)) (text "cdrom") (str spec.image_id)

unfoldable pub build_misc_options : Config → MachineSpec → List VmOption
build_misc_options cfg spec =
    option_if (not (is_empty spec.name)) (text "name") (str spec.name)
    ++ option_if cfg.proxmox_enable_qemu_agent (text "agent") (int (pos 1))
    ++ option_if cfg.proxmox_start_on_create (text "start") (int (pos 1))

unfoldable pub build_options : Config → MachineSpec → MachineClass → NetworkConfig → List VmOption
build_options cfg spec class net =
    build_cpu_options cfg spec class
    ++ build_memory_options spec class
    ++ build_storage_options cfg spec
    ++ build_network_options cfg spec net
    ++ build_os_options spec
    ++ build_misc_options cfg spec
