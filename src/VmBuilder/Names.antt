-- ===== src/VmBuilder/Names.antt =====
-- The names of the options of a VM.
use proxmox_operator.VmBuilder.Placed.{
  place, Placed, Between, Placed-append, Placed-option, Placed-option_if, Placed-if,
}
use proxmox_operator.Base.{
  ◌==◌, sym, ◌∙◌, ℕ, ◌+◌, ◌≡◌, refl, ap, List, [], ◌∷◌, ◌++◌, Bool, false, not, ◌||◌, ◌&&◌, arith,
  All, if-cases,
}
use proxmox_operator.Base.Text.{eq_text, Text, text, has_prefix, is_empty}
use proxmox_operator.Base.Decimal.{digits}
use proxmox_operator.Config.{disk_slot_scsi0, Config}
use proxmox_operator.Crd.{MachineSpec, MachineClass, Disk}
use proxmox_operator.VmBuilder.{
  pos, network_value, int, memory_mb, str, is_positive, disk_option, NetworkConfig, disk_slot,
  disk_options, build_cpu_options, build_memory_options, build_storage_options,
  build_network_options, build_os_options, build_misc_options, build_options,
}
use mathlib.Core.Path.{subst}
use proxmox_operator.Base.Decimal.RoundTrip.{IsDigit, digits-IsDigit}
use proxmox_operator.VmBuilder.Disks.{
  controller, build_storage_options_default, build_storage_options_disks, disk_options_first,
  Distinct, names, disk_options-Distinct,
}

-- The places of the fixed names.
places :
    (place (text "cores") ≡ 0)
    × (place (text "cpu") ≡ 1)
    × (place (text "numa") ≡ 2)
    × (place (text "memory") ≡ 3)
    × (place (text "scsihw") ≡ 4)
    × (place (text "scsi0") ≡ 5)
    × (place (text "net0") ≡ 6)
    × (place (text "cdrom") ≡ 7)
    × (place (text "name") ≡ 8)
    × (place (text "agent") ≡ 9)
    × (place (text "start") ≡ 10)
unfolding place text has_prefix
places = (refl, refl, refl, refl, refl, refl, refl, refl, refl, refl, refl)

digits-place : (ds : Text) → All IsDigit ds → place (text "scsi" ++ ds) ≡ 5
unfolding place text has_prefix
digits-place [] h = refl
digits-place (d ∷ ds) ((l, u), h) = ground arith

disk_slot-place : (i : ℕ) (d : Disk) → place (disk_slot i d) ≡ 5
unfolding disk_slot
disk_slot-place i d =
    let (_, _, _, _, _, scsi0, _, _, _, _, _) = places in
    if-cases (λ s. place s ≡ 5) (eq_text d.name (text "root") || d.boot || i == 0) (λ h. scsi0)
      (λ h. digits-place (digits i) (digits-IsDigit i))

module _ (cfg : Config) (spec : MachineSpec) where
  build_cpu_options-Placed : (class : MachineClass) → Placed 0 3 (build_cpu_options cfg spec class)
  unfolding build_cpu_options
  build_cpu_options-Placed class =
      let (cores, cpu, numa, _, _, _, _, _, _, _, _) = places in
      Placed-append 0 2 3 (omega arith) (omega arith)
        (Placed-append 0 1 2 (omega arith) (omega arith)
          (Placed-if 0 1 (is_positive spec.cpu_cores)
            (Placed-option 0 (text "cores") (int spec.cpu_cores) cores)
            (Placed-option_if 0 (is_positive class.cpu_cores) (text "cores") (int class.cpu_cores)
              cores))
          (Placed-option_if 1 (not (is_empty cfg.proxmox_default_cpu_type)) (text "cpu")
            (str cfg.proxmox_default_cpu_type) cpu))
        (Placed-option_if 2 cfg.proxmox_enable_numa (text "numa") (int (pos 1)) numa)

  build_memory_options-Placed :
      (class : MachineClass) → Placed 3 4 (build_memory_options spec class)
  unfolding build_memory_options
  build_memory_options-Placed class =
      let (_, _, _, memory, _, _, _, _, _, _, _) = places in
      Placed-option_if 3 (is_positive (memory_mb spec class)) (text "memory")
        (int (memory_mb spec class)) memory

  disk_options-inside :
      (pool : Text) (i : ℕ) (created : Bool) (ds : List Disk)
      → All (Between 5 6) (names (disk_options pool i created ds))
  unfolding disk_options disk_option
  disk_options-inside pool i created [] = tt
  disk_options-inside pool i created (d ∷ ds) =
      if-cases (λ os. All (Between 5 6) (names os))
        (eq_text (disk_slot i d) disk_slot_scsi0 && created)
        (λ h. disk_options-inside pool (i + 1) _ ds)
        (λ h. (
          (omega (arith, disk_slot-place i d), omega (arith, disk_slot-place i d)),
          disk_options-inside pool (i + 1) _ ds,
        ))

  disk_options-Placed : Placed 5 6 (disk_options cfg.proxmox_default_storage 0 false spec.disks)
  disk_options-Placed = record {
    distinct = disk_options-Distinct cfg.proxmox_default_storage spec.disks;
    inside = disk_options-inside cfg.proxmox_default_storage 0 false spec.disks;
  }

  build_network_options-Placed :
      (net : NetworkConfig) → Placed 6 7 (build_network_options cfg spec net)
  unfolding build_network_options
  build_network_options-Placed net =
      let (_, _, _, _, _, _, net0, _, _, _, _) = places in
      Placed-option_if 6 _ (text "net0") (str (network_value cfg net)) net0

  build_os_options-Placed : Placed 7 8 (build_os_options spec)
  unfolding build_os_options
  build_os_options-Placed =
      let (_, _, _, _, _, _, _, cdrom, _, _, _) = places in
      Placed-option_if 7 (not (is_empty spec.image_id)) (text "cdrom") (str spec.image_id) cdrom

  build_misc_options-Placed : Placed 8 11 (build_misc_options cfg spec)
  unfolding build_misc_options
  build_misc_options-Placed =
      let (_, _, _, _, _, _, _, _, name, agent, start) = places in
      Placed-append 8 10 11 (omega arith) (omega arith)
        (Placed-append 8 9 10 (omega arith) (omega arith)
          (Placed-option_if 8 (not (is_empty spec.name)) (text "name") (str spec.name) name)
          (Placed-option_if 9 cfg.proxmox_enable_qemu_agent (text "agent") (int (pos 1)) agent))
        (Placed-option_if 10 cfg.proxmox_start_on_create (text "start") (int (pos 1)) start)

  controller-Placed : Placed 4 5 (controller cfg)
  controller-Placed =
      let (_, _, _, _, scsihw, _, _, _, _, _, _) = places in
      Placed-option_if 4 (not (is_empty cfg.proxmox_scsi_controller)) (text "scsihw")
        (str cfg.proxmox_scsi_controller) scsihw

  storage-Placed : (ds : List Disk) → spec.disks ≡ ds → Placed 4 6 (build_storage_options cfg spec)
  storage-Placed [] e =
      let (_, _, _, _, _, scsi0, _, _, _, _, _) = places in
      subst (Placed 4 6) (sym (build_storage_options_default cfg spec e)) (
        Placed-append 4 5 6 (omega arith) (omega arith) controller-Placed
          (Placed-option 5 disk_slot_scsi0 _ scsi0))
  storage-Placed (d ∷ ds) e =
      subst (Placed 4 6) (sym (build_storage_options_disks cfg spec d ds e)) (
        Placed-append 4 5 6 (omega arith) (omega arith) controller-Placed (
          subst (Placed 5 6)
            (ap (disk_options cfg.proxmox_default_storage 0 false) e
              ∙ disk_options_first cfg.proxmox_default_storage d ds)
            disk_options-Placed))

  -- No two options with which a VM is created have the same name.
  pub build_options-Distinct :
      (class : MachineClass) (net : NetworkConfig)
      → Distinct (names (build_options cfg spec class net))
  unfolding build_options
  build_options-Distinct class net =
      (Placed-append 0 8 11 (omega arith) (omega arith)
        (Placed-append 0 7 8 (omega arith) (omega arith)
          (Placed-append 0 6 7 (omega arith) (omega arith)
            (Placed-append 0 4 6 (omega arith) (omega arith)
              (Placed-append 0 3 4 (omega arith) (omega arith) (build_cpu_options-Placed class)
                (build_memory_options-Placed class))
              (storage-Placed spec.disks refl))
            (build_network_options-Placed net))
          build_os_options-Placed)
        build_misc_options-Placed).distinct
