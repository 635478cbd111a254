-- ===== src/Controller/Create.antt =====
-- machine_reconcile_phases.go, lines 37 to 202 and 331 to 360: the creation of a VM. Each function goes on
-- with the next one, as the code does behind its early returns.
pub mod Inputs
pub mod VmId
pub mod Recorded
pub mod Outcome
pub mod Image
pub mod Success
use proxmox_operator.Base.{
  ℕ, zero, suc, ◌+◌, ◌%◌, List, [], ◌∷◌, ◌++◌, Option, none, some, Bool, true, false, not, ◌&&◌,
  ◌||◌, if◌then◌else◌,
}
use proxmox_operator.Base.Int.{ℤ, pos, is_zero, int64, ◌+ℤ◌}
use proxmox_operator.Base.Text.{Text, text, eq_text, is_empty, has_prefix}
use proxmox_operator.Base.Split.{split_once, join}
use proxmox_operator.Base.Decimal.{itoa}
use proxmox_operator.Base.Errors.{Error, Result, ok, err, errorf, wrap}
use proxmox_operator.Crd.{Phase, creating, running, failed, Machine, MachineClass, proxmox}
use proxmox_operator.ProviderId
use proxmox_operator.MacAddress.{Bytes6, generate_mac_address}
use proxmox_operator.NodeSelection
use proxmox_operator.NetworkConfiguration
use proxmox_operator.VmBuilder.{VmOption, build_options}
use proxmox_operator.World.{
  World, Vm, Task, get_network_namespace, list_network_namespaces, get_node_names, get_vm,
  create_vm, wait, get_node, get_storage, get_content, read_random, M, ◌>>=◌, ◌>>◌, return, call,
  time,
}
unfoldable pub use proxmox_operator.Controller.Create.Inputs.*
use proxmox_operator.Controller.Status.{
  with_status, with_phase, with_message, update_status_with_retry, set_condition, update_vm_status,
}

-- `ctrl.Result`: no requeue, or one after some seconds.
pub data Requeue : Type 0 where
  no_requeue : Requeue
  requeue_after : ℕ → Requeue

abbrev pub message_or : Option Text → Machine → Machine
message_or none m = m
message_or (some t) m = with_message t m

-- An error of a status update is the reconciliation's error.
abbrev pub report : Requeue → Option Error → M (Result Requeue)
report r none = return (ok r)
report r (some e) = return (err e)

-- So is the given error if there is none.
abbrev pub fail_after : Option Error → Error → M (Result Requeue)
fail_after none e = return (err e)
fail_after (some e') e = return (err e')

module _ (w : World) where
  -- The machine becomes Failed: its message, if one is given, the condition, a status update whose
  -- result is ignored, and the error.
  unfoldable pub mark_failed : Option Text → Text → Text → Error → Machine → M (Result Requeue)
  mark_failed message reason condition e m = do
    m' ← set_condition w (text "False") reason condition (message_or message (with_phase failed m))
    update_status_with_retry w m'
    return (err e)

  -- The NetworkConfiguration is created where it is the source of addresses; an error is logged.
  unfoldable pub publish_mac : Machine → Text → ℤ → M (Option Error)
  publish_mac m mac vlan =
      if eq_text w.config.ip_source (text "networkconfiguration") && not (is_empty mac)
      then NetworkConfiguration.create w m mac vlan
      else return none

  -- The end of `reconcileCreate`: the status of the machine whose VM now exists.
  unfoldable pub record_created : Machine → Option Vm → Text → ℤ → Text → ℤ → M (Result Requeue)
  record_created m vm node vm_id mac vlan = do
    publish_mac m mac vlan
    now ← time w
    m1 ← update_vm_status w vm node (
        with_status m (record m.status {
          phase = running;
          provider_id = ProviderId.build node vm_id;
          machine_id = itoa vm_id;
          provider = some proxmox;
          region = node;
          zone = node;
          creation_time = some now;
        }))
    m2 ←
        set_condition w (text "True") (text "VMRunning")
          (text "VM successfully created and running") m1
    saved ← update_status_with_retry w m2
    report no_requeue saved.0

  -- The VM is not there after its creation: an error of the status update comes first.
  unfoldable pub mark_missing : Error → Machine → M (Result Requeue)
  mark_missing e m = do
    m' ←
        set_condition w (text "False") (text "VMCreationFailed")
          (text "VM creation task completed but VM does not exist: " ++ e.message)
          (with_phase failed m)
    saved ← update_status_with_retry w m'
    fail_after saved.0 (wrap (text "VM creation task completed but VM does not exist: ") e)

  unfoldable pub verify_created : Machine → Text → ℤ → Text → ℤ → M (Result Requeue)
  verify_created m node vm_id mac vlan = do
    found ← call (w.vm_answer node vm_id) (get_vm node vm_id)
    elim found [ err e ↦ mark_missing e m | ok vm ↦ record_created m vm node vm_id mac vlan ]

  abbrev exit_message : Task → Text
  exit_message task = text "VM creation task exited with status: " ++ task.exit_status

  abbrev pub exited_well : Task → Bool
  exited_well task = eq_text task.exit_status (text "OK") || is_empty task.exit_status

  unfoldable pub await_created : Machine → Task → Text → ℤ → Text → ℤ → M (Result Requeue)
  await_created m task node vm_id mac vlan = do
    done ← call (w.waited_answer task) (wait task)
    elim done [
      | err e ↦
          mark_failed (some e.message) (text "VMProvisioningFailed")
            (text "VM creation task failed: " ++ e.message) e m
      | ok task' ↦
          if exited_well task'
          then verify_created m node vm_id mac vlan
          else mark_failed (some (exit_message task')) (text "VMProvisioningFailed")
              (exit_message task') (errorf (exit_message task')) m
    ]

  unfoldable pub provision : Machine → Text → ℤ → Text → ℤ → List VmOption → M (Result Requeue)
  provision m node vm_id mac vlan options = do
    started ← call (w.created_answer node vm_id options) (create_vm node vm_id options)
    elim started [
      | err e ↦
          mark_failed (some e.message) (text "VMCreationFailed")
            (text "Failed to create VM: " ++ e.message) e m
      | ok task ↦ await_created m task node vm_id mac vlan
    ]

  -- The image is checked if the machine names one.
  abbrev pub check_image : Machine → Text → M (Option Error)
  check_image m node =
      if not (is_empty m.spec.image_id) then validate_iso w node m.spec.image_id else return none

  unfoldable pub create_with_mac : Machine → MachineClass → Text → ℤ → Text → M (Result Requeue)
  create_with_mac m class node vm_id mac = do
    vlan ← get_vlan_tag w m
    invalid ← check_image m node
    elim invalid [
      | some e ↦
          mark_failed (some (text "ISO validation failed: " ++ e.message))
            (text "ISOValidationFailed") (text "ISO validation failed: " ++ e.message) e m
      | none ↦ provision m node vm_id mac vlan (
          build_options w.config m.spec class
            (record { mac_address = mac; vlan = vlan; mtu = get_mtu w m }))
    ]

  unfoldable pub create_with_id : Machine → MachineClass → Text → ℤ → M (Result Requeue)
  create_with_id m class node vm_id = do
    mac ← generate_mac w
    elim mac [
      | err e ↦
          mark_failed (some (text "Failed to generate MAC address: " ++ e.message))
            (text "MACAddressGenerationFailed")
            (text "Failed to generate MAC address: " ++ e.message) e m
      | ok mac' ↦ create_with_mac m class node vm_id mac'
    ]

  unfoldable pub create_on_node : Machine → MachineClass → Text → M (Result Requeue)
  create_on_node m class node = do
    vm_id ← find_available_vmid w m node
    if is_zero vm_id
        then mark_failed (some (text "No available VMID found - all IDs in range are in use"))
            (text "NoAvailableVMID") (text "No available VMID found after checking range")
            (errorf (text "no available VMID found")) m
        else create_with_id m class node vm_id

  unfoldable pub place : Machine → MachineClass → M (Result Requeue)
  place m class = do
    names ← call w.node_names_answer get_node_names
    elim (choose w names) [
      | err e ↦
          mark_failed none (text "NodeSelectionFailed")
            (text "Failed to select Proxmox node: " ++ e.message) e m
      | ok node ↦ create_on_node m class node
    ]

  -- `checkExistingVM`: its error, and the machine, which is changed also where the status update
  -- fails.
  abbrev pub adopt : Machine → Option Vm → Text → M (Option Error × Machine)
  adopt m none node = return (some (errorf (text "VM not found")), m)
  adopt m (some vm) node = do
    m1 ← update_vm_status w (some vm) node (with_phase running m)
    m2 ←
        set_condition w (text "True") (text "VMRunning") (text "VM already exists and is running")
          m1
    update_status_with_retry w m2

  abbrev pub find_existing : Machine → Text → ℤ → M (Option Error × Machine)
  find_existing m node vm_id = do
    found ← call (w.vm_answer node vm_id) (get_vm node vm_id)
    elim found [ err e ↦ return (some (errorf (text "VM not found")), m) | ok vm ↦ adopt m vm node ]

  unfoldable pub check_existing_vm : Machine → M (Option Error × Machine)
  check_existing_vm m =
      if is_empty m.status.machine_id
      then return (some (errorf (text "no existing VM")), m)
      else elim (ProviderId.parse m.status.provider_id) [
        | err e ↦ return (some e, m)
        | ok id ↦ find_existing m id.0 id.1
      ]

  -- The phase Creating is saved before anything is created.
  unfoldable pub start_create : Machine → MachineClass → M (Result Requeue)
  start_create m class = do
    m1 ←
        set_condition w (text "False") (text "Creating") (text "VM creation in progress")
          (with_phase creating m)
    saved ← update_status_with_retry w m1
    elim saved.0 [ some e ↦ return (err e) | none ↦ place saved.1 class ]

  unfoldable pub reconcile_create : Machine → MachineClass → M (Result Requeue)
  reconcile_create m class = do
    existing ← check_existing_vm m
    elim existing.0 [ none ↦ return (ok no_requeue) | some e ↦ start_create existing.1 class ]

  -- `reconcileCreating`
  unfoldable pub reconcile_creating : Machine → M (Result Requeue)
  reconcile_creating m = return (ok no_requeue)
