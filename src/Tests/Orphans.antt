-- ===== src/Tests/Orphans.antt =====
-- What a failed task of a creation, a stop or a deletion leads to.
use proxmox_operator.Base.{◌≡◌, refl, ℕ, suc, none, some, [], ◌∷◌, List, true, false}
use proxmox_operator.Base.Text.{Text, text, eq_text}
use proxmox_operator.Base.Errors.{Error, ok, err, other_reason}
use proxmox_operator.Crd.{Machine}
use proxmox_operator.World.{
  World, Log, Vm, Task, get_vm, stop_vm, wait, update, update_status, delete_vm, ◌>>=◌, call,
  return, time,
}
use proxmox_operator.Base.Int.{pos, int64, ◌+ℤ◌}
use proxmox_operator.Controller.Reconcile.{
  reconcile, reconcile_machine, reconcile_live, ensure_finalizer, reconcile_by_phase,
  handle_deletion, terminate_and_release, release, remove_finalizer, without,
}
use proxmox_operator.Controller.Terminate.{
  reconcile_terminating, terminate_vm, stop_and_delete, stop, delete, await_deleted, finish,
}
use proxmox_operator.ProviderId
use proxmox_operator.NetworkConfiguration
use proxmox_operator.Base.Split.{split}
use proxmox_operator.Base.Decimal.{atoi}
use proxmox_operator.Controller.Create.{mark_failed}
use proxmox_operator.Controller.Create.{
  is_listed, sum_bytes, reconcile_create, check_existing_vm, start_create, place, create_on_node,
  find_available_vmid, generate_vmid, find_vmid, create_with_id, generate_mac, create_with_mac,
  get_vlan_tag, validate_iso, provision, await_created, verify_created, mark_missing,
}
use proxmox_operator.Controller.Status.{set_condition, put_condition, update_status_with_retry}
use proxmox_operator.NodeSelection.{select_node, filter_allowed_nodes}
use proxmox_operator.MacAddress.{generate_mac_address}
use proxmox_operator.Controller.VmCalls.{vm_calls}
use proxmox_operator.Controller.VmCalls.Creation.{creates}
use proxmox_operator.Tests.Data.{running_web, done, web, empty_cluster}

abbrev timeout_error : Error
timeout_error = record { reason = other_reason; message = text "timeout" }

-- The machine with the status that was sent last.
abbrev stored : Log → Machine
stored [] = web
stored (update_status m a ∷ log) = m
stored (_ ∷ log) = stored log

-- The request to create a VM is accepted, and its task is not seen to end.
abbrev slow_cluster : World
slow_cluster = record empty_cluster {
  machine_answer = λ log. ok (stored log);
  waited_answer = λ task log. err timeout_error;
}

-- Then the machine is to be deleted.
abbrev later_cluster : World
later_cluster = record slow_cluster {
  machine_answer = λ log. ok (record (stored log) { deleting = true });
}

abbrev orphaned : Log
orphaned = (reconcile later_cluster (reconcile slow_cluster []).1).1

abbrev deletions : Log → ℕ
deletions [] = 0
deletions (delete_vm node vm_id a ∷ log) = suc (deletions log)
deletions (_ ∷ log) = deletions log

abbrev last_finalizers : Log → List Text
last_finalizers [] = []
last_finalizers (update m a ∷ log) = m.finalizers
last_finalizers (_ ∷ log) = last_finalizers log

-- A VM was requested, no VM was deleted, and the machine lost its finalizer.
vm_left :
    (creates (vm_calls orphaned) ≡ 1) × (deletions orphaned ≡ 0) × (last_finalizers orphaned ≡ [])
unfolding handle_deletion terminate_and_release release remove_finalizer without
    reconcile_terminating mark_failed reconcile reconcile_machine reconcile_live ensure_finalizer
    reconcile_by_phase ◌>>=◌ call return time reconcile_create check_existing_vm start_create
    set_condition put_condition update_status_with_retry place select_node create_on_node
    find_available_vmid generate_vmid find_vmid create_with_id generate_mac create_with_mac
    get_vlan_tag validate_iso provision await_created verify_created mark_missing text eq_text int64
    is_listed filter_allowed_nodes ◌+ℤ◌ sum_bytes generate_mac_address
vm_left = (refl, refl, refl)

-- Each task ends with a failure, and each VM is running.
abbrev locked : Task
locked = record { task_id = text "UPID:2"; exit_status = text "VM is locked" }

abbrev running_vm : Vm
running_vm = record {
  vm_name = text "web";
  vm_status = text "running";
  vm_cpus = pos 2;
  max_mem = 1073741824;
  agent = false;
  vm_disks = none;
}

abbrev locked_cluster : World
locked_cluster = record empty_cluster {
  machine_answer = λ log. ok (record running_web { deleting = true });
  vm_answer = λ node vm_id log. ok (some running_vm);
  waited_answer = λ task log. ok locked;
}

abbrev kept_vm : Log
kept_vm = (reconcile locked_cluster []).1

-- The stop failed, the deletion was requested and failed, too, and the machine lost its finalizer.
running_vm_left :
    (vm_calls kept_vm
      ≡ wait done (ok locked)
        ∷ delete_vm (text "pve1") (pos 2146) (ok done)
        ∷ wait done (ok locked)
        ∷ stop_vm (text "pve1") (pos 2146) (ok done)
        ∷ get_vm (text "pve1") (pos 2146) (ok (some running_vm))
        ∷ [])
    × (last_finalizers kept_vm ≡ [])
unfolding handle_deletion terminate_and_release release remove_finalizer without
    reconcile_terminating reconcile reconcile_machine ◌>>=◌ call return time set_condition
    put_condition update_status_with_retry text eq_text is_listed ProviderId.parse split atoi
    terminate_vm stop_and_delete stop delete await_deleted finish NetworkConfiguration.delete
running_vm_left = (refl, refl)
