-- ===== src/Tests/Conflicts.antt =====
-- What a conflict on saving the phase Creating leads to.
use proxmox_operator.Base.{◌≡◌, refl, []}
use proxmox_operator.Base.Text.{text, eq_text}
use proxmox_operator.Base.Errors.{Error, err, conflict}
use proxmox_operator.Base.Int.{int64, ◌+ℤ◌}
use proxmox_operator.World.{World, Log, ◌>>=◌, call, return, time}
use proxmox_operator.Controller.Reconcile.{
  reconcile, reconcile_machine, reconcile_live, ensure_finalizer, reconcile_by_phase,
}
use proxmox_operator.Controller.Create.{
  is_listed, sum_bytes, reconcile_create, check_existing_vm, start_create, place, create_on_node,
  find_available_vmid, generate_vmid, find_vmid, create_with_id, generate_mac, create_with_mac,
  get_vlan_tag, validate_iso, provision, await_created, verify_created, mark_missing,
}
use proxmox_operator.Controller.Status.{set_condition, put_condition, update_status_with_retry}
use proxmox_operator.NodeSelection.{select_node, filter_allowed_nodes}
use proxmox_operator.MacAddress.{generate_mac_address}
use proxmox_operator.Controller.VmCalls.{vm_calls}
use proxmox_operator.Controller.VmCalls.Creation.{creates}
use proxmox_operator.Tests.Data.{empty_cluster}

abbrev conflict_error : Error
conflict_error = record { reason = conflict; message = text "the object has been modified" }

-- Every status update meets a conflict, and so the machine stays new.
abbrev busy_cluster : World
busy_cluster = record empty_cluster { update_status_answer = λ m log. err conflict_error }

abbrev twice : Log
twice = (reconcile busy_cluster (reconcile busy_cluster []).1).1

-- The conflicts are taken for successes, and two reconciliations create two VMs.
two_vms : creates (vm_calls twice) ≡ 2
unfolding reconcile reconcile_machine reconcile_live ensure_finalizer reconcile_by_phase ◌>>=◌ call
    return time reconcile_create check_existing_vm start_create set_condition put_condition
    update_status_with_retry place select_node create_on_node find_available_vmid generate_vmid
    find_vmid create_with_id generate_mac create_with_mac get_vlan_tag validate_iso provision
    await_created verify_created mark_missing text eq_text int64 is_listed filter_allowed_nodes ◌+ℤ◌
    sum_bytes generate_mac_address
two_vms = refl
