-- ===== src/Tests/Ids.antt =====
-- Two machines with the same sum of bytes in their UIDs, created one after the other.
use proxmox_operator.Base.{inl, inr, ◌∷◌, [], Option, none, some, false, arith}
use proxmox_operator.Base.Text.{text, eq_text}
use proxmox_operator.Base.Errors.{Result, ok, err}
use proxmox_operator.World
use proxmox_operator.Base.Int.{pos, int64, ◌+ℤ◌}
use proxmox_operator.World.{World, Log, Vm, ◌>>=◌, call, return, time}
use proxmox_operator.Controller.Reconcile.{
  reconcile, reconcile_machine, reconcile_live, ensure_finalizer, reconcile_by_phase,
}
use proxmox_operator.Controller.Create.{
  is_listed, sum_bytes, reconcile_create, check_existing_vm, start_create, place, create_on_node,
  find_available_vmid, generate_vmid, find_vmid, create_with_id, generate_mac, create_with_mac,
  get_vlan_tag, validate_iso, provision, await_created, verify_created, mark_missing,
  record_created, publish_mac,
}
use proxmox_operator.Controller.Status.{
  update_vm_status, set_condition, put_condition, update_status_with_retry,
}
use proxmox_operator.NodeSelection.{select_node, filter_allowed_nodes}
use proxmox_operator.MacAddress.{generate_mac_address}
use proxmox_operator.Controller.VmCalls.{vm_calls}
use proxmox_operator.Tests.Data.{web, missing_error, empty_cluster}
use proxmox_operator.Controller.History.{started, reconciled}
use proxmox_operator.Controller.History.Ids.{Truthful, Unique, History-Unique}

abbrev the_vm : Vm
the_vm = record {
  vm_name = text "web";
  vm_status = text "stopped";
  vm_cpus = pos 2;
  max_mem = 1073741824;
  agent = false;
  vm_disks = none;
}

-- A VM is shown right after a task was awaited.
abbrev shown_after : Log → Result (Option Vm)
shown_after (World.wait task a ∷ log) = ok (some the_vm)
shown_after _ = err missing_error

-- And the first ID that is asked for is taken.
abbrev taken_first : Log → Result (Option Vm)
taken_first (World.wait task a ∷ log) = ok (some the_vm)
taken_first (World.get_node_names a ∷ log) = ok (some the_vm)
taken_first _ = err missing_error

abbrev first_cluster : World
first_cluster = record empty_cluster { vm_answer = λ node vm_id log. shown_after log }

abbrev second_cluster : World
second_cluster = record empty_cluster {
  machine_answer = λ log. ok (record web { name = text "db" });
  vm_answer = λ node vm_id log. taken_first log;
}

abbrev both_created : Log
both_created = (reconcile second_cluster (reconcile first_cluster []).1).1

both_created-Truthful : Truthful (vm_calls both_created)
unfolding reconcile reconcile_machine reconcile_live ensure_finalizer reconcile_by_phase ◌>>=◌ call
    return time reconcile_create check_existing_vm start_create set_condition put_condition
    update_status_with_retry place select_node create_on_node find_available_vmid generate_vmid
    find_vmid create_with_id generate_mac create_with_mac get_vlan_tag validate_iso provision
    await_created verify_created mark_missing text eq_text int64 is_listed filter_allowed_nodes ◌+ℤ◌
    sum_bytes generate_mac_address record_created update_vm_status publish_mac
both_created-Truthful = (
  (λ l f. f),
  (
    (λ l f. elim l [ inl (p, q) ↦ absurd (ground (arith, q)) | inr x ↦ x ]),
    ((λ l f. f), ((λ l f. f), ((λ l f. l), tt))),
  ),
)

History-Unique_example : Unique (vm_calls both_created)
History-Unique_example =
    History-Unique 2 both_created (reconciled second_cluster (reconciled first_cluster started))
      both_created-Truthful
