-- ===== src/Tests/Lifecycle.antt =====
-- The theorems on whole reconciliations for machines of the small cluster.
use proxmox_operator.Base.{true, ◌≡◌, ◌⊎◌, ◌≤◌, ◌<◌, ◌+◌, ℕ, refl, [], length, arith}
use proxmox_operator.Base.Int.{pos}
use proxmox_operator.Base.Text.{text}
use proxmox_operator.Base.Errors.{ok}
use proxmox_operator.Crd.{Phase, failed, Machine}
use proxmox_operator.World.{World, Log}
use proxmox_operator.Controller.Create.{find_available_vmid}
use proxmox_operator.Controller.Create.VmId.Bounds.{find_available_vmid_range}
use proxmox_operator.Controller.Terminate.Stopping.{Careful}
use proxmox_operator.Controller.Reconcile.{reconcile, by_phase}
use proxmox_operator.Controller.VmCalls.{vm_calls}
use proxmox_operator.Controller.VmCalls.Creation.{creates, Guarded}
use proxmox_operator.Controller.History.{started, reconciled, History-Guarded}
use proxmox_operator.Controller.Reconcile.Finalizer.{KeepsIds, Releasing, reconcile-Releasing}
use proxmox_operator.Controller.History.Deletions.{History-Careful}
use proxmox_operator.Controller.Footprint.Phases.{phase_kinds, by_phase-Makes}
use proxmox_operator.World.Makes.{Makes}
use proxmox_operator.Controller.Calls.Reconcile.{reconcile_bound}
use proxmox_operator.Controller.Lifecycle.{Stores, Walk}
use proxmox_operator.Controller.Lifecycle.Path.{reconcile-Walk}
use proxmox_operator.Controller.Lifecycle.Idle.{LeftAlone, reconcile-LeftAlone}
use proxmox_operator.Tests.Data.{small, web, running_web, empty_cluster, full_cluster}

abbrev failed_web : Machine
failed_web = record web { status = record web.status { phase = failed } }

-- The cluster with a machine whose creation has failed.
abbrev failed_cluster : World
failed_cluster = record empty_cluster { machine_answer = λ log. ok failed_web }

empty_cluster-Stores : Stores empty_cluster
empty_cluster-Stores = record {
  stores_status = λ m m' log h. ground arith;
  keeps_status = λ m m' log h. ground arith;
}

failed_cluster-Stores : Stores failed_cluster
failed_cluster-Stores = record {
  stores_status = λ m m' log h. ground arith;
  keeps_status = λ m m' log h. ground arith;
}

reconcile-Walk_example :
    (last : Phase) × Walk [] web.status.phase last (reconcile empty_cluster []).1
reconcile-Walk_example = reconcile-Walk empty_cluster web [] empty_cluster-Stores refl

reconcile-LeftAlone_example :
    LeftAlone failed_web [] (reconcile failed_cluster []).0 (reconcile failed_cluster []).1
reconcile-LeftAlone_example =
    reconcile-LeftAlone failed_cluster failed_web [] failed_cluster-Stores refl refl refl

History-Guarded_example :
    (creates (vm_calls (reconcile full_cluster (reconcile empty_cluster []).1).1) ≤ 2)
    × Guarded (vm_calls (reconcile full_cluster (reconcile empty_cluster []).1).1)
History-Guarded_example =
    History-Guarded 2 (reconcile full_cluster (reconcile empty_cluster []).1).1
      (reconciled full_cluster (reconciled empty_cluster started))

find_available_vmid_range_example :
    let vm_id = (find_available_vmid empty_cluster web (text "pve1") []).0 in
    (vm_id ≡ pos 0) ⊎ ((n : ℕ) × (vm_id ≡ pos n) × (2000 ≤ n) × (n < 2000 + 1099))
find_available_vmid_range_example =
    find_available_vmid_range empty_cluster web (text "pve1") [] 2000 refl (omega arith)
      (omega arith)

abbrev no_calls : Log
no_calls = []

reconcile_bound_example : length (reconcile empty_cluster no_calls).1 ≤ 120 + length no_calls
reconcile_bound_example = reconcile_bound empty_cluster no_calls

-- The machine with a VM, which is to be deleted.
abbrev leaving_web : Machine
leaving_web = record running_web { deleting = true }

abbrev leaving_cluster : World
leaving_cluster = record full_cluster { machine_answer = λ log. ok leaving_web }

leaving_cluster-KeepsIds : KeepsIds leaving_cluster
leaving_cluster-KeepsIds = λ m m' log h. ground arith

reconcile-Releasing_example :
    Releasing leaving_web.status.provider_id no_calls (reconcile leaving_cluster no_calls).1
reconcile-Releasing_example =
    reconcile-Releasing leaving_cluster leaving_web no_calls leaving_cluster-KeepsIds refl

History-Careful_example : Careful (vm_calls (reconcile leaving_cluster no_calls).1)
History-Careful_example =
    History-Careful 1 (reconcile leaving_cluster no_calls).1 (reconciled leaving_cluster started)

by_phase-Makes_example :
    Makes
      (phase_kinds Phase.terminating)
      (by_phase full_cluster Phase.terminating running_web small)
by_phase-Makes_example = by_phase-Makes full_cluster Phase.terminating running_web small
