-- ===== src/Tests/Machines.antt =====
-- The controller's theorems for a machine of the small cluster.
use proxmox_operator.Base.{[]}
use proxmox_operator.Base.Text.{text}
use proxmox_operator.Controller.Create.{max_attempts, generate_vmid, find_available_vmid, place}
use proxmox_operator.Controller.Create.VmId.{Found, find_available_vmid-Found}
use proxmox_operator.Controller.Create.Outcome.{place_outcome}
use proxmox_operator.Controller.Create.Recorded.{Ended}
use proxmox_operator.Controller.Run.{reconcile_running}
use proxmox_operator.Controller.Run.Watch.{Watched, reconcile_running_outcome}
use proxmox_operator.Tests.Data.{web, running_web, empty_cluster, full_cluster, small}

place_outcome_example : let (r, after) = place empty_cluster web small [] in Ended r after
place_outcome_example = place_outcome empty_cluster web small []

reconcile_running_outcome_example :
    Watched full_cluster running_web [] (reconcile_running full_cluster running_web []).1
reconcile_running_outcome_example = reconcile_running_outcome full_cluster running_web []

find_available_vmid-Found_example :
    let (vm_id, after) = find_available_vmid full_cluster web (text "pve1") [] in
    Found (text "pve1") (generate_vmid full_cluster web) max_attempts 0 [] vm_id after
find_available_vmid-Found_example = find_available_vmid-Found full_cluster web (text "pve1") []
