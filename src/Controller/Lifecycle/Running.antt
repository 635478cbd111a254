-- ===== src/Controller/Lifecycle/Running.antt =====
-- The phases that watching a running machine sends.
use proxmox_operator.Base.{◌≡◌, refl, ◌∙◌, Option}
use proxmox_operator.Base.Int.{ℤ}
use proxmox_operator.Base.Text.{Text}
use proxmox_operator.Base.Errors.{Result}
use proxmox_operator.Crd.{Phase, running, Machine}
use proxmox_operator.ProviderId
use proxmox_operator.World.{World, Vm, Log, M}
use proxmox_operator.World.Triple.{Triple, Triple-bind, Triple-before, Triple-result, Triple-either}
use proxmox_operator.Controller.Create.{Requeue}
use proxmox_operator.Controller.Run.{refresh, mark_deleted, watch, reconcile_running, refresh_ip}
use proxmox_operator.Controller.Run.Watch.{update_vm_status-SameMachine, refresh_ip-Leaves}
use proxmox_operator.Controller.Silent
use proxmox_operator.Controller.Lifecycle
use proxmox_operator.Controller.Lifecycle.{Stores}
use proxmox_operator.Controller.Lifecycle.Saving.{
  At, Onward, Onward-return, Onward-report, PhaseStep-Allows, Silent-Triple_with,
  Triple-after_Silent, mark-Triple, Saved, update_status_with_retry-Triple,
}

module _ (w : World) (stores : Stores w) (before : Log) (start : Phase) where
  -- The program, started in the phase Running, sends phases in the order of the steps.
  abbrev OnRunning : M (Result Requeue) → Type 0
  OnRunning m = Triple (At before start running) m (Onward before start)

  abbrev Runs : Machine → Type 0
  Runs m = m.status.phase ≡ running

  abbrev Running : Machine → Log → Type 0
  Running m log = At before start running log × Runs m

  refresh_ip-Runs : (m : Machine) → Triple (Running m) (refresh_ip w m) Running
  refresh_ip-Runs m = record {
    holds = λ log (walk, e).
        (Silent-Triple_with before start Runs (λ l. ((refresh_ip-Leaves w m).same l).0 ∙ e)
            (Silent.refresh_ip-Silent w m)).holds
          log walk;
  }

  refresh-Onward :
      (m : Machine) (vm : Option Vm) (node : Text) → Runs m → OnRunning (refresh w m vm node)
  unfolding refresh
  refresh-Onward m vm node e =
      Triple-bind Running
        (Silent-Triple_with before start Runs
          (λ log. (update_vm_status-SameMachine w vm node m log).0 ∙ e)
          (Silent.update_vm_status-Silent w vm node m))
        (λ m1. Triple-bind Running (refresh_ip-Runs m1) (λ m2.
          Triple-bind (Saved before start running)
            (update_status_with_retry-Triple w stores before start m2
              (PhaseStep-Allows before start Lifecycle.refresh_step))
            (λ saved. Triple-before (λ log s. s.0.0) (Onward-report before start _ saved.0))))

  mark_deleted-Onward : (m : Machine) → OnRunning (mark_deleted w m)
  unfolding mark_deleted
  mark_deleted-Onward m =
      mark-Triple w stores before start _ _ _ _ Lifecycle.lose_step refl
        (λ saved. Triple-before (λ log s. s.0) (Onward-report before start _ saved.0))

  watch-Onward : (m : Machine) (node : Text) (vm_id : ℤ) → Runs m → OnRunning (watch w m node vm_id)
  unfolding watch
  watch-Onward m node vm_id e =
      Triple-after_Silent before start (Silent.get_vm-Silent w node vm_id) (λ found.
        Triple-result (λ _. At before start running) found
          (λ failure. Triple-either _ (mark_deleted-Onward m) (Onward-return before start _))
          (λ vm. refresh-Onward m vm node e))

  pub reconcile_running-Onward : (m : Machine) → Runs m → OnRunning (reconcile_running w m)
  unfolding reconcile_running
  reconcile_running-Onward m e =
      Triple-result (λ _. At before start running) (ProviderId.parse m.status.provider_id)
        (λ failure. Onward-return before start _) (λ id. watch-Onward m id.0 id.1 e)
