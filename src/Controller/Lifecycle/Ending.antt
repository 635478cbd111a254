-- ===== src/Controller/Lifecycle/Ending.antt =====
-- The phases that the termination of a machine sends.
use proxmox_operator.Base.{◌≡◌, refl, Option, none, some, false, if◌then◌else◌}
use proxmox_operator.Base.Int.{ℤ}
use proxmox_operator.Base.Text.{is_empty, Text}
use proxmox_operator.Base.Errors.{Error, Result, ok, err}
use proxmox_operator.Crd.{Phase, Machine}
use proxmox_operator.ProviderId
use proxmox_operator.World.{World, Vm, Task, Log, M, return}
use proxmox_operator.World.Triple.{Triple, Triple-bind, Triple-before, Triple-result, Triple-either}
use proxmox_operator.Controller.Create.{no_requeue, Requeue}
use proxmox_operator.Controller.Reconcile.{needs_terminating}
use proxmox_operator.Controller.Terminate.{
  deletion_failed, finish, await_stopped, stop, await_deleted, stop_and_delete, terminate_vm,
  reconcile_terminating,
}
use proxmox_operator.Controller.Terminate
use proxmox_operator.Controller.Silent
use proxmox_operator.Controller.Lifecycle
use proxmox_operator.Controller.Lifecycle.{Stores}
use proxmox_operator.Controller.Lifecycle.Saving.{
  At, Holding, Onward, Onward-return, Onward-report, Triple-after_Silent, Silent-Triple,
  mark-Triple, set_condition-Triple,
}

module _ (w : World) (stores : Stores w) (before : Log) (start : Phase) (p : Phase)
    (ending : needs_terminating p ≡ false) where
  -- The program, started in the phase p, sends phases in the order of the steps.
  abbrev OnEnding : M (Result Requeue) → Type 0
  OnEnding m = Triple (At before start p) m (Onward before start)

  deletion_failed-Onward :
      (condition : Text) (e : Error) (m : Machine) → OnEnding (deletion_failed w condition e m)
  deletion_failed-Onward condition e m =
      Triple-after_Silent before start (Silent.set_condition-Silent w _ _ _ _)
        (λ _. Onward-return before start _)

  finish-Onward : (message : Text) (m : Machine) → OnEnding (finish w message m)
  unfolding finish
  finish-Onward message m =
      mark-Triple w stores before start _ _ _ _ (Lifecycle.finish_step ending) refl
        (λ saved. Triple-before (λ log s. s.0) (Onward-report before start _ saved.0))

  await_deleted-Onward : (m : Machine) (task : Task) → OnEnding (await_deleted w m task)
  unfolding await_deleted
  await_deleted-Onward m task =
      Triple-after_Silent before start (Silent.wait-Silent w task) (λ done.
        Triple-result (λ _. At before start p) done (λ e. deletion_failed-Onward _ e m)
          (λ ended.
            Triple-after_Silent before start (Silent.delete-Silent w m) (λ _. finish-Onward _ m)))

  delete-Onward :
      (m : Machine) (node : Text) (vm_id : ℤ) → OnEnding (Terminate.delete w m node vm_id)
  unfolding Terminate.delete
  delete-Onward m node vm_id =
      Triple-after_Silent before start (Silent.delete_vm-Silent w node vm_id) (λ started.
        Triple-result (λ _. At before start p) started (λ e. deletion_failed-Onward _ e m)
          (λ task. await_deleted-Onward m task))

  -- Stopping leaves the phase that it sends.
  stop-Stays :
      (m : Machine) (node : Text) (vm_id : ℤ)
      → m.status.phase ≡ p
      → Triple (At before start p) (stop w m node vm_id) (λ stopped. At before start p)
  unfolding stop
  stop-Stays m node vm_id e =
      mark-Triple w stores before start _ _ _ m (Lifecycle.stop_step ending) e (λ saved.
        Triple-before (λ log s. s.0)
          (Triple-after_Silent before start (Silent.stop_vm-Silent w node vm_id) (λ started.
            Triple-result (λ _. At before start p) started
              (λ failure. Silent-Triple before start (Silent.failed_stop-Silent w _ saved.1))
              (λ task. Silent-Triple before start (Silent.await_stopped-Silent w saved.1 task)))))

  stopped-Onward :
      (stopped : Option Error × Machine) (node : Text) (vm_id : ℤ)
      → OnEnding (elim stopped.0 [
        | some e ↦ return (err e)
        | none ↦ Terminate.delete w stopped.1 node vm_id
      ])
  stopped-Onward (some e, m) node vm_id = Onward-return before start _
  stopped-Onward (none, m) node vm_id = delete-Onward m node vm_id

  stop_and_delete-Onward :
      (m : Machine) (vm : Option Vm) (node : Text) (vm_id : ℤ)
      → m.status.phase ≡ p
      → OnEnding (stop_and_delete w m vm node vm_id)
  unfolding stop_and_delete
  stop_and_delete-Onward m none node vm_id e = Onward-return before start _
  stop_and_delete-Onward m (some vm) node vm_id e =
      Triple-either _
        (Triple-bind (λ _. At before start p) (stop-Stays m node vm_id e)
          (λ stopped. stopped-Onward stopped node vm_id))
        (delete-Onward m node vm_id)

  terminate_vm-Onward :
      (m : Machine) (node : Text) (vm_id : ℤ)
      → m.status.phase ≡ p
      → OnEnding (terminate_vm w m node vm_id)
  unfolding terminate_vm
  terminate_vm-Onward m node vm_id e =
      Triple-after_Silent before start (Silent.get_vm-Silent w node vm_id) (λ found.
        Triple-result (λ _. At before start p) found
          (λ failure. Triple-either _ (finish-Onward _ m) (deletion_failed-Onward _ failure m))
          (λ vm. stop_and_delete-Onward m vm node vm_id e))

  parsed-Onward :
      (m : Machine)
      → m.status.phase ≡ p
      → OnEnding (
          if is_empty m.status.provider_id
          then return (ok no_requeue)
          else elim (ProviderId.parse m.status.provider_id) [
            | err e ↦ deletion_failed w e.message e m
            | ok id ↦ terminate_vm w m id.0 id.1
          ])
  parsed-Onward m e = Triple-either _ (Onward-return before start _) (
      Triple-result (λ _. At before start p) (ProviderId.parse m.status.provider_id)
        (λ failure. deletion_failed-Onward _ failure m) (λ id. terminate_vm-Onward m id.0 id.1 e))

  pub reconcile_terminating-Onward :
      (m : Machine) → m.status.phase ≡ p → OnEnding (reconcile_terminating w m)
  unfolding reconcile_terminating
  reconcile_terminating-Onward m e =
      Triple-bind (Holding before start p)
        (Triple-before (λ log walk. (walk, e)) (set_condition-Triple w stores before start _ _ _ m))
        (λ m'. record { holds = λ log (walk, e'). (parsed-Onward m' e').holds log walk })
