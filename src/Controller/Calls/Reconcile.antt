-- ===== src/Controller/Calls/Reconcile.antt =====
-- How many calls one reconciliation makes.
use proxmox_operator.Controller.Calls.Creation.{reconcile_create-Calls}
use proxmox_operator.Base.{◌+◌, ◌≤◌, Option, none, some, length, arith}
use proxmox_operator.Base.Int.{ℤ}
use proxmox_operator.Base.Text.{Text}
use proxmox_operator.Base.Errors.{Error}
use proxmox_operator.Crd
use proxmox_operator.Crd.{Phase, Machine, MachineClass}
use proxmox_operator.ProviderId
use proxmox_operator.World.{World, Vm, Log}
use proxmox_operator.World.Calls.{
  Calls, Calls-return, Calls-call, Calls-more, Calls-bind, Calls-then, Calls-if, Calls-result,
  Calls-option,
}
use proxmox_operator.Controller.Create.{reconcile_creating}
use proxmox_operator.Controller.Run.{refresh_ip, refresh, mark_deleted, watch, reconcile_running}
use proxmox_operator.Controller.Terminate.{
  deletion_failed, finish, stop, await_deleted, delete, stop_and_delete, terminate_vm,
  reconcile_terminating,
}
use proxmox_operator.Controller.Reconcile.{
  terminate_and_release, release, handle_deletion, ensure_finalizer, by_phase, reconcile_by_phase,
  reconcile_live, reconcile_machine, reconcile,
}
use proxmox_operator.Controller.Calls.{
  set_condition-Calls, update_status_with_retry-Calls, save-Calls, report-Calls,
  update_vm_status-Calls, get_ip-Calls, delete_netconf-Calls,
}

module _ (w : World) where
  refresh_ip-Calls : (m : Machine) → Calls 1 (refresh_ip w m)
  unfolding refresh_ip
  refresh_ip-Calls m =
      Calls-if _
        (Calls-bind 1 0 (get_ip-Calls w m)
          (λ answer. Calls-result answer (λ e. Calls-return 0 _) (λ ip. Calls-return 0 _)))
        (Calls-return 1 _)

  refresh-Calls : (m : Machine) (vm : Option Vm) (node : Text) → Calls 3 (refresh w m vm node)
  unfolding refresh
  refresh-Calls m vm node = Calls-bind 1 2 (update_vm_status-Calls w vm node m) (λ m1.
      Calls-bind 1 1 (refresh_ip-Calls m1) (λ m2.
        Calls-bind 1 0 (update_status_with_retry-Calls w m2) (λ saved. report-Calls w _ saved.0)))

  reconcile_running-Calls : (m : Machine) → Calls 4 (reconcile_running w m)
  unfolding reconcile_running watch mark_deleted
  reconcile_running-Calls m =
      Calls-result (ProviderId.parse m.status.provider_id) (λ e. Calls-return 4 _)
        (λ id. Calls-then _ _ 3 (λ found.
          Calls-result found
            (λ e.
              Calls-if _
                (Calls-more 1 3 (omega arith)
                  (save-Calls w _ _ _ _ (λ saved. report-Calls w _ saved.0)))
                (Calls-return 3 _))
            (λ vm. refresh-Calls m vm id.0)))

  deletion_failed-Calls :
      (condition : Text) (e : Error) (m : Machine) → Calls 0 (deletion_failed w condition e m)
  deletion_failed-Calls condition e m =
      Calls-bind 0 0 (set_condition-Calls w _ _ _ m) (λ _. Calls-return 0 _)

  finish-Calls : (message : Text) (m : Machine) → Calls 1 (finish w message m)
  unfolding finish
  finish-Calls message m = save-Calls w _ _ _ _ (λ saved. report-Calls w _ saved.0)

  delete-Calls : (m : Machine) (node : Text) (vm_id : ℤ) → Calls 5 (delete w m node vm_id)
  unfolding delete await_deleted
  delete-Calls m node vm_id = Calls-then _ _ 4 (λ started.
      Calls-result started (λ e. Calls-more 0 4 (omega arith) (deletion_failed-Calls _ e m))
        (λ task. Calls-then _ _ 3 (λ done.
          Calls-result done (λ e. Calls-more 0 3 (omega arith) (deletion_failed-Calls _ e m))
            (λ ended. Calls-bind 2 1 (delete_netconf-Calls w m) (λ _. finish-Calls _ m)))))

  stop-Calls : (m : Machine) (node : Text) (vm_id : ℤ) → Calls 3 (stop w m node vm_id)
  unfolding stop
  stop-Calls m node vm_id = Calls-bind 0 3 (set_condition-Calls w _ _ _ m) (λ m1.
      Calls-bind 1 2 (update_status_with_retry-Calls w m1) (λ saved. Calls-then _ _ 1 (λ started.
        Calls-result started
          (λ e. Calls-bind 0 1 (set_condition-Calls w _ _ _ saved.1) (λ m'. Calls-return 1 _))
          (λ task. Calls-then _ _ 0 (λ done.
            Calls-result done
              (λ e. Calls-bind 0 0 (set_condition-Calls w _ _ _ saved.1) (λ m'. Calls-return 0 _))
              (λ ended. Calls-return 0 _))))))

  stop_and_delete-Calls :
      (m : Machine) (vm : Option Vm) (node : Text) (vm_id : ℤ)
      → Calls 8 (stop_and_delete w m vm node vm_id)
  unfolding stop_and_delete
  stop_and_delete-Calls m none node vm_id = Calls-return 8 _
  stop_and_delete-Calls m (some vm) node vm_id =
      Calls-if _
        (Calls-bind 3 5 (stop-Calls m node vm_id) (λ stopped.
          Calls-option stopped.0 (delete-Calls stopped.1 node vm_id) (λ e. Calls-return 5 _)))
        (Calls-more 5 8 (omega arith) (delete-Calls m node vm_id))

  terminate_vm-Calls :
      (m : Machine) (node : Text) (vm_id : ℤ) → Calls 9 (terminate_vm w m node vm_id)
  unfolding terminate_vm
  terminate_vm-Calls m node vm_id = Calls-then _ _ 8 (λ found.
      Calls-result found
        (λ e.
          Calls-if _ (Calls-more 1 8 (omega arith) (finish-Calls _ m))
            (Calls-more 0 8 (omega arith) (deletion_failed-Calls _ e m)))
        (λ vm. stop_and_delete-Calls m vm node vm_id))

  reconcile_terminating-Calls : (m : Machine) → Calls 9 (reconcile_terminating w m)
  unfolding reconcile_terminating
  reconcile_terminating-Calls m = Calls-bind 0 9 (set_condition-Calls w _ _ _ m) (λ m'.
      Calls-if _ (Calls-return 9 _) (
        Calls-result (ProviderId.parse m'.status.provider_id)
          (λ e. Calls-more 0 9 (omega arith) (deletion_failed-Calls _ e m'))
          (λ id. terminate_vm-Calls m' id.0 id.1)))

  release-Calls : Calls 2 (release w)
  unfolding release
  release-Calls = Calls-then _ _ 1 (λ found.
      Calls-result found (λ e. Calls-if _ (Calls-return 1 _) (Calls-return 1 _))
        (λ m. Calls-then _ _ 0 (λ answer.
          Calls-result answer (λ e. Calls-if _ (Calls-return 0 _) (Calls-return 0 _))
            (λ m'. Calls-return 0 _))))

  handle_deletion-Calls : (m : Machine) → Calls 12 (handle_deletion w m)
  unfolding handle_deletion terminate_and_release
  handle_deletion-Calls m = Calls-if _ (Calls-return 12 _) (
      Calls-bind 1 11 (Calls-if _ (Calls-call _ _) (Calls-return 1 _)) (λ saved.
        Calls-result saved (λ e. Calls-return 11 _)
          (λ m'.
            Calls-bind 9 2 (reconcile_terminating-Calls m')
              (λ r. Calls-result r (λ e. Calls-return 2 _) (λ q. release-Calls)))))

  by_phase-Calls :
      (p : Phase) (m : Machine) (class : MachineClass) → Calls 117 (by_phase w p m class)
  unfolding reconcile_creating
  by_phase-Calls Crd.unset m class = reconcile_create-Calls w m class
  by_phase-Calls Crd.pending m class = reconcile_create-Calls w m class
  by_phase-Calls Crd.creating m class = Calls-return 117 _
  by_phase-Calls Crd.running m class = Calls-more 4 117 (omega arith) (reconcile_running-Calls m)
  by_phase-Calls Crd.terminating m class =
      Calls-more 9 117 (omega arith) (reconcile_terminating-Calls m)
  by_phase-Calls Crd.failed m class = Calls-return 117 _
  by_phase-Calls _ m class = Calls-return 117 _

  reconcile_live-Calls : (m : Machine) → Calls 119 (reconcile_live w m)
  unfolding reconcile_live ensure_finalizer reconcile_by_phase
  reconcile_live-Calls m =
      Calls-bind 1 118 (Calls-if _ (Calls-return 1 _) (Calls-call _ _)) (λ saved.
        Calls-result saved (λ e. Calls-return 118 _)
          (λ m'. Calls-then _ _ 117 (λ found.
            Calls-result found (λ e. Calls-return 117 _)
              (λ class.
                Calls-if _ (by_phase-Calls m'.status.phase m' class) (Calls-return 117 _)))))

  reconcile-Calls : Calls 120 (reconcile w)
  unfolding reconcile reconcile_machine
  reconcile-Calls = Calls-then _ _ 119 (λ found.
      Calls-result found (λ e. Calls-if _ (Calls-return 119 _) (Calls-return 119 _))
        (λ m. Calls-if _ (Calls-return 119 _) (
          Calls-if _ (Calls-more 12 119 (omega arith) (handle_deletion-Calls m))
            (reconcile_live-Calls m))))

-- One reconciliation, whatever the outside answers, makes at most 120 calls of it.
pub reconcile_bound : (w : World) (log : Log) → length (reconcile w log).1 ≤ 120 + length log
reconcile_bound w log = (reconcile-Calls w).few log
