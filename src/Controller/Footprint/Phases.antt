-- ===== src/Controller/Footprint/Phases.antt =====
-- The kinds of calls of a machine's phases.
use proxmox_operator.Base.{refl, false, Option, none, some}
use proxmox_operator.Base.Int.{ℤ}
use proxmox_operator.Base.Text.{text, Text}
use proxmox_operator.Base.Errors.{Error}
use proxmox_operator.Crd
use proxmox_operator.Crd.{Phase, Machine, MachineClass}
use proxmox_operator.ProviderId
use proxmox_operator.World.{World, Vm, ◌>>=◌, return}
use proxmox_operator.World.Makes.{
  Kinds, Makes-more, Makes, Makes-bind, Makes-call, Makes-if, Makes-result, Makes-option,
  Makes-return,
}
use proxmox_operator.Controller.Run.{refresh, watch, mark_deleted, reconcile_running}
use proxmox_operator.Controller.Terminate.{
  deletion_failed, finish, stop, await_deleted, delete, stop_and_delete, terminate_vm,
  reconcile_terminating,
}
use proxmox_operator.Controller.Create.{reconcile_creating}
use proxmox_operator.Controller.Status.{set_condition}
use proxmox_operator.Controller.Reconcile.{by_phase}
use proxmox_operator.Controller.Reads
use proxmox_operator.Controller.Reads.{Reads}
use proxmox_operator.Controller.Footprint.{
  set_condition, watching, making, ending, clearing-ending, watching-ending, Reads-Makes,
  save-Makes, update_status_with_retry-Makes, report-Makes, set_condition-Makes,
}
use proxmox_operator.Controller.Footprint.Creation.{reconcile_create-Makes}

-- What a phase allows.
abbrev pub phase_kinds : Phase → Kinds
phase_kinds Crd.unset k = making k
phase_kinds Crd.pending k = making k
phase_kinds Crd.running k = watching k
phase_kinds Crd.terminating k = ending k
phase_kinds _ k = false

module _ (w : World) where
  refresh-Makes :
      (m : Machine) (vm : Option Vm) (node : Text) → Makes watching (refresh w m vm node)
  unfolding refresh
  refresh-Makes m vm node =
      Makes-bind (Reads-Makes w (λ k h. h) (Reads.update_vm_status-Reads w vm node m)) (λ m1.
        Makes-bind (Reads-Makes w (λ k h. h) (Reads.refresh_ip-Reads w m1)) (λ m2.
          Makes-bind (update_status_with_retry-Makes w (λ k h. h) m2)
            (λ saved. report-Makes w (λ k h. h) _ saved.0)))

  pub reconcile_running-Makes : (m : Machine) → Makes watching (reconcile_running w m)
  unfolding reconcile_running watch mark_deleted
  reconcile_running-Makes m =
      Makes-result (ProviderId.parse m.status.provider_id) (λ e. Makes-return _)
        (λ id. Makes-bind (Makes-call _ _ (λ a. refl)) (λ found.
          Makes-result found
            (λ e.
              Makes-if _
                (save-Makes w (λ k h. h) _ _ _ _ (λ saved. report-Makes w (λ k h. h) _ saved.0))
                (Makes-return _))
            (λ vm. refresh-Makes m vm id.0)))

  deletion_failed-Makes :
      (condition : Text) (e : Error) (m : Machine) → Makes ending (deletion_failed w condition e m)
  deletion_failed-Makes condition e m =
      Makes-bind (set_condition-Makes w watching-ending _ _ _ m) (λ _. Makes-return _)

  finish-Makes : (message : Text) (m : Machine) → Makes ending (finish w message m)
  unfolding finish
  finish-Makes message m =
      save-Makes w watching-ending _ _ _ _ (λ saved. report-Makes w watching-ending _ saved.0)

  delete-Makes : (m : Machine) (node : Text) (vm_id : ℤ) → Makes ending (delete w m node vm_id)
  unfolding delete await_deleted
  delete-Makes m node vm_id = Makes-bind (Makes-call _ _ (λ a. refl)) (λ started.
      Makes-result started (λ e. deletion_failed-Makes _ e m)
        (λ task. Makes-bind (Makes-call _ _ (λ a. refl)) (λ done.
          Makes-result done (λ e. deletion_failed-Makes _ e m)
            (λ ended.
              Makes-bind (Makes-more clearing-ending (Reads.delete-Makes w m))
                (λ _. finish-Makes _ m)))))

  failed-Makes :
      (condition : Text) (e : Error) (m : Machine)
      → Makes ending (
          set_condition w (text "False") (text "DeletionFailed") condition m >>= λ m'.
          return {A = Option Error × Machine} (some e, m'))
  failed-Makes condition e m =
      Makes-bind (set_condition-Makes w watching-ending _ _ _ m) (λ m'. Makes-return _)

  stop-Makes : (m : Machine) (node : Text) (vm_id : ℤ) → Makes ending (stop w m node vm_id)
  unfolding stop
  stop-Makes m node vm_id = save-Makes w watching-ending _ _ _ m (λ saved.
      Makes-bind (Makes-call _ _ (λ a. refl)) (λ started.
        Makes-result started (λ e. failed-Makes _ e saved.1)
          (λ task.
            Makes-bind (Makes-call _ _ (λ a. refl)) (λ done.
              Makes-result done (λ e. failed-Makes _ e saved.1) (λ ended. Makes-return _)))))

  stop_and_delete-Makes :
      (m : Machine) (vm : Option Vm) (node : Text) (vm_id : ℤ)
      → Makes ending (stop_and_delete w m vm node vm_id)
  unfolding stop_and_delete
  stop_and_delete-Makes m none node vm_id = Makes-return _
  stop_and_delete-Makes m (some vm) node vm_id =
      Makes-if _
        (Makes-bind (stop-Makes m node vm_id) (λ stopped.
          Makes-option stopped.0 (delete-Makes stopped.1 node vm_id) (λ e. Makes-return _)))
        (delete-Makes m node vm_id)

  pub reconcile_terminating-Makes : (m : Machine) → Makes ending (reconcile_terminating w m)
  unfolding reconcile_terminating terminate_vm
  reconcile_terminating-Makes m = Makes-bind (set_condition-Makes w watching-ending _ _ _ m) (λ m'.
      Makes-if _ (Makes-return _) (
        Makes-result (ProviderId.parse m'.status.provider_id) (λ e. deletion_failed-Makes _ e m')
          (λ id. Makes-bind (Makes-call _ _ (λ a. refl)) (λ found.
            Makes-result found (λ e. Makes-if _ (finish-Makes _ m') (deletion_failed-Makes _ e m'))
              (λ vm. stop_and_delete-Makes m' vm id.0 id.1)))))

  -- The calls of one reconciliation by the phase, once the machine and its class are read, are of these kinds at
  -- most, whatever the outside answers: reading, writing the machine's status, creating VMs and
  -- NetworkConfigurations and awaiting tasks in the phases "" and Pending; reading and writing the status in Running;
  -- reading, writing the status, stopping VMs, deleting VMs and NetworkConfigurations and awaiting tasks in
  -- Terminating; none in the other phases. Reading does not include the machine and its class.
  pub by_phase-Makes :
      (p : Phase) (m : Machine) (class : MachineClass)
      → Makes (phase_kinds p) (by_phase w p m class)
  unfolding reconcile_creating
  by_phase-Makes Crd.unset m class = reconcile_create-Makes w m class
  by_phase-Makes Crd.pending m class = reconcile_create-Makes w m class
  by_phase-Makes Crd.creating m class = Makes-return _
  by_phase-Makes Crd.running m class = reconcile_running-Makes m
  by_phase-Makes Crd.terminating m class = reconcile_terminating-Makes m
  by_phase-Makes Crd.failed m class = Makes-return _
  by_phase-Makes _ m class = Makes-return _
