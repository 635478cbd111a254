-- ===== src/Controller/Reconcile.antt =====
-- machine_controller.go, lines 92 to 241: one reconciliation of a machine.
pub mod Finalizer
pub mod Deleting
pub mod Creating
pub mod Keeping
use proxmox_operator.Base.{
  List, [], ◌∷◌, ◌++◌, Option, none, some, Bool, true, false, not, ◌||◌, if◌then◌else◌,
}
use proxmox_operator.Base.Int.{ℤ, pos, is_positive}
use proxmox_operator.Base.Text.{Text, text, eq_text}
use proxmox_operator.Base.Errors.{Error, Result, ok, err, is_not_found}
use proxmox_operator.Crd.{
  is_proxmox, Phase, unset, pending, creating, running, terminating, terminated, failed, Machine,
  MachineClass, Provider, proxmox,
}
use proxmox_operator.World.{
  World, get_machine, update, update_status, get_class, M, ◌>>=◌, ◌>>◌, return, call,
}
use proxmox_operator.Controller.Status.{with_phase}
use proxmox_operator.Controller.Create.{
  Requeue, no_requeue, reconcile_create, reconcile_creating, is_listed,
}
use proxmox_operator.Controller.Run.{reconcile_running}
use proxmox_operator.Controller.Terminate.{reconcile_terminating}

abbrev machine_finalizer : Text
machine_finalizer = text "vitistack.io/proxmox-machine"

-- `controllerutil.ContainsFinalizer`
abbrev pub has_finalizer : Machine → Bool
has_finalizer m = is_listed machine_finalizer m.finalizers

unfoldable pub without : Text → List Text → List Text
without x [] = []
without x (y ∷ ys) = if eq_text y x then without x ys else y ∷ without x ys

-- `controllerutil.RemoveFinalizer`
unfoldable pub remove_finalizer : Machine → Machine
remove_finalizer m = record m { finalizers = without machine_finalizer m.finalizers }

-- `controllerutil.AddFinalizer`, where the finalizer is not there yet.
abbrev pub add_finalizer : Machine → Machine
add_finalizer m = record m { finalizers = m.finalizers ++ machine_finalizer ∷ [] }

-- Neither Terminating nor Terminated.
abbrev pub needs_terminating : Phase → Bool
needs_terminating terminating = false
needs_terminating terminated = false
needs_terminating _ = true

module _ (w : World) where
  -- The machine is read again and loses its finalizer; it is no error if it is gone.
  unfoldable pub release : M (Result Requeue)
  release = do
    found ← call w.machine_answer get_machine
    elim found [
      | err e ↦ if is_not_found e then return (ok no_requeue) else return (err e)
      | ok m ↦ do
        answer ← call (w.update_answer (remove_finalizer m)) (update (remove_finalizer m))
        elim answer [
          | ok m' ↦ return (ok no_requeue)
          | err e ↦ if is_not_found e then return (ok no_requeue) else return (err e)
        ]
    ]

  unfoldable pub terminate_and_release : Machine → M (Result Requeue)
  terminate_and_release m = do
    result ← reconcile_terminating w m
    elim result [ err e ↦ return (err e) | ok r ↦ release ]

  -- The machine with the phase Terminating that the status update has saved.
  abbrev pub mark_terminating : Machine → M (Result Machine)
  mark_terminating m =
      if needs_terminating m.status.phase
      then call (w.update_status_answer (with_phase terminating m))
          (update_status (with_phase terminating m))
      else return (ok m)

  unfoldable pub handle_deletion : Machine → M (Result Requeue)
  handle_deletion m =
      if not (has_finalizer m)
      then return (ok no_requeue)
      else (mark_terminating m >>= λ saved. elim saved [
        | err e ↦ return (err e)
        | ok m' ↦ terminate_and_release m'
      ])

  -- The result is the machine with the finalizer, as it was saved.
  unfoldable pub ensure_finalizer : Machine → M (Result Machine)
  ensure_finalizer m =
      if has_finalizer m
      then return (ok m)
      else call (w.update_answer (add_finalizer m)) (update (add_finalizer m))

  abbrev pub by_phase : Phase → Machine → MachineClass → M (Result Requeue)
  by_phase unset m class = reconcile_create w m class
  by_phase pending m class = reconcile_create w m class
  by_phase creating m class = reconcile_creating w m
  by_phase running m class = reconcile_running w m
  by_phase terminating m class = reconcile_terminating w m
  by_phase failed m class = return (ok no_requeue)
  by_phase _ m class = return (ok no_requeue)

  unfoldable pub reconcile_by_phase : Machine → MachineClass → M (Result Requeue)
  reconcile_by_phase m class = by_phase m.status.phase m class

  abbrev pub get_machine_class : Text → M (Result MachineClass)
  get_machine_class name = call (w.class_answer name) (get_class name)

  -- The machine's class is read; of a class that is not enabled nothing is done.
  abbrev pub with_class : Machine → M (Result Requeue)
  with_class m = do
    found ← get_machine_class m.spec.machine_class
    elim found [
      | err e ↦ return (err e)
      | ok class ↦ if class.enabled then reconcile_by_phase m class else return (ok no_requeue)
    ]

  unfoldable pub reconcile_live : Machine → M (Result Requeue)
  reconcile_live m = do
    saved ← ensure_finalizer m
    elim saved [ err e ↦ return (err e) | ok m' ↦ with_class m' ]

  unfoldable pub reconcile_machine : Machine → M (Result Requeue)
  reconcile_machine m =
      if not (is_proxmox m.spec.provider)
      then return (ok no_requeue)
      else if m.deleting
      then handle_deletion m
      else reconcile_live m

  -- `Reconcile`
  unfoldable pub reconcile : M (Result Requeue)
  reconcile = do
    found ← call w.machine_answer get_machine
    elim found [
      | err e ↦ if is_not_found e then return (ok no_requeue) else return (err e)
      | ok m ↦ reconcile_machine m
    ]
