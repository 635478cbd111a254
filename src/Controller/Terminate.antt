-- ===== src/Controller/Terminate.antt =====
-- machine_reconcile_phases.go, lines 262 to 329 and 424 to 447: the deletion of a VM.
pub mod Release
pub mod Stopping
pub mod Success
use proxmox_operator.Base.{[], ◌∷◌, ◌++◌, Option, none, some, Bool, ◌||◌, if◌then◌else◌}
use proxmox_operator.Base.Int.{ℤ}
use proxmox_operator.Base.Text.{Text, text, eq_text, is_empty, contains}
use proxmox_operator.Base.Errors.{Error, Result, ok, err, errorf}
use proxmox_operator.Crd.{Phase, terminated, Machine}
use proxmox_operator.ProviderId
use proxmox_operator.NetworkConfiguration
use proxmox_operator.World.{
  World, Vm, Task, get_vm, stop_vm, delete_vm, wait, M, ◌>>=◌, ◌>>◌, return, call,
}
use proxmox_operator.Controller.Status.{with_phase, update_status_with_retry, set_condition}
use proxmox_operator.Controller.Create.{Requeue, no_requeue, report}

-- The error's message says that there is no such VM.
unfoldable pub says_missing : Error → Bool
says_missing e = contains e.message (text "does not exist") || contains e.message (text "not found")

module _ (w : World) where
  -- The condition DeletionFailed, which is not saved, and the error.
  abbrev pub deletion_failed : Text → Error → Machine → M (Result Requeue)
  deletion_failed condition e m = do
    set_condition w (text "False") (text "DeletionFailed") condition m
    return (err e)

  -- The machine becomes Terminated.
  unfoldable pub finish : Text → Machine → M (Result Requeue)
  finish message m = do
    m' ← set_condition w (text "False") (text "Terminated") message (with_phase terminated m)
    saved ← update_status_with_retry w m'
    report no_requeue saved.0

  -- `stopVM`: its error, and the machine.
  abbrev pub await_stopped : Machine → Task → M (Option Error × Machine)
  await_stopped m task = do
    done ← call (w.waited_answer task) (wait task)
    elim done [
      | ok task' ↦ return (none, m)
      | err e ↦ do
        m' ←
            set_condition w (text "False") (text "DeletionFailed")
              (text "VM stop task failed: " ++ e.message) m
        return (some e, m')
    ]

  unfoldable pub stop : Machine → Text → ℤ → M (Option Error × Machine)
  stop m node vm_id = do
    m1 ← set_condition w (text "False") (text "Stopping") (text "Stopping VM before deletion") m
    saved ← update_status_with_retry w m1
    started ← call (w.stopped_answer node vm_id) (stop_vm node vm_id)
    elim started [
      | ok task ↦ await_stopped saved.1 task
      | err e ↦ do
        m' ←
            set_condition w (text "False") (text "DeletionFailed")
              (text "Failed to stop VM: " ++ e.message) saved.1
        return (some e, m')
    ]

  unfoldable pub await_deleted : Machine → Task → M (Result Requeue)
  await_deleted m task = do
    done ← call (w.waited_answer task) (wait task)
    elim done [
      | err e ↦ deletion_failed (text "VM deletion task failed: " ++ e.message) e m
      | ok task' ↦ do NetworkConfiguration.delete w m; finish (text "VM successfully deleted") m
    ]

  unfoldable pub delete : Machine → Text → ℤ → M (Result Requeue)
  delete m node vm_id = do
    started ← call (w.deleted_answer node vm_id) (delete_vm node vm_id)
    elim started [
      | err e ↦ deletion_failed (text "Failed to delete VM: " ++ e.message) e m
      | ok task ↦ await_deleted m task
    ]

  -- A running VM is stopped first. Without a VM `vm.Status` panics, which the manager turns into an
  -- error of the reconciliation.
  unfoldable pub stop_and_delete : Machine → Option Vm → Text → ℤ → M (Result Requeue)
  stop_and_delete m none node vm_id = return (err (errorf (text "panic: nil pointer dereference")))
  stop_and_delete m (some vm) node vm_id =
      if eq_text vm.vm_status (text "running")
      then (stop m node vm_id >>= λ stopped. elim stopped.0 [
        | some e ↦ return (err e)
        | none ↦ delete stopped.1 node vm_id
      ])
      else delete m node vm_id

  unfoldable pub terminate_vm : Machine → Text → ℤ → M (Result Requeue)
  terminate_vm m node vm_id = do
    found ← call (w.vm_answer node vm_id) (get_vm node vm_id)
    elim found [
      | ok vm ↦ stop_and_delete m vm node vm_id
      | err e ↦
          if says_missing e
          then finish (text "VM already deleted or never existed") m
          else deletion_failed (text "Failed to get VM: " ++ e.message) e m
    ]

  unfoldable pub reconcile_terminating : Machine → M (Result Requeue)
  reconcile_terminating m = do
    m' ← set_condition w (text "False") (text "Terminating") (text "VM deletion in progress") m
    if is_empty m'.status.provider_id
        then return (ok no_requeue)
        else elim (ProviderId.parse m'.status.provider_id) [
          | err e ↦ deletion_failed e.message e m'
          | ok id ↦ terminate_vm m' id.0 id.1
        ]
