-- ===== src/Controller/Terminate/Release.antt =====
-- The calls that a termination without an error ends with. The code awaits the task of a deletion and does not look
-- at the status that it ended with, so that a deletion that failed is not told from one that succeeded.
use proxmox_operator.Base.{◌≡◌, refl, ap, ◌⊎◌, inl, inr, [], ◌∷◌, Option, none, some, true}
use proxmox_operator.Base.Int.{ℤ}
use proxmox_operator.Base.Text.{Text, text, is_empty, nil_of_is_empty, eq_text}
use proxmox_operator.Base.Errors.{Error, Result, ok, err}
use proxmox_operator.Crd.{Machine}
use proxmox_operator.ProviderId
use proxmox_operator.World
use proxmox_operator.World.{World, Vm, Task, Log, M, ◌>>=◌, call, return, time}
use proxmox_operator.Controller.Status.{set_condition, put_condition}
use proxmox_operator.Controller.Create.{Requeue}
use proxmox_operator.Controller.Terminate.{
  says_missing, deletion_failed, finish, stop, await_deleted, delete, stop_and_delete, terminate_vm,
  reconcile_terminating,
}
use proxmox_operator.Controller.VmCalls.Triple.{
  Triple, Any, Triple-bind, Triple-after_Quiet, Triple-of_Quiet, Triple-result, Triple-if,
  Triple-weaken,
}
use proxmox_operator.Controller.VmCalls.{
  vm_calls, Quiet, Quiet-return, Quiet-bind, set_condition-Quiet, update_status_with_retry-Quiet,
  delete_netconf-Quiet, report-Quiet,
}

abbrev pub IsOk {ℓ} : {A : Type ℓ} → Result A → Type 0
IsOk (ok a) = Unit
IsOk (err e) = ⊥

-- The last calls concerning VMs: the VM was asked for and the error says that there is none, or the request to
-- delete it was accepted and the wait for its task gave no error, whatever status the task ended with.
abbrev Concluded : Text → ℤ → Log → Type 0
Concluded node vm_id log =
    ((e : Error) × (before : Log) × (log ≡ World.get_vm node vm_id (err e) ∷ before)
      × (says_missing e ≡ true))
    ⊎ ((task ended : Task) × (before : Log) × (log
          ≡ World.wait task (ok ended) ∷ World.delete_vm node vm_id (ok task) ∷ before))

-- A success comes after such calls.
abbrev OnOk : Text → ℤ → Result Requeue → Log → Type 0
OnOk node vm_id r log = IsOk r → Concluded node vm_id log

-- The provider ID is empty, or it names a VM with such last calls.
abbrev pub IsConcluded : Text → Log → Type 0
IsConcluded provider_id log =
    (provider_id ≡ [])
    ⊎ ((node : Text) × (vm_id : ℤ) × (ProviderId.parse provider_id ≡ ok (node, vm_id))
        × Concluded node vm_id log)

module _ (w : World) where
  return_error-Triple :
      {P Q : Log → Type 0} (e : Error)
      → Triple {A = Result Requeue} P (return (err e)) (λ r log. IsOk r → Q log)
  unfolding return
  return_error-Triple e = record { holds = λ log p h. elim h [ ] }

  deletion_failed-Triple :
      {P Q : Log → Type 0} (condition : Text) (e : Error) (m : Machine)
      → Triple P (deletion_failed w condition e m) (λ r log. IsOk r → Q log)
  deletion_failed-Triple condition e m =
      Triple-after_Quiet (set_condition-Quiet w _ _ condition m) (λ _. return_error-Triple e)

  pub finish-Quiet : (message : Text) (m : Machine) → Quiet (finish w message m)
  unfolding finish
  finish-Quiet message m =
      Quiet-bind (set_condition-Quiet w _ _ message _)
        (λ m'. Quiet-bind (update_status_with_retry-Quiet w m') (λ saved. report-Quiet w _ saved.0))

  Triple-stopped :
      {node : Text} {vm_id : ℤ} {m : M (Result Requeue)} (o : Option Error)
      → Triple Any m (OnOk node vm_id)
      → Triple Any (elim o [ some e ↦ return (err e) | none ↦ m ]) (OnOk node vm_id)
  Triple-stopped (some e) t = return_error-Triple e
  Triple-stopped none t = t

  -- The last call has asked for the VM, with this answer.
  abbrev Found : Text → ℤ → Result (Option Vm) → Log → Type 0
  Found node vm_id r log = (before : Log) × (log ≡ World.get_vm node vm_id r ∷ before)

  -- The last call has asked for its deletion, with this answer.
  abbrev Requested : Text → ℤ → Result Task → Log → Type 0
  Requested node vm_id r log = (before : Log) × (log ≡ World.delete_vm node vm_id r ∷ before)

  -- The task was awaited after that, with this answer.
  abbrev Awaited : Text → ℤ → Task → Result Task → Log → Type 0
  Awaited node vm_id task r log =
      (before : Log) × (log ≡ World.wait task r ∷ World.delete_vm node vm_id (ok task) ∷ before)

  find-Triple :
      (node : Text) (vm_id : ℤ)
      → Triple Any (call (w.vm_answer node vm_id) (World.get_vm node vm_id)) (Found node vm_id)
  unfolding call
  find-Triple node vm_id = record { holds = λ log p. (_, refl) }

  request-Triple :
      (node : Text) (vm_id : ℤ)
      → Triple Any
          (call (w.deleted_answer node vm_id) (World.delete_vm node vm_id))
          (Requested node vm_id)
  unfolding call
  request-Triple node vm_id = record { holds = λ log p. (_, refl) }

  await-Triple :
      (node : Text) (vm_id : ℤ) (task : Task)
      → Triple
          (Requested node vm_id (ok task))
          (call (w.waited_answer task) (World.wait task))
          (Awaited node vm_id task)
  unfolding call
  await-Triple node vm_id task = record {
    holds = λ log (before, e). (before, ap (λ l. World.wait task (w.waited_answer task log) ∷ l) e);
  }

  delete-Triple :
      (m : Machine) (node : Text) (vm_id : ℤ) → Triple Any (delete w m node vm_id) (OnOk node vm_id)
  unfolding delete await_deleted
  delete-Triple m node vm_id = Triple-bind (Requested node vm_id) (request-Triple node vm_id) (λ r.
      Triple-result (Requested node vm_id) r (λ e. deletion_failed-Triple _ e m)
        (λ task. Triple-bind (Awaited node vm_id task) (await-Triple node vm_id task) (λ done.
          Triple-result (Awaited node vm_id task) done (λ e. deletion_failed-Triple _ e m)
            (λ ended. Triple-after_Quiet (delete_netconf-Quiet w m) (λ _.
              Triple-of_Quiet (finish-Quiet _ m)
                (λ r' log (before, e) h. inr (task, ended, before, e)))))))

  stop_and_delete-Triple :
      (P : Log → Type 0) (m : Machine) (vm : Option Vm) (node : Text) (vm_id : ℤ)
      → Triple P (stop_and_delete w m vm node vm_id) (OnOk node vm_id)
  unfolding stop_and_delete
  stop_and_delete-Triple P m none node vm_id = return_error-Triple _
  stop_and_delete-Triple P m (some vm) node vm_id =
      Triple-if (eq_text vm.vm_status (text "running"))
        (λ _.
          Triple-bind {m = stop w m node vm_id} (λ (stopped : Option Error × Machine). Any)
            (record { holds = λ log p. tt })
            (λ stopped. Triple-stopped stopped.0 (delete-Triple stopped.1 node vm_id)))
        (λ _. Triple-weaken (delete-Triple m node vm_id))

  terminate_vm-Triple :
      (m : Machine) (node : Text) (vm_id : ℤ)
      → Triple Any (terminate_vm w m node vm_id) (OnOk node vm_id)
  unfolding terminate_vm
  terminate_vm-Triple m node vm_id = Triple-bind (Found node vm_id) (find-Triple node vm_id) (λ r.
      Triple-result (Found node vm_id) r
        (λ e.
          Triple-if _
            (λ b.
              Triple-of_Quiet (finish-Quiet _ m) (λ r' log (before, p) h. inl (e, before, p, b)))
            (λ _. deletion_failed-Triple _ e m))
        (λ vm. stop_and_delete-Triple _ m vm node vm_id))

  abbrev Released : Text → Result Requeue → Log → Type 0
  Released provider_id r log = IsOk r → IsConcluded provider_id log

  parsed-Triple :
      (m : Machine) (r : Result (Text × ℤ))
      → ProviderId.parse m.status.provider_id ≡ r
      → Triple Any
          (elim r [ err e ↦ deletion_failed w e.message e m | ok id ↦ terminate_vm w m id.0 id.1 ])
          (Released m.status.provider_id)
  parsed-Triple m (err e) p = deletion_failed-Triple _ e m
  parsed-Triple m (ok id) p = record {
    holds = λ log q h. inr (id.0, id.1, p, (terminate_vm-Triple m id.0 id.1).holds log tt h);
  }

  -- When the termination of a machine ends without an error, its provider ID is empty, or it names a VM
  -- that the last calls concerning VMs are about: the last one asked for it, and the error says that there is none,
  -- or the last two asked for its deletion and awaited the task of that, both without an error. The status
  -- that the task ended with may be any.
  pub reconcile_terminating_ok :
      (m : Machine) (log : Log)
      → IsOk (reconcile_terminating w m log).0
      → IsConcluded m.status.provider_id (vm_calls (reconcile_terminating w m log).1)
  unfolding reconcile_terminating set_condition ◌>>=◌ time return put_condition
  reconcile_terminating_ok m log =
      (Triple-if (is_empty m.status.provider_id)
          (λ b. Triple-of_Quiet (Quiet-return _) (λ r l p h. inl (nil_of_is_empty _ b)))
          (λ b.
            parsed-Triple
              (put_condition (w.now log) (text "False") (text "Terminating")
                (text "VM deletion in progress") m)
              _ refl)).holds
        log tt
