-- ===== src/Controller/Terminate/Success.antt =====
-- The termination of a machine where all goes well.
use proxmox_operator.Base.{◌≡◌, refl, ◌⊎◌, inl, inr, Option, none, some, Bool, true, false, arith}
use proxmox_operator.Base.Int.{ℤ}
use proxmox_operator.Base.Text.{Text, is_empty}
use proxmox_operator.Base.Errors.{Error, Result, ok, err}
use proxmox_operator.Crd.{Machine}
use proxmox_operator.ProviderId
use proxmox_operator.World.{World, Vm, Task, Log, M, ◌>>=◌, return, time}
use proxmox_operator.World.Triple.{
  Triple, Triple-return, Triple-call, Triple-bind, Triple-before, Triple-result, Triple-if,
  Triple-either,
}
use proxmox_operator.Controller.Status.{set_condition, put_condition}
use proxmox_operator.Controller.Create.{Requeue}
use proxmox_operator.Controller.Progress.{
  Anyway, IsDone, Given, anyway, given, unhindered, any, Saves, update_status_with_retry-Saves,
}
use proxmox_operator.Controller.Terminate.{
  says_missing, deletion_failed, finish, stop, await_deleted, delete, stop_and_delete, terminate_vm,
  reconcile_terminating,
}

-- The servers do what they are asked for: statuses are saved, each VM is shown or said to be missing, and
-- the tasks that stop and delete it end without an error.
pub record Obeys (w : World) : Type 0 where
  pub saves : Saves w
  pub finds :
      (node : Text) (vm_id : ℤ) (log : Log)
      → ((e : Error) × (w.vm_answer node vm_id log ≡ err e) × (says_missing e ≡ true))
        ⊎ ((vm : Vm) × (w.vm_answer node vm_id log ≡ ok (some vm)))
  pub stops :
      (node : Text) (vm_id : ℤ) (log : Log)
      → (task : Task) × (w.stopped_answer node vm_id log ≡ ok task)
  pub deletes :
      (node : Text) (vm_id : ℤ) (log : Log)
      → (task : Task) × (w.deleted_answer node vm_id log ≡ ok task)
  pub awaits : (task : Task) (log : Log) → (ended : Task) × (w.waited_answer task log ≡ ok ended)

-- The provider ID is empty, or names a VM.
abbrev pub IsReadable : Text → Type 0
IsReadable provider_id =
    (is_empty provider_id ≡ true) ⊎ ((id : Text × ℤ) × (ProviderId.parse provider_id ≡ ok id))

module _ (w : World) (h : Obeys w) where
  abbrev Finishes : M (Result Requeue) → Type 0
  Finishes m = Triple Anyway m (λ r log. IsDone r)

  finish-Finishes : (message : Text) (m : Machine) → Finishes (finish w message m)
  unfolding finish ◌>>=◌ return
  finish-Finishes message m = record {
    holds = λ log p. rw (update_status_with_retry-Saves w _ _ h.saves) refl;
  }

  delete-Finishes : (m : Machine) (node : Text) (vm_id : ℤ) → Finishes (delete w m node vm_id)
  unfolding delete await_deleted
  delete-Finishes m node vm_id =
      Triple-bind (λ r log. Given r) (Triple-call _ _ (λ log p. h.deletes node vm_id log))
        (λ started. given _ started (λ task.
          Triple-bind (λ r log. Given r) (Triple-call _ _ (λ log p. h.awaits task log))
            (λ done.
              given _ done (λ ended. Triple-bind (λ _. Anyway) any (λ _. finish-Finishes _ m)))))

  -- `stopVM` has no error.
  stop-none :
      (m : Machine) (node : Text) (vm_id : ℤ)
      → Triple Anyway (stop w m node vm_id) (λ stopped log. stopped.0 ≡ none)
  unfolding stop
  stop-none m node vm_id =
      Triple-bind (λ _. Anyway) any
        (λ m1.
          Triple-bind (λ _. Anyway) any
            (λ saved.
              Triple-bind (λ r log. Given r) (Triple-call _ _ (λ log p. h.stops node vm_id log))
                (λ started. given _ started (λ task.
                  Triple-bind (λ r log. Given r) (Triple-call _ _ (λ log p. h.awaits task log))
                    (λ done. given _ done (λ ended. Triple-return _ (λ log p. refl)))))))

  stop_and_delete-Finishes :
      (m : Machine) (vm : Vm) (node : Text) (vm_id : ℤ)
      → Finishes (stop_and_delete w m (some vm) node vm_id)
  unfolding stop_and_delete
  stop_and_delete-Finishes m vm node vm_id =
      Triple-either _
        (Triple-bind (λ stopped log. stopped.0 ≡ none) (stop-none m node vm_id)
          (λ stopped. unhindered _ stopped.0 (delete-Finishes stopped.1 node vm_id)))
        (delete-Finishes m node vm_id)

  -- The VM is there, or said to be missing.
  abbrev Seen : Result (Option Vm) → Type 0
  Seen r = ((e : Error) × (r ≡ err e) × (says_missing e ≡ true)) ⊎ ((vm : Vm) × (r ≡ ok (some vm)))

  missing : (e : Error) → Seen (err e) → says_missing e ≡ true
  missing e (inl (e', p, q)) = ground (arith, p, q)
  missing e (inr (vm, p)) = absurd (ground (arith, p))

  present : (o : Option Vm) → Seen (ok o) → (vm : Vm) × (o ≡ some vm)
  present o (inl (e, p, q)) = absurd (ground (arith, p))
  present o (inr (vm, p)) = (vm, ground (arith, p))

  found-Finishes :
      (m : Machine) (o : Option Vm) (node : Text) (vm_id : ℤ)
      → Triple
          (λ log. (vm : Vm) × (o ≡ some vm))
          (stop_and_delete w m o node vm_id)
          (λ r log. IsDone r)
  found-Finishes m none node vm_id = record { holds = λ log (vm, p). absurd (ground (arith, p)) }
  found-Finishes m (some vm) node vm_id = anyway (stop_and_delete-Finishes m vm node vm_id)

  terminate_vm-Finishes :
      (m : Machine) (node : Text) (vm_id : ℤ) → Finishes (terminate_vm w m node vm_id)
  unfolding terminate_vm
  terminate_vm-Finishes m node vm_id =
      Triple-bind (λ r log. Seen r) (Triple-call _ _ (λ log p. h.finds node vm_id log))
        (λ found.
          Triple-result (λ r log. Seen r) found
            (λ e.
              Triple-if (says_missing e) (λ b. anyway (finish-Finishes _ m))
                (λ b. record { holds = λ log p. absurd (ground (arith, b, missing e p)) }))
            (λ o. Triple-before (λ log p. present o p) (found-Finishes m o node vm_id)))

  read-Finishes :
      (m : Machine) (r : Result (Text × ℤ))
      → Given r
      → Finishes
          (elim r [ err e ↦ deletion_failed w e.message e m | ok id ↦ terminate_vm w m id.0 id.1 ])
  read-Finishes m (err e) (id, p) = absurd (ground (arith, p))
  read-Finishes m (ok id) p = terminate_vm-Finishes m id.0 id.1

  set_condition-IsReadable :
      (status reason message : Text) (m : Machine)
      → Triple
          (λ log. IsReadable m.status.provider_id)
          (set_condition w status reason message m)
          (λ m' log. IsReadable m'.status.provider_id)
  unfolding set_condition put_condition ◌>>=◌ return time
  set_condition-IsReadable status reason message m = record { holds = λ log p. p }

  unread : (b : Bool) (P : Type 0) → (b ≡ true) ⊎ P → b ≡ false → P
  unread b P (inl p) e = absurd (ground (arith, p, e))
  unread b P (inr p) e = p

  pub reconcile_terminating-Finishes :
      (m : Machine)
      → Triple
          (λ log. IsReadable m.status.provider_id)
          (reconcile_terminating w m)
          (λ r log. IsDone r)
  unfolding reconcile_terminating
  reconcile_terminating-Finishes m =
      Triple-bind (λ m' log. IsReadable m'.status.provider_id) (set_condition-IsReadable _ _ _ m)
        (λ m'.
          Triple-if (is_empty m'.status.provider_id) (λ b. Triple-return _ (λ log p. refl))
            (λ b. record {
              holds = λ log p.
                  (read-Finishes m' (ProviderId.parse m'.status.provider_id) (unread _ _ p b)).holds
                    log tt;
            }))
