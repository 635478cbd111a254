-- ===== src/Controller/Terminate/Stopping.antt =====
-- The calls before each request to delete a VM. The code awaits the task of a stop and does not look at the status
-- that it ended with.
use proxmox_operator.Base.{
  ◌++◌, ◌≡◌, ◌⊎◌, inl, inr, ap, refl, ◌∷◌, [], Option, none, some, false, if◌then◌else◌,
}
use proxmox_operator.Base.Int.{ℤ}
use proxmox_operator.Base.Text.{is_empty, Text, text, eq_text}
use proxmox_operator.Base.Errors.{Error, Result, ok, err}
use proxmox_operator.Crd.{Machine}
use proxmox_operator.ProviderId
use proxmox_operator.World
use proxmox_operator.World.{World, Vm, Task, Log, M, ◌>>=◌, ◌>>◌, call, return}
use proxmox_operator.Controller.Create.{no_requeue}
use proxmox_operator.Controller.Terminate.{
  says_missing, deletion_failed, stop, await_deleted, delete, stop_and_delete, terminate_vm,
  reconcile_terminating,
}
use proxmox_operator.Controller.VmCalls.{
  vm_calls, Quiet, Quiet-return, Quiet-bind, Quiet-if, set_condition-Quiet,
  update_status_with_retry-Quiet, delete_netconf-Quiet,
}
use proxmox_operator.Controller.VmCalls.Triple.{
  Triple, Triple-bind, Triple-after_Quiet, Triple-of_Quiet, Triple-return, Triple-result, Triple-if,
}
use proxmox_operator.Controller.Terminate.Release.{finish-Quiet}

-- The last calls concerning VMs: this VM was asked for and has another status than running, or it was asked
-- for, and a stop of it was requested, and the wait for the task of that gave no error, whatever status the
-- task ended with.
abbrev pub IsReady : Text → ℤ → Log → Type 0
IsReady node vm_id log =
    ((vm : Vm) × (before : Log) × (log ≡ World.get_vm node vm_id (ok (some vm)) ∷ before)
      × (eq_text vm.vm_status (text "running") ≡ false))
    ⊎ ((task ended : Task) × (vm : Vm) × (before : Log) × (log
          ≡ World.wait task (ok ended)
            ∷ World.stop_vm node vm_id (ok task)
            ∷ World.get_vm node vm_id (ok (some vm))
            ∷ before))

-- This was so before each call that deletes a VM.
abbrev pub Careful : Log → Type 0
Careful [] = Unit
Careful (World.delete_vm node vm_id a ∷ log) = IsReady node vm_id log × Careful log
Careful (_ ∷ log) = Careful log

module _ (w : World) where
  -- The program keeps to that.
  abbrev Cares : {A : Type 0} → (Log → Type 0) → M A → Type 0
  Cares P m = Triple P m (λ a. Careful)

  Quiet-Cares : {A : Type 0} {m : M A} → Quiet m → Cares Careful m
  Quiet-Cares q = Triple-of_Quiet q (λ a log c. c)

  deletion_failed-Quiet :
      (condition : Text) (e : Error) (m : Machine) → Quiet (deletion_failed w condition e m)
  deletion_failed-Quiet condition e m =
      Quiet-bind (set_condition-Quiet w _ _ _ _) (λ _. Quiet-return _)

  -- Before a deletion.
  abbrev Ready : Text → ℤ → Log → Type 0
  Ready node vm_id log = IsReady node vm_id log × Careful log

  request-Cares :
      (node : Text) (vm_id : ℤ)
      → Cares (Ready node vm_id) (call (w.deleted_answer node vm_id) (World.delete_vm node vm_id))
  unfolding call
  request-Cares node vm_id = record { holds = λ log p. p }

  wait-Cares : (task : Task) → Cares Careful (call (w.waited_answer task) (World.wait task))
  unfolding call
  wait-Cares task = record { holds = λ log p. p }

  delete-Cares :
      (m : Machine) (node : Text) (vm_id : ℤ) → Cares (Ready node vm_id) (delete w m node vm_id)
  unfolding delete await_deleted
  delete-Cares m node vm_id =
      Triple-bind (λ _. Careful) (request-Cares node vm_id)
        (λ r.
          Triple-result (λ _. Careful) r (λ e. Quiet-Cares (deletion_failed-Quiet _ e m))
            (λ task.
              Triple-bind (λ _. Careful) (wait-Cares task)
                (λ done.
                  Triple-result (λ _. Careful) done (λ e. Quiet-Cares (deletion_failed-Quiet _ e m))
                    (λ ended.
                      Triple-after_Quiet (delete_netconf-Quiet w m)
                        (λ _. Quiet-Cares (finish-Quiet w _ m))))))

  -- The last call has shown this VM.
  abbrev Shown : Vm → Text → ℤ → Log → Type 0
  Shown vm node vm_id log =
      ((before : Log) × (log ≡ World.get_vm node vm_id (ok (some vm)) ∷ before)) × Careful log

  -- After the request to stop it.
  abbrev Asked : Vm → Text → ℤ → Result Task → Log → Type 0
  Asked vm node vm_id answer log =
      ((before : Log) × (log
          ≡ World.stop_vm node vm_id answer ∷ World.get_vm node vm_id (ok (some vm)) ∷ before))
      × Careful log

  -- After its task was awaited.
  abbrev Waited : Text → ℤ → Result Task → Log → Type 0
  Waited node vm_id (err e) log = Careful log
  Waited node vm_id (ok ended) log = Ready node vm_id log

  -- After `stopVM`.
  abbrev Stopped : Text → ℤ → Option Error × Machine → Log → Type 0
  Stopped node vm_id (some e, m) log = Careful log
  Stopped node vm_id (none, m) log = Ready node vm_id log

  stop_request-Triple :
      (vm : Vm) (node : Text) (vm_id : ℤ)
      → Triple
          (Shown vm node vm_id)
          (call (w.stopped_answer node vm_id) (World.stop_vm node vm_id))
          (Asked vm node vm_id)
  unfolding call
  stop_request-Triple vm node vm_id = record {
    holds = λ log ((before, e), c).
        ((before, ap (λ l. World.stop_vm node vm_id (w.stopped_answer node vm_id log) ∷ l) e), c);
  }

  waited :
      (vm : Vm) (node : Text) (vm_id : ℤ) (task : Task) (answer : Result Task) (log : Log)
      → Asked vm node vm_id (ok task) log
      → Waited node vm_id answer (World.wait task answer ∷ log)
  waited vm node vm_id task (err e) log (_, c) = c
  waited vm node vm_id task (ok ended) log ((before, e), c) =
      (inr (task, ended, vm, before, ap (λ l. World.wait task (ok ended) ∷ l) e), c)

  wait-Triple :
      (vm : Vm) (node : Text) (vm_id : ℤ) (task : Task)
      → Triple
          (Asked vm node vm_id (ok task))
          (call (w.waited_answer task) (World.wait task))
          (Waited node vm_id)
  unfolding call
  wait-Triple vm node vm_id task = record {
    holds = λ log p. waited vm node vm_id task _ (vm_calls log) p;
  }

  stop-Stopped :
      (m : Machine) (vm : Vm) (node : Text) (vm_id : ℤ)
      → Triple (Shown vm node vm_id) (stop w m node vm_id) (Stopped node vm_id)
  unfolding stop
  stop-Stopped m vm node vm_id = Triple-after_Quiet (set_condition-Quiet w _ _ _ m) (λ m1.
      Triple-after_Quiet (update_status_with_retry-Quiet w m1) (λ saved.
        Triple-bind (Asked vm node vm_id) (stop_request-Triple vm node vm_id) (λ started.
          Triple-result (Asked vm node vm_id) started
            (λ e.
              Triple-after_Quiet (set_condition-Quiet w _ _ _ saved.1)
                (λ m'. Triple-return _ (λ log p. p.1)))
            (λ task. Triple-bind (Waited node vm_id) (wait-Triple vm node vm_id task) (λ done.
              Triple-result (Waited node vm_id) done
                (λ e.
                  Triple-after_Quiet (set_condition-Quiet w _ _ _ saved.1)
                    (λ m'. Triple-return _ (λ log p. p)))
                (λ ended. Triple-return _ (λ log p. p)))))))

  Stopped-Cares :
      (stopped : Option Error × Machine) (node : Text) (vm_id : ℤ)
      → Triple
          (Stopped node vm_id stopped)
          (elim stopped.0 [ some e ↦ return (err e) | none ↦ delete w stopped.1 node vm_id ])
          (λ a. Careful)
  Stopped-Cares (some e, m) node vm_id = Triple-return _ (λ log p. p)
  Stopped-Cares (none, m) node vm_id = delete-Cares m node vm_id

  stop_and_delete-Cares :
      (m : Machine) (vm : Vm) (node : Text) (vm_id : ℤ)
      → Cares (Shown vm node vm_id) (stop_and_delete w m (some vm) node vm_id)
  unfolding stop_and_delete
  stop_and_delete-Cares m vm node vm_id =
      Triple-if (eq_text vm.vm_status (text "running"))
        (λ b.
          Triple-bind (Stopped node vm_id) (stop-Stopped m vm node vm_id)
            (λ stopped. Stopped-Cares stopped node vm_id))
        (λ b. record {
          holds = λ log ((before, e), c).
              (delete-Cares m node vm_id).holds log (inl (vm, before, e, b), c);
        })

  -- After the VM was asked for.
  abbrev Found : Text → ℤ → Result (Option Vm) → Log → Type 0
  Found node vm_id answer log =
      ((before : Log) × (log ≡ World.get_vm node vm_id answer ∷ before)) × Careful log

  Found-Cares :
      (m : Machine) (vm : Option Vm) (node : Text) (vm_id : ℤ)
      → Cares (Found node vm_id (ok vm)) (stop_and_delete w m vm node vm_id)
  unfolding stop_and_delete
  Found-Cares m none node vm_id = Triple-return _ (λ log p. p.1)
  Found-Cares m (some vm) node vm_id = stop_and_delete-Cares m vm node vm_id

  find-Triple :
      (node : Text) (vm_id : ℤ)
      → Triple Careful (call (w.vm_answer node vm_id) (World.get_vm node vm_id)) (Found node vm_id)
  unfolding call
  find-Triple node vm_id = record { holds = λ log c. ((vm_calls log, refl), c) }

  terminate_vm-Cares :
      (m : Machine) (node : Text) (vm_id : ℤ) → Cares Careful (terminate_vm w m node vm_id)
  unfolding terminate_vm
  terminate_vm-Cares m node vm_id =
      Triple-bind (Found node vm_id) (find-Triple node vm_id) (λ found.
        Triple-result (Found node vm_id) found
          (λ e. record {
            holds = λ log p.
                (Quiet-Cares (
                    Quiet-if (says_missing e)
                      (finish-Quiet w (text "VM already deleted or never existed") m)
                      (deletion_failed-Quiet (text "Failed to get VM: " ++ e.message) e m))).holds
                  log p.1;
          })
          (λ vm. Found-Cares m vm node vm_id))

  -- In the termination of a machine, whatever the outside answers, the call concerning VMs just before each
  -- request to delete a VM asked for this VM on this node, and its status was another than running, or
  -- the three calls before asked for it, asked to stop it and awaited the task of that without an
  -- error. The status that the task ended with may be any.
  pub reconcile_terminating-Careful :
      (m : Machine) (log : Log)
      → Careful (vm_calls log)
      → Careful (vm_calls (reconcile_terminating w m log).1)
  unfolding reconcile_terminating
  reconcile_terminating-Careful m log c =
      (Triple-after_Quiet (set_condition-Quiet w _ _ _ m) (λ m'. parsed-Cares m')).holds log c
    where
      parsed-Cares :
          (m' : Machine)
          → Cares Careful (
              if is_empty m'.status.provider_id
              then return (ok no_requeue)
              else elim (ProviderId.parse m'.status.provider_id) [
                | err e ↦ deletion_failed w e.message e m'
                | ok id ↦ terminate_vm w m' id.0 id.1
              ])
      parsed-Cares m' =
          Triple-if (is_empty m'.status.provider_id) (λ b. Triple-return _ (λ log p. p))
            (λ b.
              Triple-result (λ _. Careful) (ProviderId.parse m'.status.provider_id)
                (λ e. Quiet-Cares (deletion_failed-Quiet _ e m'))
                (λ id. terminate_vm-Cares m' id.0 id.1))
