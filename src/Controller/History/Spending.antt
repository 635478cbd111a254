-- ===== src/Controller/History/Spending.antt =====
-- The phase of the machine before and after a reconciliation that creates a VM.
use mathlib.Core.Path.{subst}
use proxmox_operator.Base.{arith, ◌≡◌, refl, ◌∙◌, ◌⊎◌, inl, inr, ℕ, true, false}
use proxmox_operator.Base.Errors.{Result, ok}
use proxmox_operator.Crd
use proxmox_operator.Crd.{Phase, creating, Machine, MachineClass, is_proxmox}
use proxmox_operator.World.{time, World, Log, M, ◌>>=◌, call, return}
use proxmox_operator.World.Triple.{
  Triple, Triple-return, Triple-call, Triple-bind, Triple-before, Triple-after, Triple-result,
  Triple-option, Triple-either,
}
use proxmox_operator.Controller.Status.{
  put_condition, with_phase, set_condition, update_status_with_retry,
}
use proxmox_operator.Controller.Create.{place, reconcile_creating, start_create, reconcile_create}
use proxmox_operator.Controller.Lifecycle.Creation.{place-Onward}
use proxmox_operator.Controller.VmCalls.Creation.OnCreate.{check_existing_vm-Keeps}
use proxmox_operator.Controller.VmCalls.Creation.Once.{
  return-Keeps, call-Keeps, Keeps-of_Makes, handle_deletion-Keeps,
}
use proxmox_operator.Controller.Footprint.Phases.{
  reconcile_running-Makes, reconcile_terminating-Makes,
}
use proxmox_operator.Base.Text.{Text}
use proxmox_operator.Controller.Reconcile.{
  ensure_finalizer, add_finalizer, by_phase, reconcile_by_phase, with_class, reconcile_live,
  reconcile_machine,
}
use proxmox_operator.Controller.VmCalls.{vm_calls}
use proxmox_operator.Controller.VmCalls.Creation.{creates, Keeps}
use proxmox_operator.Controller.Lifecycle.{Stores, is_new, stay}
use proxmox_operator.Controller.History.Store.{stored_phase, Walk-is_new, Walk-stored_phase}

-- So many VMs were created.
abbrev pub Created : ℕ → Log → Type 0
Created n log = creates (vm_calls log) ≡ n

-- The machine is not new any more.
abbrev pub Begun : Log → Type 0
Begun log = is_new (stored_phase log) ≡ false

-- No further VM was created, or the machine was new, and is so no more.
abbrev pub Spent : ℕ → Phase → Log → Type 0
Spent n p log = Created n log ⊎ ((is_new p ≡ true) × Begun log)

module _ (w : World) (stores : Stores w) where
  place-Begun :
      (m : Machine) (class : MachineClass)
      → Triple (λ log. stored_phase log ≡ creating) (place w m class) (λ _. Begun)
  place-Begun m class = record {
    holds = λ log e.
        let (p, walk) = (place-Onward w stores log creating m class).holds log stay in
        rw (Walk-stored_phase e walk) (Walk-is_new walk refl);
  }

  set_condition-creating :
      (status reason message : Text) (m : Machine)
      → Triple
          (λ log. Unit)
          (set_condition w status reason message (with_phase creating m))
          (λ m' log. m'.status.phase ≡ creating)
  unfolding set_condition ◌>>=◌ return time put_condition
  set_condition-creating status reason message m = record { holds = λ log p. refl }

  update_status_with_retry-stored :
      (m : Machine)
      → Triple
          (λ log. m.status.phase ≡ creating)
          (update_status_with_retry w m)
          (λ saved log. stored_phase log ≡ creating)
  unfolding update_status_with_retry ◌>>=◌ call return
  update_status_with_retry-stored m = record { holds = λ log e. ground (arith, e) }

  start_create-Begun :
      (m : Machine) (class : MachineClass)
      → Triple (λ log. Unit) (start_create w m class) (λ _. Begun)
  unfolding start_create
  start_create-Begun m class =
      Triple-bind (λ m1 log. m1.status.phase ≡ creating) (set_condition-creating _ _ _ m)
        (λ m1.
          Triple-bind (λ saved log. stored_phase log ≡ creating)
            (update_status_with_retry-stored m1)
            (λ saved.
              Triple-option (λ _ log. stored_phase log ≡ creating) saved.0
                (place-Begun saved.1 class) (λ e. Triple-return _ (λ log k. rw k refl))))

module _ (w : World) (stores : Stores w) (n : ℕ) where
  -- The program spends at most the one VM of a machine in this phase.
  abbrev Spends : {A : Type 0} → Phase → M A → Type 0
  Spends p m = Triple (Created n) m (λ _. Spent n p)

  Keeps-Triple : {A : Type 0} {m : M A} → Keeps m → Triple (Created n) m (λ _. Created n)
  Keeps-Triple k = record { holds = λ log e. k.same_number log ∙ e }

  Keeps-Spends : {A : Type 0} (p : Phase) {m : M A} → Keeps m → Spends p m
  Keeps-Spends p k = record { holds = λ log e. inl (k.same_number log ∙ e) }

  reconcile_create-Spends :
      (p : Phase) (m : Machine) (class : MachineClass)
      → is_new p ≡ true
      → Spends p (reconcile_create w m class)
  unfolding reconcile_create
  reconcile_create-Spends p m class h =
      Triple-bind (λ _. Created n) (Keeps-Triple (check_existing_vm-Keeps w m))
        (λ existing.
          Triple-option (λ _. Created n) existing.0 (Keeps-Spends _ (return-Keeps _))
            (λ e.
              Triple-after
                (Triple-before (λ log _. tt) (start_create-Begun w stores existing.1 class))
                (λ _ log b. inr (h, b))))

  by_phase-Spends :
      (p : Phase) (m : Machine) (class : MachineClass) → Spends p (by_phase w p m class)
  unfolding reconcile_creating
  by_phase-Spends Crd.unset m class = reconcile_create-Spends Crd.unset m class refl
  by_phase-Spends Crd.pending m class = reconcile_create-Spends Crd.pending m class refl
  by_phase-Spends Crd.creating m class = Keeps-Spends Crd.creating (return-Keeps _)
  by_phase-Spends Crd.running m class =
      Keeps-Spends Crd.running (Keeps-of_Makes refl (reconcile_running-Makes w m))
  by_phase-Spends Crd.terminating m class =
      Keeps-Spends Crd.terminating (Keeps-of_Makes refl (reconcile_terminating-Makes w m))
  by_phase-Spends Crd.failed m class = Keeps-Spends Crd.failed (return-Keeps _)
  by_phase-Spends p m class = Keeps-Spends p (return-Keeps _)

  with_class-Spends : (m : Machine) → Spends m.status.phase (with_class w m)
  unfolding reconcile_by_phase
  with_class-Spends m =
      Triple-bind (λ _. Created n) (Keeps-Triple (call-Keeps _ _ (λ a. refl)))
        (λ found.
          Triple-result (λ _. Created n) found (λ e. Keeps-Spends _ (return-Keeps _))
            (λ class.
              Triple-either _ (by_phase-Spends m.status.phase m class)
                (Keeps-Spends _ (return-Keeps _))))

  -- The machine that comes out, if there is one, has the phase p.
  abbrev Kept : Phase → Result Machine → Log → Type 0
  Kept p saved log = Created n log × ((m : Machine) → saved ≡ ok m → m.status.phase ≡ p)

  ensure_finalizer-Kept :
      (m : Machine) → Triple (Created n) (ensure_finalizer w m) (Kept m.status.phase)
  unfolding ensure_finalizer
  ensure_finalizer-Kept m =
      Triple-either _ (Triple-return _ (λ log e. (e, (λ m' k. ground (arith, k)))))
        (Triple-call _ _ (λ log e. (e, (λ m' k. stores.keeps_status (add_finalizer m) m' log k))))

  reconcile_live-Spends : (m : Machine) → Spends m.status.phase (reconcile_live w m)
  unfolding reconcile_live
  reconcile_live-Spends m = Triple-bind (Kept m.status.phase) (ensure_finalizer-Kept m) (λ saved.
      Triple-result (Kept m.status.phase) saved
        (λ e. Triple-before (λ log k. k.0) (Keeps-Spends _ (return-Keeps _)))
        (λ m'. record {
          holds = λ log (e, same).
              subst (λ p. Spent n p (with_class w m' log).1) (same m' refl)
                ((with_class-Spends m').holds log e);
        }))

  pub reconcile_machine-Spends : (m : Machine) → Spends m.status.phase (reconcile_machine w m)
  unfolding reconcile_machine
  reconcile_machine-Spends m =
      Triple-either _ (Keeps-Spends _ (return-Keeps _))
        (Triple-either _ (Keeps-Spends _ (handle_deletion-Keeps w m)) (reconcile_live-Spends m))
