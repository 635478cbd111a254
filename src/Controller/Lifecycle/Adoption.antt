-- ===== src/Controller/Lifecycle/Adoption.antt =====
-- The phases that a machine goes through from "" or Pending on: its VM is there, or one is created.
use mathlib.Core.Path.{subst}
use proxmox_operator.Base.{◌≡◌, refl, sym, ◌⊎◌, inl, inr, ◌∷◌, Option, none, some, true}
use proxmox_operator.Base.Int.{ℤ}
use proxmox_operator.Base.Text.{Text}
use proxmox_operator.Base.Errors.{Error, ok, err}
use proxmox_operator.Crd.{Phase, creating, running, Machine, MachineClass}
use proxmox_operator.ProviderId
use proxmox_operator.World.{World, Vm, Log, return, update_status}
use proxmox_operator.World.Triple.{
  Triple, Triple-return, Triple-bind, Triple-before, Triple-after, Triple-result, Triple-option,
  Triple-either,
}
use proxmox_operator.Controller.Status.{with_phase}
use proxmox_operator.Controller.Create.{
  no_requeue, adopt, find_existing, check_existing_vm, start_create, reconcile_create,
}
use proxmox_operator.Controller.Run.Watch.{update_vm_status-SameMachine}
use proxmox_operator.Controller.Silent
use proxmox_operator.Controller.Lifecycle.{PhaseStep, Stores, Walk, begin_again, is_new}
use proxmox_operator.Controller.Lifecycle
use proxmox_operator.Controller.Lifecycle.Saving.{
  set_condition-Triple, update_status_with_retry-Triple, At, Onward, Onward-return, Allows, Refused,
  Saved, PhaseStep-Allows, Silent-Triple_with, Triple-after_Silent, save-Triple,
}
use proxmox_operator.Controller.Lifecycle.Creation.{place-Onward}

module _ (w : World) (stores : Stores w) (before : Log) (start : Phase) where
  -- The status of the adoption was refused.
  abbrev Unadopted : Error → Log → Type 0
  Unadopted e log = At before start running log × Refused before start e log

  Unadopted-Allows : (e : Error) → Allows before start (Unadopted e) creating
  Unadopted-Allows e m a log c (walk, (m', earlier, sent, b)) =
      subst (λ l. At before start creating (update_status m a ∷ l)) (sym sent)
        (begin_again e m' m a b c (subst (At before start running) sent walk))

  start_create-Onward :
      {P : Log → Type 0} (m : Machine) (class : MachineClass)
      → Allows before start P creating
      → Triple P (start_create w m class) (Onward before start)
  unfolding start_create
  start_create-Onward m class h =
      Triple-before (λ log p. (p, refl))
        (save-Triple w stores before start _ _ _ (with_phase creating m) h (λ saved.
          Triple-before (λ log s. s.0.0)
            (Triple-option (λ _. At before start creating) saved.0
              (place-Onward w stores before start saved.1 class)
              (λ e. Onward-return before start (err e)))))

  -- After the look for an existing VM: without an error the machine runs, and with one no status was
  -- sent or it was refused.
  abbrev Looked : Phase → Option Error → Log → Type 0
  Looked p none log = At before start running log
  Looked p (some e) log = At before start p log ⊎ Unadopted e log

  abbrev Existing : Phase → Option Error × Machine → Log → Type 0
  Existing p existing = Looked p existing.0

  Looked-of_Saved :
      (p : Phase) (saved : Option Error × Machine) (log : Log)
      → Saved before start running saved log
      → Existing p saved log
  Looked-of_Saved p (none, m) log ((walk, phase), refused) = walk
  Looked-of_Saved p (some e, m) log ((walk, phase), refused) = inr (walk, refused e refl)

  not_there :
      {p : Phase} (e : Error) (m : Machine)
      → Triple (At before start p) (return (some e, m)) (Existing p)
  not_there e m = Triple-return _ (λ log walk. inl walk)

  adopt-Looked :
      {p : Phase} (m : Machine) (vm : Option Vm) (node : Text)
      → is_new p ≡ true
      → Triple (At before start p) (adopt w m vm node) (Existing p)
  adopt-Looked m none node h = not_there _ m
  adopt-Looked {p = p} m (some vm) node h =
      Triple-bind (λ m1 log. At before start p log × (m1.status.phase ≡ running))
        (Silent-Triple_with before start (λ m1. m1.status.phase ≡ running)
          (λ log. (update_vm_status-SameMachine w (some vm) node (with_phase running m) log).0)
          (Silent.update_vm_status-Silent w (some vm) node (with_phase running m)))
        (λ m1.
          Triple-after
            (Triple-bind (λ m2 log. At before start p log × (m2.status.phase ≡ running))
              (set_condition-Triple w stores before start _ _ _ m1)
              (λ m2.
                update_status_with_retry-Triple w stores before start m2
                  (PhaseStep-Allows before start (Lifecycle.adopt_step h))))
            (Looked-of_Saved p))

  find_existing-Looked :
      {p : Phase} (m : Machine) (node : Text) (vm_id : ℤ)
      → is_new p ≡ true
      → Triple (At before start p) (find_existing w m node vm_id) (Existing p)
  find_existing-Looked {p = p} m node vm_id h =
      Triple-after_Silent before start (Silent.get_vm-Silent w node vm_id) (λ found.
        Triple-result (λ _. At before start p) found (λ e. not_there _ m)
          (λ vm. adopt-Looked m vm node h))

  check_existing_vm-Looked :
      {p : Phase} (m : Machine)
      → is_new p ≡ true
      → Triple (At before start p) (check_existing_vm w m) (Existing p)
  unfolding check_existing_vm
  check_existing_vm-Looked {p = p} m h = Triple-either _ (not_there _ m) (
      Triple-result (λ _. At before start p) (ProviderId.parse m.status.provider_id)
        (λ e. not_there e m) (λ id. find_existing-Looked m id.0 id.1 h))

  begin-Allows :
      {p : Phase} (e : Error)
      → is_new p ≡ true
      → Allows before start (λ log. At before start p log ⊎ Unadopted e log) creating
  begin-Allows e h m a log c (inl walk) =
      PhaseStep-Allows before start (Lifecycle.begin_step h) m a log c walk
  begin-Allows e h m a log c (inr u) = Unadopted-Allows e m a log c u

  Looked-Onward :
      (p : Phase) (m : Machine) (class : MachineClass) (o : Option Error)
      → is_new p ≡ true
      → Triple
          (Looked p o)
          (elim o [ none ↦ return (ok no_requeue) | some e ↦ start_create w m class ])
          (Onward before start)
  Looked-Onward p m class none h = Triple-return _ (λ log walk. (_, walk))
  Looked-Onward p m class (some e) h = start_create-Onward m class (begin-Allows e h)

  pub reconcile_create-Onward :
      {p : Phase} (m : Machine) (class : MachineClass)
      → is_new p ≡ true
      → Triple (At before start p) (reconcile_create w m class) (Onward before start)
  unfolding reconcile_create
  reconcile_create-Onward {p = p} m class h =
      Triple-bind (Existing p) (check_existing_vm-Looked m h)
        (λ existing. Looked-Onward p existing.1 class existing.0 h)
