-- ===== src/Controller/Lifecycle/Path.antt =====
-- The phases that one reconciliation sends.
use mathlib.Core.Path.{subst}
use proxmox_operator.Controller.Status.{with_phase}
use proxmox_operator.Base.{◌∷◌, ◌≡◌, refl, ◌∙◌, false, arith}
use proxmox_operator.Base.Errors.{Result, ok, err}
use proxmox_operator.Crd
use proxmox_operator.Crd.{Phase, Machine, MachineClass, is_proxmox}
use proxmox_operator.World.{World, Log, M, ◌>>=◌, call, return}
use proxmox_operator.World
use proxmox_operator.World.Triple.{
  Triple, Triple-return, Triple-call, Triple-bind, Triple-before, Triple-result, Triple-either,
  Triple-if,
}
use proxmox_operator.Controller.Create.{reconcile_creating}
use proxmox_operator.Controller.Reconcile.{
  needs_terminating, mark_terminating, terminate_and_release, release, handle_deletion,
  ensure_finalizer, add_finalizer, by_phase, reconcile_by_phase, with_class, reconcile_live,
  reconcile_machine, reconcile,
}
use proxmox_operator.Controller.Silent
use proxmox_operator.Controller.Silent.{Silent}
use proxmox_operator.Controller.Lifecycle
use proxmox_operator.Controller.Lifecycle.{Stores, Walk, stay}
use proxmox_operator.Controller.Lifecycle.Saving.{
  At, Onward, Onward-return, PhaseStep-Allows, Silent-Triple,
}
use proxmox_operator.Controller.Lifecycle.Adoption.{reconcile_create-Onward}
use proxmox_operator.Controller.Lifecycle.Running.{reconcile_running-Onward}
use proxmox_operator.Controller.Lifecycle.Ending.{reconcile_terminating-Onward}

module _ (w : World) (stores : Stores w) (before : Log) (start : Phase) where
  by_phase-Onward :
      (p : Phase) (m : Machine) (class : MachineClass)
      → m.status.phase ≡ p
      → Triple (At before start p) (by_phase w p m class) (Onward before start)
  unfolding reconcile_creating
  by_phase-Onward Crd.unset m class e = reconcile_create-Onward w stores before start m class refl
  by_phase-Onward Crd.pending m class e = reconcile_create-Onward w stores before start m class refl
  by_phase-Onward Crd.creating m class e = Onward-return before start _
  by_phase-Onward Crd.running m class e = reconcile_running-Onward w stores before start m e
  by_phase-Onward Crd.terminating m class e =
      reconcile_terminating-Onward w stores before start Crd.terminating refl m e
  by_phase-Onward Crd.stopping m class e = Onward-return before start _
  by_phase-Onward Crd.stopped m class e = Onward-return before start _
  by_phase-Onward Crd.terminated m class e = Onward-return before start _
  by_phase-Onward Crd.failed m class e = Onward-return before start _
  by_phase-Onward (Crd.other_phase t) m class e = Onward-return before start _

  reconcile_by_phase-Onward :
      {p : Phase} (m : Machine) (class : MachineClass)
      → m.status.phase ≡ p
      → Triple (At before start p) (reconcile_by_phase w m class) (Onward before start)
  unfolding reconcile_by_phase
  reconcile_by_phase-Onward m class e =
      subst (λ q. Triple (At before start q) (reconcile_by_phase w m class) (Onward before start)) e
        (by_phase-Onward m.status.phase m class refl)

  -- The machine that comes out, if there is one, has the phase p.
  abbrev Kept : Phase → Result Machine → Log → Type 0
  Kept p (err e) log = At before start p log
  Kept p (ok m) log = At before start p log × (m.status.phase ≡ p)

  updated :
      {p : Phase} (m : Machine) (a : Result Machine) (log : Log)
      → ((m' : Machine) → a ≡ ok m' → m'.status.phase ≡ p)
      → At before start p log
      → Kept p a (World.update m a ∷ log)
  updated m (err e) log h walk = Lifecycle.call _ refl walk
  updated m (ok m') log h walk = (Lifecycle.call _ refl walk, h m' refl)

  ensure_finalizer-Kept :
      {p : Phase} (m : Machine)
      → m.status.phase ≡ p
      → Triple (At before start p) (ensure_finalizer w m) (Kept p)
  unfolding ensure_finalizer
  ensure_finalizer-Kept m e = Triple-either _ (Triple-return _ (λ log walk. (walk, e))) (
      Triple-call _ _ (λ log walk.
        updated (add_finalizer m) _ log (λ m' k. stores.keeps_status (add_finalizer m) m' log k ∙ e)
          walk))

  with_class-Onward :
      {p : Phase} (m : Machine)
      → m.status.phase ≡ p
      → Triple (At before start p) (with_class w m) (Onward before start)
  with_class-Onward {p = p} m e =
      Triple-bind (λ _. At before start p)
        (Triple-call _ _ (λ log walk. Lifecycle.call _ refl walk))
        (λ found.
          Triple-result (λ _. At before start p) found (λ failure. Onward-return before start _)
            (λ class.
              Triple-either _ (reconcile_by_phase-Onward m class e) (Onward-return before start _)))

  reconcile_live-Onward :
      {p : Phase} (m : Machine)
      → m.status.phase ≡ p
      → Triple (At before start p) (reconcile_live w m) (Onward before start)
  unfolding reconcile_live
  reconcile_live-Onward {p = p} m e = Triple-bind (Kept p) (ensure_finalizer-Kept m e) (λ saved.
      Triple-result (Kept p) saved (λ failure. Onward-return before start _)
        (λ m'. record { holds = λ log (walk, e'). (with_class-Onward m' e').holds log walk }))

  -- The machine is Terminating or Terminated.
  abbrev Marked : Result Machine → Log → Type 0
  Marked (err e) log = Onward before start e log
  Marked (ok m) log =
      (q : Phase) × At before start q log × (m.status.phase ≡ q) × (needs_terminating q ≡ false)

  marked :
      (m : Machine) (a : Result Machine) (log : Log)
      → ((m' : Machine) → a ≡ ok m' → m'.status.phase ≡ Crd.terminating)
      → At before start Crd.terminating (World.update_status m a ∷ log)
      → Marked a (World.update_status m a ∷ log)
  marked m (err e) log h walk = (_, walk)
  marked m (ok m') log h walk = (_, walk, h m' refl, refl)

  mark_terminating-Marked :
      {p : Phase} (m : Machine)
      → m.status.phase ≡ p
      → Triple (At before start p) (mark_terminating w m) Marked
  mark_terminating-Marked {p = p} m e =
      Triple-if (needs_terminating m.status.phase)
        (λ b. Triple-call _ _ (λ log walk.
          marked (with_phase Crd.terminating m) _ log
            (λ m' k. stores.stores_status (with_phase Crd.terminating m) m' log k)
            (PhaseStep-Allows before start (Lifecycle.delete_step (ground (arith, e))) _ _ log refl
              walk)))
        (λ b. Triple-return _ (λ log walk. (p, walk, e, ground (arith, e))))

  release-Onward : {p : Phase} → Triple (At before start p) (release w) (Onward before start)
  release-Onward {p = p} =
      Triple-before (λ log walk. walk)
        (record {
          holds = λ log walk.
              (p, (Silent-Triple before start (Silent.release-Silent w)).holds log walk);
        })

  terminate_and_release-Onward :
      (p : Phase) (m : Machine)
      → m.status.phase ≡ p
      → needs_terminating p ≡ false
      → Triple (At before start p) (terminate_and_release w m) (Onward before start)
  unfolding terminate_and_release
  terminate_and_release-Onward p m e ending =
      Triple-bind (Onward before start)
        (reconcile_terminating-Onward w stores before start p ending m e)
        (λ r.
          Triple-result (Onward before start) r (λ e. Triple-return _ (λ log walk. walk))
            (λ _. record { holds = λ log (q, walk). release-Onward.holds log walk }))

  handle_deletion-Onward :
      {p : Phase} (m : Machine)
      → m.status.phase ≡ p
      → Triple (At before start p) (handle_deletion w m) (Onward before start)
  unfolding handle_deletion
  handle_deletion-Onward m e = Triple-either _ (Onward-return before start _) (
      Triple-bind Marked (mark_terminating-Marked m e) (λ saved.
        Triple-result Marked saved (λ failure. Triple-return _ (λ log walk. walk))
          (λ m'. record {
            holds = λ log (q, walk, e', ending).
                (terminate_and_release-Onward q m' e' ending).holds log walk;
          })))

  reconcile_machine-Onward :
      {p : Phase} (m : Machine)
      → m.status.phase ≡ p
      → Triple (At before start p) (reconcile_machine w m) (Onward before start)
  unfolding reconcile_machine
  reconcile_machine-Onward m e =
      Triple-either _ (Onward-return before start _)
        (Triple-either _ (handle_deletion-Onward m e) (reconcile_live-Onward m e))

-- In one reconciliation the phases of the statuses that are sent go, one after the other, from the phase
-- of the machine that was read along the steps of `PhaseStep`, with a single exception: after the status
-- of an adoption was refused, by an error other than a conflict, Creating may follow Running. The server
-- is assumed to store the phases that it is sent.
pub reconcile-Walk :
    (w : World) (m : Machine) (log : Log)
    → Stores w
    → w.machine_answer log ≡ ok m
    → (last : Phase) × Walk log m.status.phase last (reconcile w log).1
unfolding reconcile ◌>>=◌ call return
reconcile-Walk w m log stores h = rw h (
    (reconcile_machine-Onward w stores log m.status.phase m refl).holds
      (World.get_machine (ok m) ∷ log) (Lifecycle.call (World.get_machine (ok m)) refl stay))
