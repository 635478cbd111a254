-- ===== src/Controller/Reconcile/Keeping.antt =====
-- How a property of the calls passes from the phases to a whole reconciliation.
use proxmox_operator.Base.{◌≡◌, refl, ◌∷◌, true, false}
use proxmox_operator.Crd.{Phase, Machine, MachineClass}
use proxmox_operator.World.{World, Call, Log, return}
use proxmox_operator.World.Makes.{
  machine_read, machine_write, class_read, status_write, kind, Kinds,
}
use proxmox_operator.World.Triple.{
  Triple, Triple-return, Triple-call, Triple-bind, Triple-result, Triple-either,
}
use proxmox_operator.Controller.Terminate.{reconcile_terminating}
use proxmox_operator.Controller.Reconcile.{
  release, terminate_and_release, handle_deletion, ensure_finalizer, by_phase, reconcile_by_phase,
  with_class, reconcile_live, reconcile_machine, reconcile,
}

-- The calls around the phases.
abbrev pub around : Kinds
around machine_read = true
around machine_write = true
around class_read = true
around status_write = true
around _ = false

module _ (w : World) (P : Log → Type 0)
    (outer : (c : Call) (log : Log) → around (kind c) ≡ true → P log → P (c ∷ log))
    (phases : (p : Phase) (m : Machine) (class : MachineClass)
      → Triple P (by_phase w p m class) (λ _. P))
    (terminating : (m : Machine) → Triple P (reconcile_terminating w m) (λ _. P)) where
  done : {A : Type 0} (a : A) → Triple P (return a) (λ _. P)
  done a = Triple-return a (λ log p. p)

  release-keeps : Triple P (release w) (λ _. P)
  unfolding release
  release-keeps =
      Triple-bind (λ _. P) (Triple-call _ _ (λ log. outer _ log refl))
        (λ found.
          Triple-result (λ _. P) found (λ e. Triple-either _ (done _) (done _))
            (λ m.
              Triple-bind (λ _. P) (Triple-call _ _ (λ log. outer _ log refl))
                (λ answer.
                  Triple-result (λ _. P) answer (λ e. Triple-either _ (done _) (done _))
                    (λ m'. done _))))

  handle_deletion-keeps : (m : Machine) → Triple P (handle_deletion w m) (λ _. P)
  unfolding handle_deletion terminate_and_release
  handle_deletion-keeps m = Triple-either _ (done _) (
      Triple-bind (λ _. P) (Triple-either _ (Triple-call _ _ (λ log. outer _ log refl)) (done _))
        (λ saved.
          Triple-result (λ _. P) saved (λ e. done _)
            (λ m'.
              Triple-bind (λ _. P) (terminating m')
                (λ r. Triple-result (λ _. P) r (λ e. done _) (λ q. release-keeps)))))

  with_class-keeps : (m : Machine) → Triple P (with_class w m) (λ _. P)
  unfolding reconcile_by_phase
  with_class-keeps m =
      Triple-bind (λ _. P) (Triple-call _ _ (λ log. outer _ log refl))
        (λ found.
          Triple-result (λ _. P) found (λ e. done _)
            (λ class. Triple-either _ (phases m.status.phase m class) (done _)))

  reconcile_live-keeps : (m : Machine) → Triple P (reconcile_live w m) (λ _. P)
  unfolding reconcile_live ensure_finalizer
  reconcile_live-keeps m =
      Triple-bind (λ _. P) (Triple-either _ (done _) (Triple-call _ _ (λ log. outer _ log refl)))
        (λ saved. Triple-result (λ _. P) saved (λ e. done _) with_class-keeps)

  pub reconcile-keeps : Triple P (reconcile w) (λ _. P)
  unfolding reconcile reconcile_machine
  reconcile-keeps =
      Triple-bind (λ _. P) (Triple-call _ _ (λ log. outer _ log refl))
        (λ found.
          Triple-result (λ _. P) found (λ e. Triple-either _ (done _) (done _))
            (λ m.
              Triple-either _ (done _)
                (Triple-either _ (handle_deletion-keeps m) (reconcile_live-keeps m))))
