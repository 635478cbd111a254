-- ===== src/Controller/Lifecycle/Idle.antt =====
-- The phases in which the controller leaves a machine alone.
use mathlib.Core.Path.{subst}
use proxmox_operator.Base.Text.{text}
use proxmox_operator.Base.{
  sym, ◌≡◌, refl, ap, ◌∙◌, ◌∷◌, ◌++◌, [], ◌⊎◌, inl, inr, not, Bool, true, false, arith,
}
use proxmox_operator.Base.Errors.{Error, Result, ok, err}
use proxmox_operator.Crd
use proxmox_operator.Crd.{Phase, Machine, MachineClass, is_proxmox}
use proxmox_operator.World.{World, Log, M, ◌>>=◌, call, return}
use proxmox_operator.World
use proxmox_operator.World.Triple.{
  Triple, Triple-return, Triple-call, Triple-bind, Triple-result, Triple-either, Triple-if,
}
use proxmox_operator.Controller.Create.{Requeue, no_requeue, reconcile_creating}
use proxmox_operator.Controller.Reconcile.{
  has_finalizer, handle_deletion, ensure_finalizer, add_finalizer, by_phase, reconcile_by_phase,
  with_class, reconcile_live, reconcile_machine, reconcile,
}
use proxmox_operator.Controller.Lifecycle.{Stores}

-- Neither new nor running nor terminating.
abbrev pub is_idle : Phase → Bool
is_idle Crd.unset = false
is_idle Crd.pending = false
is_idle Crd.running = false
is_idle Crd.terminating = false
is_idle _ = true

-- If there is no error, nothing is to be done later.
abbrev NoLater : Result Requeue → Type 0
NoLater r = (q : Requeue) → r ≡ ok q → q ≡ no_requeue

-- The machine with the operator's finalizer behind its own ones.
abbrev finalized : Machine → Machine
finalized m = record m { finalizers = m.finalizers ++ text "vitistack.io/proxmox-machine" ∷ [] }

-- The log after the machine is read.
abbrev fetched : Machine → Log → Log
fetched m before = World.get_machine (ok m) ∷ before

-- All calls of the reconciliation: the machine is read, and if it is one of this provider its class is read, after
-- the update that adds the finalizer if the machine does not have it; that update may fail.
abbrev pub LeftAlone : Machine → Log → Result Requeue → Log → Type 0
LeftAlone m before r after =
    NoLater r
    × (((is_proxmox m.spec.provider ≡ false) × (after ≡ fetched m before))
        ⊎ ((has_finalizer m ≡ true)
            × (a : Result MachineClass) × (after
                ≡ World.get_class m.spec.machine_class a ∷ fetched m before))
        ⊎ ((has_finalizer m ≡ false)
            × (e : Error) × (after ≡ World.update (finalized m) (err e) ∷ fetched m before))
        ⊎ ((has_finalizer m ≡ false)
            × (m' : Machine) × (a : Result MachineClass) × (after
                ≡ World.get_class m'.spec.machine_class a
                  ∷ World.update (finalized m) (ok m')
                  ∷ fetched m before)))

module _ (w : World) (stores : Stores w) where
  -- The program makes no call, and asks for nothing to be done later.
  abbrev Quits : (Log → Type 0) → M (Result Requeue) → Type 0
  Quits P p = Triple P p (λ r log. NoLater r × P log)

  idle_return : {P : Log → Type 0} → Quits P (return (ok no_requeue))
  idle_return = Triple-return _ (λ log p. ((λ q e. ground (arith, e)), p))

  idle_error : {P : Log → Type 0} (e : Error) → Quits P (return (err e))
  idle_error e = Triple-return _ (λ log p. ((λ q f. absurd (ground (arith, f))), p))

  by_phase-Quits :
      {P : Log → Type 0} (p : Phase) (m : Machine) (class : MachineClass)
      → is_idle p ≡ true
      → Quits P (by_phase w p m class)
  unfolding reconcile_creating
  by_phase-Quits Crd.unset m class e = absurd (ground (arith, e))
  by_phase-Quits Crd.pending m class e = absurd (ground (arith, e))
  by_phase-Quits Crd.running m class e = absurd (ground (arith, e))
  by_phase-Quits Crd.terminating m class e = absurd (ground (arith, e))
  by_phase-Quits Crd.creating m class e = idle_return
  by_phase-Quits Crd.stopping m class e = idle_return
  by_phase-Quits Crd.stopped m class e = idle_return
  by_phase-Quits Crd.terminated m class e = idle_return
  by_phase-Quits Crd.failed m class e = idle_return
  by_phase-Quits (Crd.other_phase t) m class e = idle_return

  abbrev Idle : Machine → Type 0
  Idle m = is_idle m.status.phase ≡ true

  -- The log is this one, or with the reading of the machine's class.
  abbrev Asked : Machine → Log → Log → Type 0
  Asked m start log =
      (a : Result MachineClass) × (log ≡ World.get_class m.spec.machine_class a ∷ start)

  with_class-Asked :
      (m : Machine) (start : Log)
      → Idle m
      → Triple (λ log. log ≡ start) (with_class w m) (λ r log. NoLater r × Asked m start log)
  unfolding reconcile_by_phase
  with_class-Asked m start e =
      Triple-bind (λ _. Asked m start)
        (Triple-call _ _ (λ log p. (
          _,
          ap
              (λ l.
                World.get_class m.spec.machine_class (w.class_answer m.spec.machine_class log) ∷ l)
              p,
        )))
        (λ found.
          Triple-result (λ _. Asked m start) found idle_error
            (λ class. Triple-either _ (by_phase-Quits m.status.phase m class e) idle_return))

  module _ (m : Machine) (before : Log) where
    -- What the saving of the finalizer gives, and the log.
    abbrev Kept : Result Machine → Log → Type 0
    Kept (err e) log =
        (has_finalizer m ≡ false) × (log ≡ World.update (finalized m) (err e) ∷ fetched m before)
    Kept (ok m') log =
        Idle m'
        × (((has_finalizer m ≡ true) × (m' ≡ m) × (log ≡ fetched m before))
            ⊎ ((has_finalizer m ≡ false)
                × (log ≡ World.update (finalized m) (ok m') ∷ fetched m before)))

    updated :
        (a : Result Machine)
        → has_finalizer m ≡ false
        → ((m' : Machine) → a ≡ ok m' → Idle m')
        → Kept a (World.update (finalized m) a ∷ fetched m before)
    updated (err e) b h = (b, refl)
    updated (ok m') b h = (h m' refl, inr (b, refl))

    ensure_finalizer-Kept :
        Idle m → Triple (λ log. log ≡ fetched m before) (ensure_finalizer w m) Kept
    unfolding ensure_finalizer
    ensure_finalizer-Kept e =
        Triple-if (has_finalizer m) (λ b. Triple-return _ (λ log p. (e, inl (b, refl, p))))
          (λ b. Triple-call _ _ (λ log p.
            subst
              (λ l.
                Kept (w.update_answer (add_finalizer m) log)
                  (World.update (add_finalizer m) (w.update_answer (add_finalizer m) log) ∷ l))
              (sym p)
              (updated (w.update_answer (add_finalizer m) log) b
                (λ m' k. ap is_idle (stores.keeps_status (add_finalizer m) m' log k) ∙ e))))

    Kept-LeftAlone :
        (m' : Machine) (log : Log)
        → Kept (ok m') log
        → let (r, after) = with_class w m' log in LeftAlone m before r after
    Kept-LeftAlone m' log (idle, inl (b, same, e)) =
        let (quiet, (a, f)) = (with_class-Asked m' log idle).holds log refl in
        (
          quiet,
          inr (
              inl (
                b,
                a,
                f
                    ∙ ap (λ (x : Machine). World.get_class x.spec.machine_class a ∷ log) same
                    ∙ ap (λ l. World.get_class m.spec.machine_class a ∷ l) e,
              )),
        )
    Kept-LeftAlone m' log (idle, inr (b, e)) =
        let (quiet, (a, f)) = (with_class-Asked m' log idle).holds log refl in
        (
          quiet,
          inr (inr (inr (b, m', a, f ∙ ap (λ l. World.get_class m'.spec.machine_class a ∷ l) e))),
        )

    reconcile_live-LeftAlone :
        Idle m → Triple (λ log. log ≡ fetched m before) (reconcile_live w m) (LeftAlone m before)
    unfolding reconcile_live
    reconcile_live-LeftAlone e = Triple-bind Kept (ensure_finalizer-Kept e) (λ saved.
        Triple-result Kept saved
          (λ f.
            Triple-return _
              (λ log (b, p). ((λ q g. absurd (ground (arith, g))), inr (inr (inl (b, f, p))))))
          (λ m'. record { holds = λ log k. Kept-LeftAlone m' log k }))

    reconcile_machine-LeftAlone :
        m.deleting ≡ false
        → Idle m
        → Triple (λ log. log ≡ fetched m before) (reconcile_machine w m) (LeftAlone m before)
    unfolding reconcile_machine
    reconcile_machine-LeftAlone d e =
        Triple-if (not (is_proxmox m.spec.provider))
          (λ b. Triple-return _ (λ log p. ((λ q g. ground (arith, g)), inl (ground (arith, b), p))))
          (λ b.
            Triple-if {m = handle_deletion w m} m.deleting (λ c. absurd (ground (arith, c, d)))
              (λ _. reconcile_live-LeftAlone e))

-- A machine that is not being deleted is left alone in every phase but "", Pending, Running and
-- Terminating, also in Creating: the reconciliation reads the machine and, if it is one of this provider, its
-- class; before that it adds the operator's finalizer behind the others, and changes nothing else of the machine,
-- if the machine does not have it, and ends if this fails. It makes no other call, and without an error asks
-- for no later reconciliation. The server is assumed to keep the phase.
pub reconcile-LeftAlone :
    (w : World) (m : Machine) (log : Log)
    → Stores w
    → w.machine_answer log ≡ ok m
    → m.deleting ≡ false
    → is_idle m.status.phase ≡ true
    → LeftAlone m log (reconcile w log).0 (reconcile w log).1
unfolding reconcile ◌>>=◌ call return
reconcile-LeftAlone w m log stores h d e =
    rw h ((reconcile_machine-LeftAlone w stores m log d e).holds (fetched m log) refl)
