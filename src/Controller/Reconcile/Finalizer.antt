-- ===== src/Controller/Reconcile/Finalizer.antt =====
-- The place of the finalizer in every update of the machine.
use mathlib.Core.Path.{subst}
use proxmox_operator.Base.{◌≡◌, refl, ◌∙◌, ◌⊎◌, inl, inr, [], ◌∷◌, ◌++◌, List, true, false, arith}
use proxmox_operator.Base.Text.{Text, eq_text_refl}
use proxmox_operator.Base.Errors.{Result, ok}
use proxmox_operator.Crd
use proxmox_operator.Crd.{Phase, terminating, Machine, MachineClass}
use proxmox_operator.World
use proxmox_operator.World.{World, Call, Log, M, ◌>>=◌, call, return, update}
use proxmox_operator.World.Makes.{Kind, kind, machine_write, Kinds, Makes, Makes-more}
use proxmox_operator.World.Triple.{
  Triple, Triple-return, Triple-call, Triple-bind, Triple-before, Triple-result, Triple-either,
  Triple-of_Makes,
}
use proxmox_operator.Controller.Create.{is_listed}
use proxmox_operator.Controller.Status.{with_phase}
use proxmox_operator.Controller.Terminate.{reconcile_terminating}
use proxmox_operator.Controller.Terminate.Release.{IsOk, IsConcluded, reconcile_terminating_ok}
use proxmox_operator.Controller.VmCalls.{vm_calls}
use proxmox_operator.Controller.Footprint.Phases.{
  phase_kinds, by_phase-Makes, reconcile_terminating-Makes,
}
use proxmox_operator.Controller.Reconcile.{
  machine_finalizer, has_finalizer, add_finalizer, remove_finalizer, mark_terminating, release,
  terminate_and_release, handle_deletion, ensure_finalizer, by_phase, reconcile_by_phase,
  with_class, reconcile_live, reconcile_machine, reconcile,
}

-- All kinds but one.
abbrev no_write : Kinds
no_write machine_write = false
no_write _ = true

-- In the calls after the log `before` each update of the machine has the finalizer, or the provider ID is empty or
-- that of a VM whose look-up or deletion was concluded.
pub data Releasing (provider_id : Text) (before : Log) : Log → Type 0 where
  start : Releasing provider_id before before
  other :
      {log : Log} (c : Call)
      → no_write (kind c) ≡ true
      → Releasing provider_id before log
      → Releasing provider_id before (c ∷ log)
  write :
      {log : Log} (m : Machine) (a : Result Machine)
      → (has_finalizer m ≡ true) ⊎ IsConcluded provider_id (vm_calls log)
      → Releasing provider_id before log
      → Releasing provider_id before (update m a ∷ log)

-- The answer to a status update has the provider ID that was sent.
abbrev pub KeepsIds : World → Type 0
KeepsIds w =
    (m m' : Machine) (log : Log)
    → w.update_status_answer m log ≡ ok m'
    → m'.status.provider_id ≡ m.status.provider_id

phase_kinds-machine_write : (p : Phase) → phase_kinds p machine_write ≡ false
phase_kinds-machine_write Crd.unset = refl
phase_kinds-machine_write Crd.pending = refl
phase_kinds-machine_write Crd.running = refl
phase_kinds-machine_write terminating = refl
phase_kinds-machine_write _ = refl

phase_kinds-no_write : (p : Phase) (k : Kind) → phase_kinds p k ≡ true → no_write k ≡ true
phase_kinds-no_write p machine_write h = absurd (ground (arith, phase_kinds-machine_write p))
phase_kinds-no_write p _ h = refl

is_listed-last : (x : Text) (xs : List Text) → is_listed x (xs ++ x ∷ []) ≡ true
unfolding is_listed
is_listed-last x [] = ground (arith, eq_text_refl x)
is_listed-last x (y ∷ xs) = ground (arith, is_listed-last x xs)

module _ (w : World) (provider_id : Text) (before : Log) where
  abbrev Kept : Log → Type 0
  Kept = Releasing provider_id before

  Makes-Kept : {A : Type 0} {m : M A} → Makes no_write m → Triple Kept m (λ _. Kept)
  Makes-Kept p = Triple-of_Makes Kept (λ c log h k. other c h k) p

  by_phase-Kept :
      (p : Phase) (m : Machine) (class : MachineClass)
      → Triple Kept (by_phase w p m class) (λ _. Kept)
  by_phase-Kept p m class =
      Makes-Kept (Makes-more (phase_kinds-no_write p) (by_phase-Makes w p m class))

  return-Kept : {A : Type 0} (a : A) → Triple Kept (return a) (λ _. Kept)
  return-Kept a = Triple-return a (λ log k. k)

  with_class-Kept : (m : Machine) → Triple Kept (with_class w m) (λ _. Kept)
  unfolding reconcile_by_phase
  with_class-Kept m =
      Triple-bind (λ _. Kept) (Triple-call _ _ (λ log k. other _ refl k))
        (λ found.
          Triple-result (λ _. Kept) found (λ e. return-Kept _)
            (λ class. Triple-either _ (by_phase-Kept m.status.phase m class) (return-Kept _)))

  reconcile_live-Kept : (m : Machine) → Triple Kept (reconcile_live w m) (λ _. Kept)
  unfolding reconcile_live ensure_finalizer
  reconcile_live-Kept m =
      Triple-bind (λ _. Kept)
        (Triple-either _ (return-Kept _) (
          Triple-call _ _ (λ log k.
            write (add_finalizer m) _ (inl (is_listed-last machine_finalizer m.finalizers)) k)))
        (λ saved. Triple-result (λ _. Kept) saved (λ e. return-Kept _) (λ m'. with_class-Kept m'))

  -- The look-up or the deletion of the VM is concluded.
  abbrev Done : Log → Type 0
  Done log = Kept log × IsConcluded provider_id (vm_calls log)

  release-Kept : Triple Done (release w) (λ _. Kept)
  unfolding release
  release-Kept =
      Triple-bind (λ _. Done) (Triple-call _ _ (λ log (k, done). (other _ refl k, done)))
        (λ found.
          Triple-result (λ _. Done) found
            (λ e. Triple-before (λ log g. g.0) (Triple-either _ (return-Kept _) (return-Kept _)))
            (λ m.
              Triple-bind (λ _. Kept)
                (Triple-call _ _ (λ log (k, done). write (remove_finalizer m) _ (inr done) k))
                (λ answer.
                  Triple-result (λ _. Kept) answer
                    (λ e. Triple-either _ (return-Kept _) (return-Kept _)) (λ m'. return-Kept _))))

  terminate_and_release-Kept :
      (m : Machine)
      → m.status.provider_id ≡ provider_id
      → Triple Kept (terminate_and_release w m) (λ _. Kept)
  unfolding terminate_and_release
  terminate_and_release-Kept m e =
      Triple-bind (λ r log. Kept log × (IsOk r → IsConcluded provider_id (vm_calls log)))
        (record {
          holds = λ log k. (
            (Makes-Kept (
                  Makes-more (phase_kinds-no_write terminating)
                    (reconcile_terminating-Makes w m))).holds
                log k,
            λ h.
                subst (λ i. IsConcluded i (vm_calls (reconcile_terminating w m log).1)) e
                  (reconcile_terminating_ok w m log h),
          );
        })
        (λ r.
          Triple-result (λ r log. Kept log × (IsOk r → IsConcluded provider_id (vm_calls log))) r
            (λ failure. Triple-before (λ log k. k.0) (return-Kept _))
            (λ q. Triple-before (λ log (k, done). (k, done tt)) release-Kept))

  -- The machine that goes on, if there is one, has the provider ID.
  abbrev Same : Result Machine → Log → Type 0
  Same r log = Kept log × ((m : Machine) → r ≡ ok m → m.status.provider_id ≡ provider_id)

  mark_terminating-Same :
      (m : Machine)
      → KeepsIds w
      → m.status.provider_id ≡ provider_id
      → Triple Kept (mark_terminating w m) Same
  mark_terminating-Same m keeps e =
      Triple-either _
        (Triple-call _ _
          (λ log k. (other _ refl k, λ m' h. keeps (with_phase terminating m) m' log h ∙ e)))
        (Triple-return (ok m) (λ log k. (k, λ m' h. ground (arith, h, e))))

  handle_deletion-Kept :
      (m : Machine)
      → KeepsIds w
      → m.status.provider_id ≡ provider_id
      → Triple Kept (handle_deletion w m) (λ _. Kept)
  unfolding handle_deletion
  handle_deletion-Kept m keeps e = Triple-either _ (return-Kept _) (
      Triple-bind Same (mark_terminating-Same m keeps e) (λ saved.
        Triple-result Same saved (λ failure. Triple-before (λ log k. k.0) (return-Kept _))
          (λ m'. record {
            holds = λ log (k, same). (terminate_and_release-Kept m' (same m' refl)).holds log k;
          })))

  reconcile_machine-Kept :
      (m : Machine)
      → KeepsIds w
      → m.status.provider_id ≡ provider_id
      → Triple Kept (reconcile_machine w m) (λ _. Kept)
  unfolding reconcile_machine
  reconcile_machine-Kept m keeps e =
      Triple-either _ (return-Kept _)
        (Triple-either _ (handle_deletion-Kept m keeps e) (reconcile_live-Kept m))

-- In one reconciliation of a machine that was read with this provider ID, each update of the machine has
-- the finalizer, unless the provider ID is empty, or names the VM that the last calls concerning VMs before the
-- update are about: the last one asked for it and the error says that there is none, or the last two asked for
-- its deletion and awaited the task of that, both without an error. The status that the task ended with may
-- be any. The server is assumed to keep the provider ID in a status that it is sent.
pub reconcile-Releasing :
    (w : World) (m : Machine) (log : Log)
    → KeepsIds w
    → w.machine_answer log ≡ ok m
    → Releasing m.status.provider_id log (reconcile w log).1
unfolding reconcile ◌>>=◌ call return
reconcile-Releasing w m log keeps h = rw h (
    (reconcile_machine-Kept w m.status.provider_id log m keeps refl).holds
      (World.get_machine (ok m) ∷ log) (other (World.get_machine (ok m)) refl start))
