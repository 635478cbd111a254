-- ===== src/Controller/Reconcile/Deleting.antt =====
-- The reconciliation of a machine that is to be deleted, where all goes well.
use mathlib.Core.Path.{subst}
use proxmox_operator.Base.{◌≡◌, refl, sym, ◌∷◌, [], List, not, true, false, arith}
use proxmox_operator.Base.Text.{Text}
use proxmox_operator.Base.Errors.{Result, ok}
use proxmox_operator.Crd
use proxmox_operator.Crd.{Machine, is_proxmox}
use proxmox_operator.World.{World, Log, ◌>>=◌, call, update}
use proxmox_operator.World.Triple.{
  Triple, Triple-return, Triple-call, Triple-bind, Triple-result, Triple-if,
}
use proxmox_operator.Controller.Status.{with_phase}
use proxmox_operator.Controller.Create.{Requeue, no_requeue, is_listed}
use proxmox_operator.Controller.Progress.{Anyway, IsDone, Given, anyway, given}
use proxmox_operator.Controller.Terminate.Success.{
  Obeys, IsReadable, reconcile_terminating-Finishes,
}
use proxmox_operator.Controller.Reconcile.{
  machine_finalizer, has_finalizer, without, remove_finalizer, mark_terminating, needs_terminating,
  release, terminate_and_release, handle_deletion, reconcile_machine, reconcile,
}

-- The last call is an update of the machine without the finalizer.
abbrev pub IsReleased : Log → Type 0
IsReleased log =
    (m : Machine) × (a : Result Machine) × (before : Log) × (log ≡ update m a ∷ before)
    × (has_finalizer m ≡ false)

-- The machine can be read and updated.
pub record Reachable (w : World) : Type 0 where
  pub reads : (log : Log) → (m : Machine) × (w.machine_answer log ≡ ok m)
  pub updates : (m : Machine) (log : Log) → (m' : Machine) × (w.update_answer m log ≡ ok m')

is_listed-without : (x : Text) (xs : List Text) → is_listed x (without x xs) ≡ false
unfolding is_listed without
is_listed-without x [] = refl
is_listed-without x (y ∷ ys) = ground (arith, is_listed-without x ys)

module _ (w : World) (h : Obeys w) (r : Reachable w) where
  abbrev Released : Result Requeue → Log → Type 0
  Released q log = IsDone q × IsReleased log

  remove_finalizer-gone : (m : Machine) → has_finalizer (remove_finalizer m) ≡ false
  unfolding remove_finalizer
  remove_finalizer-gone m = is_listed-without machine_finalizer m.finalizers

  release-Released : Triple Anyway (release w) Released
  unfolding release
  release-Released =
      Triple-bind (λ a log. Given a) (Triple-call _ _ (λ log p. r.reads log))
        (λ found. given _ found (λ m.
          Triple-bind (λ a log. Given a × IsReleased log)
            (Triple-call _ _ (λ log p. (
              r.updates (remove_finalizer m) log,
              (remove_finalizer m, _, log, refl, remove_finalizer-gone m),
            )))
            (λ answer.
              Triple-result (λ a log. Given a × IsReleased log) answer
                (λ e. record { holds = λ log ((m', p), s). absurd (ground (arith, p)) })
                (λ m'. Triple-return _ (λ log (g, s). (refl, s))))))

  terminate_and_release-Released :
      (m : Machine)
      → Triple (λ log. IsReadable m.status.provider_id) (terminate_and_release w m) Released
  unfolding terminate_and_release
  terminate_and_release-Released m =
      Triple-bind (λ q log. IsDone q) (reconcile_terminating-Finishes w h m)
        (λ q.
          Triple-result (λ q log. IsDone q) q
            (λ e. record { holds = λ log p. absurd (ground (arith, p)) })
            (λ q'. anyway release-Released))

  -- The machine goes on with its provider ID.
  abbrev Same : Text → Result Machine → Type 0
  Same id a = (m : Machine) × (a ≡ ok m) × (m.status.provider_id ≡ id)

  mark_terminating-Same :
      (m : Machine) → Triple Anyway (mark_terminating w m) (λ a log. Same m.status.provider_id a)
  mark_terminating-Same m =
      Triple-if (needs_terminating m.status.phase)
        (λ b. Triple-call _ _ (λ log p.
          (with_phase Crd.terminating m, h.saves (with_phase Crd.terminating m) log, refl)))
        (λ b. Triple-return (ok m) (λ log p. (m, refl, refl)))

  handle_deletion-Released :
      (m : Machine)
      → IsReadable m.status.provider_id
      → has_finalizer m ≡ true
      → Triple Anyway (handle_deletion w m) Released
  unfolding handle_deletion
  handle_deletion-Released m readable f =
      Triple-if (not (has_finalizer m)) (λ b. absurd (ground (arith, b, f)))
        (λ b.
          Triple-bind (λ a log. Same m.status.provider_id a) (mark_terminating-Same m)
            (λ saved.
              Triple-result (λ a log. Same m.status.provider_id a) saved
                (λ e. record { holds = λ log (m', p, q). absurd (ground (arith, p)) })
                (λ m'. record {
                  holds = λ log (m2, p, q).
                      let e : m2 ≡ m' = ground (arith, p) in
                      (terminate_and_release-Released m').holds log (
                        subst (λ x. IsReadable x.status.provider_id) e
                          (subst IsReadable (sym q) readable));
                })))

  reconcile_machine-Released :
      (m : Machine)
      → IsReadable m.status.provider_id
      → has_finalizer m ≡ true
      → is_proxmox m.spec.provider ≡ true
      → m.deleting ≡ true
      → Triple Anyway (reconcile_machine w m) Released
  unfolding reconcile_machine
  reconcile_machine-Released m readable f p d =
      Triple-if (not (is_proxmox m.spec.provider)) (λ b. absurd (ground (arith, b, p)))
        (λ b.
          Triple-if m.deleting (λ c. handle_deletion-Released m readable f)
            (λ c. absurd (ground (arith, c, d))))

-- Where all goes well, one reconciliation of a machine that is being deleted, has the finalizer and an empty or
-- well-formed provider ID ends without an error, and the last call is an update of the machine without the
-- finalizer.
pub reconcile-Released :
    (w : World) (m : Machine) (log : Log)
    → Obeys w
    → Reachable w
    → w.machine_answer log ≡ ok m
    → is_proxmox m.spec.provider ≡ true
    → m.deleting ≡ true
    → has_finalizer m ≡ true
    → IsReadable m.status.provider_id
    → ((reconcile w log).0 ≡ ok no_requeue) × IsReleased (reconcile w log).1
unfolding reconcile ◌>>=◌ call
reconcile-Released w m log h r e p d f readable =
    rw e ((reconcile_machine-Released w h r m readable f p d).holds _ tt)
