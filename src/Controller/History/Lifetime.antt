-- ===== src/Controller/History/Lifetime.antt =====
-- A machine over all its reconciliations, in a cluster that stores its status.
use mathlib.Core.Path.{subst}
use proxmox_operator.Base.{◌≡◌, refl, ◌∙◌, inl, inr, ◌≤◌, ℕ, suc, true, [], ◌∷◌, Bool-cases, arith}
use proxmox_operator.Base.Errors.{Error, ok, err, Result-cases}
use proxmox_operator.Crd.{Phase, unset, Machine}
use proxmox_operator.World
use proxmox_operator.World.{World, Log, ◌>>=◌, call, return}
use proxmox_operator.Controller.Reconcile.{reconcile}
use proxmox_operator.Controller.VmCalls.{vm_calls}
use proxmox_operator.Controller.VmCalls.Creation.{creates}
use proxmox_operator.Controller.VmCalls.Creation.Once.{reconcile-Creates}
use proxmox_operator.Controller.Lifecycle
use proxmox_operator.Controller.Lifecycle.{is_new, Walk, stay}
use proxmox_operator.Controller.Lifecycle.Path.{reconcile-Walk}
use proxmox_operator.Controller.History.Store.{
  stored_phase, Serves, Walk-is_new, Walk-stored_phase, Walk-trans,
}
use proxmox_operator.Controller.History.Spending.{Begun, Spent, reconcile_machine-Spends}

-- The log after so many reconciliations of one machine. Each has a world of its own, since the settings and the
-- answers may be others after a restart, but the store keeps the statuses.
pub data Lifetime : ℕ → Log → Type 0 where
  born : Lifetime 0 []
  lived :
      {n : ℕ} {log : Log} (w : World)
      → Serves w
      → Lifetime n log
      → Lifetime (suc n) (reconcile w log).1

-- The way through the phases ends at the stored one.
abbrev pub OnPath : Log → Type 0
OnPath log = (last : Phase) × Walk [] unset last log × (stored_phase log ≡ last)

module _ (w : World) (serves : Serves w) where
  unread :
      (log : Log) (e : Error)
      → w.machine_answer log ≡ err e
      → (reconcile w log).1 ≡ World.get_machine (err e) ∷ log
  unfolding reconcile ◌>>=◌ call return
  unread log e h = rw h (ground arith)

  -- The way through one reconciliation, from the stored phase on.
  reconcile-stored :
      (log : Log) → (last : Phase) × Walk log (stored_phase log) last (reconcile w log).1
  reconcile-stored log = elim (Result-cases (w.machine_answer log)) [
    | inl (e, h) ↦ rw (unread log e h) (stored_phase log, Lifecycle.call _ refl stay)
    | inr (m, h) ↦
        subst (λ p. (last : Phase) × Walk log p last (reconcile w log).1) (serves.serves m log h)
          (reconcile-Walk w m log serves.stores h)
  ]

  reconcile-OnPath : (log : Log) → OnPath log → OnPath (reconcile w log).1
  reconcile-OnPath log (p, walk, here) =
      let (last, further) = reconcile-stored log in
      let further' = subst (λ q. Walk log q last (reconcile w log).1) here further in
      (last, Walk-trans walk further', Walk-stored_phase here further')

  -- A machine that is stored in another phase than "" and Pending stays so.
  reconcile-Begun : (log : Log) → Begun log → Begun (reconcile w log).1
  reconcile-Begun log b =
      let (last, walk) = reconcile-stored log in
      rw (Walk-stored_phase refl walk) (Walk-is_new walk b)

  read-Spent :
      (m : Machine) (log : Log)
      → w.machine_answer log ≡ ok m
      → Spent (creates (vm_calls log)) m.status.phase (reconcile w log).1
  unfolding reconcile ◌>>=◌ call return
  read-Spent m log h = rw h ((reconcile_machine-Spends w serves.stores _ m).holds _ refl)

  reconcile-Spent :
      (log : Log) → Spent (creates (vm_calls log)) (stored_phase log) (reconcile w log).1
  reconcile-Spent log = elim (Result-cases (w.machine_answer log)) [
    | inl (e, h) ↦ rw (unread log e h) (inl refl)
    | inr (m, h) ↦
        subst (λ p. Spent (creates (vm_calls log)) p (reconcile w log).1) (serves.serves m log h)
          (read-Spent m log h)
  ]

-- One VM at most was created, and none while the machine is new.
abbrev Thrifty : Log → Type 0
Thrifty log =
    (creates (vm_calls log) ≤ 1) × (is_new (stored_phase log) ≡ true → creates (vm_calls log) ≡ 0)

not_new : (log : Log) → Begun log → is_new (stored_phase log) ≡ true → creates (vm_calls log) ≡ 0
not_new log b h = absurd (ground arith)

reconcile-Thrifty : (w : World) (log : Log) → Serves w → Thrifty log → Thrifty (reconcile w log).1
reconcile-Thrifty w log serves (few, fresh) = elim (reconcile-Spent w serves log) [
  | inl same ↦ elim (Bool-cases (is_new (stored_phase log))) [
    | inl new ↦ (omega (arith, same), (λ h. same ∙ fresh new))
    | inr begun ↦
        (omega (arith, same), not_new (reconcile w log).1 (reconcile-Begun w serves log begun))
  ]
  | inr (new, begun) ↦ (
    omega (arith, fresh new, (reconcile-Creates w).at_most_one log tt),
    not_new (reconcile w log).1 begun,
  )
]

-- The phases of all statuses that are sent in the reconciliations of a machine, one after the other, go
-- along the steps of PhaseStep from "", with the exception of Walk, if the server stores each status.
pub Lifetime-OnPath : (n : ℕ) (log : Log) → Lifetime n log → OnPath log
Lifetime-OnPath _ _ born = (unset, stay, refl)
Lifetime-OnPath _ _ (lived {log = log} w serves h) =
    reconcile-OnPath w serves log (Lifetime-OnPath _ log h)

-- However often a machine is reconciled, and whatever the outside answers, at most one VM is created for
-- it, if the server stores each status that it is sent and gives the phase of the last one when the machine is read;
-- while that is "" or Pending, none was created.
pub Lifetime-creates_once :
    (n : ℕ) (log : Log)
    → Lifetime n log
    → (creates (vm_calls log) ≤ 1) × (is_new (stored_phase log) ≡ true → creates (vm_calls log) ≡ 0)
Lifetime-creates_once _ _ born = (omega arith, λ h. refl)
Lifetime-creates_once _ _ (lived {log = log} w serves h) =
    reconcile-Thrifty w log serves (Lifetime-creates_once _ log h)
