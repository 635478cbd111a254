-- ===== src/Controller/Run/Interval.antt =====
-- When a running machine is looked at again.
use proxmox_operator.Base.{◌≡◌, refl, ◌⊎◌, inl, inr, Option, none, some, false, arith}
use proxmox_operator.Base.Int.{ℤ}
use proxmox_operator.Base.Text.{Text}
use proxmox_operator.Base.Errors.{Error, Result, ok, err}
use proxmox_operator.Crd.{Machine}
use proxmox_operator.ProviderId
use proxmox_operator.World.{World, Vm, Log}
use proxmox_operator.World.Triple.{
  Triple, Triple-return, Triple-call, Triple-bind, Triple-result, Triple-if,
}
use proxmox_operator.Controller.Create.{Requeue, report}
use proxmox_operator.Controller.Create.Recorded.{IsErr}
use proxmox_operator.Controller.Progress.{Anyway, anyway, any}
use proxmox_operator.Controller.Terminate.{says_missing}
use proxmox_operator.Controller.Run.{update_interval, refresh, watch, reconcile_running}

-- The machine is looked at again after the interval, or at once after an error.
abbrev pub IsWatched : Result Requeue → Type 0
IsWatched r = (r ≡ ok update_interval) ⊎ IsErr r

-- The answer for the VM does not say that it is missing.
abbrev pub IsThere : Result (Option Vm) → Type 0
IsThere found = (e : Error) → found ≡ err e → says_missing e ≡ false

module _ (w : World) where
  report-IsWatched :
      (o : Option Error) → Triple Anyway (report update_interval o) (λ r log. IsWatched r)
  report-IsWatched none = Triple-return _ (λ log p. inl refl)
  report-IsWatched (some e) = Triple-return _ (λ log p. inr tt)

  refresh-IsWatched :
      (m : Machine) (vm : Option Vm) (node : Text)
      → Triple Anyway (refresh w m vm node) (λ r log. IsWatched r)
  unfolding refresh
  refresh-IsWatched m vm node =
      Triple-bind (λ _. Anyway) any
        (λ m1.
          Triple-bind (λ _. Anyway) any
            (λ m2. Triple-bind (λ _. Anyway) any (λ saved. report-IsWatched saved.0)))

  -- The VM was not said to be missing.
  watch-IsWatched :
      (m : Machine) (node : Text) (vm_id : ℤ)
      → Triple
          (λ log. IsThere (w.vm_answer node vm_id log))
          (watch w m node vm_id)
          (λ r log. IsWatched r)
  unfolding watch
  watch-IsWatched m node vm_id =
      Triple-bind (λ found log. IsThere found) (Triple-call _ _ (λ log p. p))
        (λ found.
          Triple-result (λ found log. IsThere found) found
            (λ e.
              Triple-if (says_missing e)
                (λ b. record { holds = λ log p. absurd (ground (arith, b, p e refl)) })
                (λ b. Triple-return _ (λ log p. inl refl)))
            (λ vm. anyway (refresh-IsWatched m vm node)))

  -- A running machine whose provider ID can be read is looked at again: after 10 seconds, or after an error, unless
  -- the answer for its VM is an error that says that it is missing.
  pub reconcile_running-IsWatched :
      (m : Machine) (node : Text) (vm_id : ℤ) (log : Log)
      → ProviderId.parse m.status.provider_id ≡ ok (node, vm_id)
      → IsThere (w.vm_answer node vm_id log)
      → IsWatched (reconcile_running w m log).0
  unfolding reconcile_running
  reconcile_running-IsWatched m node vm_id log e p =
      rw (reconcile_running, e) ((watch-IsWatched m node vm_id).holds log p)
