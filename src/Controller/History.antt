-- ===== src/Controller/History.antt =====
-- Many reconciliations, one after the other, with what others call in between.
pub mod Deletions
pub mod Ids
pub mod Store
pub mod Lifetime
pub mod Spending
use proxmox_operator.Base.{◌≤◌, ℕ, suc, [], arith}
use proxmox_operator.World.{World, Log}
use proxmox_operator.Controller.Reconcile.{reconcile}
use proxmox_operator.Controller.VmCalls.{vm_calls}
use proxmox_operator.Controller.VmCalls.Creation.{creates, Guarded}
use proxmox_operator.Controller.VmCalls.Creation.Once.{reconcile-Creates}

-- The log after so many reconciliations, each of them with a world of its own, since the settings and the
-- answers may be others after a restart.
pub data History : ℕ → Log → Type 0 where
  started : History 0 []
  reconciled : {n : ℕ} {log : Log} (w : World) → History n log → History (suc n) (reconcile w log).1

-- However often the machine is reconciled, and whatever the outside answers, no more VMs are created than
-- there were reconciliations, and before each creation the last call concerning VMs asked for this ID on
-- this node and showed no VM.
pub History-Guarded :
    (n : ℕ) (log : Log) → History n log → (creates (vm_calls log) ≤ n) × Guarded (vm_calls log)
History-Guarded _ _ started = (omega arith, tt)
History-Guarded _ _ (reconciled {log = log} w h) =
    let (few, guarded) = History-Guarded _ log h in
    (
      omega (arith, few, (reconcile-Creates w).at_most_one log tt),
      (reconcile-Creates w).guards log tt guarded,
    )
