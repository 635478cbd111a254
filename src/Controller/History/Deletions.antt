-- ===== src/Controller/History/Deletions.antt =====
-- The deletions in many reconciliations.
use proxmox_operator.Base.{◌≡◌, refl, ◌∷◌, true, false, ℕ, arith}
use proxmox_operator.Crd
use proxmox_operator.Crd.{Phase, Machine, MachineClass}
use proxmox_operator.World
use proxmox_operator.World.{World, Call, Log, M}
use proxmox_operator.World.Makes.{Kind, kind, vm_delete, Kinds, Makes, Makes-more}
use proxmox_operator.World.Triple.{Triple, Triple-of_Makes}
use proxmox_operator.Controller.Terminate.{reconcile_terminating}
use proxmox_operator.Controller.Terminate.Stopping.{Careful, reconcile_terminating-Careful}
use proxmox_operator.Controller.VmCalls.{vm_calls}
use proxmox_operator.Controller.Footprint.Phases.{by_phase-Makes}
use proxmox_operator.Controller.Reconcile.{by_phase}
use proxmox_operator.Controller.Reconcile.Keeping.{around, reconcile-keeps}
use proxmox_operator.Controller.History.{History, started, reconciled}

-- All kinds but one.
abbrev no_delete : Kinds
no_delete vm_delete = false
no_delete _ = true

abbrev AllCareful : Log → Type 0
AllCareful log = Careful (vm_calls log)

Careful-call :
    (c : Call) (log : Log) → no_delete (kind c) ≡ true → AllCareful log → AllCareful (c ∷ log)
Careful-call (World.delete_vm node vm_id a) log h p = absurd (ground (arith, h))
Careful-call _ log h p = p

around-no_delete : (k : Kind) → around k ≡ true → no_delete k ≡ true
around-no_delete vm_delete h = absurd (ground (arith, h))
around-no_delete _ h = refl

module _ (w : World) where
  Makes-Careful :
      {A : Type 0} {ks : Kinds} {m : M A}
      → ks vm_delete ≡ false
      → Makes ks m
      → Triple AllCareful m (λ _. AllCareful)
  Makes-Careful {ks = ks} h0 p = Triple-of_Makes AllCareful Careful-call (Makes-more without p)
    where
      without : (k : Kind) → ks k ≡ true → no_delete k ≡ true
      without vm_delete h = absurd (ground (arith, h0))
      without _ h = refl

  terminating-Careful :
      (m : Machine) → Triple AllCareful (reconcile_terminating w m) (λ _. AllCareful)
  terminating-Careful m = record { holds = λ log p. reconcile_terminating-Careful w m log p }

  by_phase-Careful :
      (p : Phase) (m : Machine) (class : MachineClass)
      → Triple AllCareful (by_phase w p m class) (λ _. AllCareful)
  by_phase-Careful Crd.terminating m class = terminating-Careful m
  by_phase-Careful p m class = Makes-Careful refl (by_phase-Makes w p m class)

-- In any number of reconciliations, whatever the outside answers, the call concerning VMs just before each request to
-- delete a VM asked for this VM on this node, and its status was another than running, or the three
-- calls before asked for it, asked to stop it and awaited the task of that without an error.
pub History-Careful : (n : ℕ) (log : Log) → History n log → Careful (vm_calls log)
History-Careful _ _ started = tt
History-Careful _ _ (reconciled {log = log} w h) =
    (reconcile-keeps w AllCareful (λ c l k. Careful-call c l (around-no_delete (kind c) k))
        (by_phase-Careful w) (terminating-Careful w)).holds
      log (History-Careful _ log h)
