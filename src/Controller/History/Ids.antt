-- ===== src/Controller/History/Ids.antt =====
-- The IDs of the VMs that are created for different machines.
use mathlib.Core.Path.{subst}
use proxmox_operator.Base.{◌≡◌, sym, ◌⊎◌, ℕ, [], ◌∷◌}
use proxmox_operator.Base.Int.{ℤ}
use proxmox_operator.Base.Text.{Text}
use proxmox_operator.Base.Errors.{ok}
use proxmox_operator.World
use proxmox_operator.World.{Log, Task}
use proxmox_operator.Controller.Create.VmId.{IsFree}
use proxmox_operator.Controller.VmCalls.{vm_calls}
use proxmox_operator.Controller.VmCalls.Creation.{Asked, Guarded}
use proxmox_operator.Controller.History.{History, History-Guarded}

-- The creation of this VM was accepted, and its deletion was not requested since.
abbrev pub IsLive : Text → ℤ → Log → Type 0
IsLive node vm_id [] = ⊥
IsLive node vm_id (World.create_vm n i o (ok task) ∷ log) =
    ((n ≡ node) × (i ≡ vm_id)) ⊎ IsLive node vm_id log
IsLive node vm_id (World.delete_vm n i a ∷ log) =
    (((n ≡ node) × (i ≡ vm_id)) → ⊥) × IsLive node vm_id log
IsLive node vm_id (_ ∷ log) = IsLive node vm_id log

-- Each answer for a live VM shows it.
abbrev pub Truthful : Log → Type 0
Truthful [] = Unit
Truthful (World.get_vm node vm_id a ∷ log) = (IsLive node vm_id log → IsFree a → ⊥) × Truthful log
Truthful (_ ∷ log) = Truthful log

-- No VM was created while one with its ID on its node was live.
abbrev pub Unique : Log → Type 0
Unique [] = Unit
Unique (World.create_vm node vm_id o a ∷ log) = (IsLive node vm_id log → ⊥) × Unique log
Unique (_ ∷ log) = Unique log

Asked-not_live :
    (node : Text) (vm_id : ℤ) (log : Log)
    → Asked node vm_id log
    → Truthful log
    → IsLive node vm_id log
    → ⊥
Asked-not_live node vm_id (World.get_vm n i a ∷ log) (p, q, free) (t, _) live =
    t (subst (λ x. IsLive x i log) (sym p) (subst (λ y. IsLive node y log) (sym q) live)) free
Asked-not_live node vm_id _ asked t live = absurd asked

Unique-of_Guarded : (log : Log) → Guarded log → Truthful log → Unique log
Unique-of_Guarded [] g t = tt
Unique-of_Guarded (World.create_vm node vm_id o a ∷ log) (asked, g) t =
    (Asked-not_live node vm_id log asked t, Unique-of_Guarded log g t)
Unique-of_Guarded (World.get_vm node vm_id a ∷ log) g (_, t) = Unique-of_Guarded log g t
Unique-of_Guarded (_ ∷ log) g t = Unique-of_Guarded log g t

-- In any number of reconciliations, one after the other, of whatever machines, no VM is created while a VM
-- that was created with its ID on its node is live, if the answers show the VMs that are live.
pub History-Unique :
    (n : ℕ) (log : Log) → History n log → Truthful (vm_calls log) → Unique (vm_calls log)
History-Unique n log h t = Unique-of_Guarded (vm_calls log) (History-Guarded n log h).1 t
