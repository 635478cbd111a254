-- ===== src/Controller/Create/VmId.antt =====
-- The search for a free VM ID.
pub mod Bounds
use proxmox_operator.Base.{
  ◌∷◌, ℕ, zero, suc, ◌+◌, ◌<◌, ◌≡◌, refl, ap, ◌∙◌, ◌⊎◌, inl, inr, Option, none, some, arith,
}
use proxmox_operator.Base.Int.{ℤ, pos, int64, ◌+ℤ◌}
use proxmox_operator.Base.Text.{Text}
use proxmox_operator.Base.Errors.{Error, Result, ok, err}
use proxmox_operator.Crd.{Machine}
use proxmox_operator.World.{get_vm, World, Vm, Log, ◌>>=◌, call, return}
use proxmox_operator.Controller.Create.{max_attempts, generate_vmid, find_vmid, find_available_vmid}

-- The answer to `GetVM` shows no VM: it is an error or `nil`.
abbrev pub IsFree : Result (Option Vm) → Type 0
IsFree (err e) = Unit
IsFree (ok none) = Unit
IsFree (ok (some vm)) = ⊥

-- The answer shows a VM.
abbrev IsTaken : Result (Option Vm) → Type 0
IsTaken (err e) = ⊥
IsTaken (ok none) = ⊥
IsTaken (ok (some vm)) = Unit

pub answer_cases :
    (a : Result (Option Vm))
    → ((e : Error) × (a ≡ err e)) ⊎ ((a ≡ ok none) ⊎ ((vm : Vm) × (a ≡ ok (some vm))))
answer_cases (err e) = inl (e, refl)
answer_cases (ok none) = inr (inl refl)
answer_cases (ok (some vm)) = inr (inr (vm, refl))

-- The calls with numbers `attempt` to `attempt + k - 1` ask for the IDs counted from `base`, and each answer
-- shows a VM: they lead from the log before to the log after.
abbrev pub AllTaken : Text → ℤ → (k attempt : ℕ) → Log → Log → Type 0
AllTaken node base zero attempt before after = after ≡ before
AllTaken node base (suc k) attempt before after =
    (a : Result (Option Vm)) × IsTaken a
    × AllTaken node base k (attempt + 1) (get_vm node (int64 (base +ℤ pos attempt)) a ∷ before)
        after

-- The outcome of a search with `rounds` rounds left: the first ID without a VM, and the calls made, or 0 and
-- a VM under every ID.
abbrev pub Found : Text → ℤ → (rounds attempt : ℕ) → Log → ℤ → Log → Type 0
Found node base rounds attempt before vm_id after =
    ((k : ℕ) × (k < rounds)
      × (vm_id ≡ int64 (base +ℤ pos (attempt + k)))
      × (log : Log) × AllTaken node base k attempt before log
      × (a : Result (Option Vm)) × IsFree a
      × (after ≡ get_vm node vm_id a ∷ log))
    ⊎ ((vm_id ≡ pos 0) × AllTaken node base rounds attempt before after)

-- One more ID is taken in front.
Found-later :
    (node : Text) (base : ℤ) (rounds attempt : ℕ) (before after : Log) (vm_id : ℤ)
    (a : Result (Option Vm))
    → IsTaken a
    → Found node base rounds
        (attempt + 1)
        (get_vm node (int64 (base +ℤ pos attempt)) a ∷ before)
        vm_id
        after
    → Found node base (suc rounds) attempt before vm_id after
Found-later node base rounds attempt before after vm_id a t
      (inl (k, lt, e, log, taken, b, free, last)) =
    inl (
      suc k,
      omega arith,
      e ∙ ap (λ i. int64 (base +ℤ pos i)) (omega arith),
      log,
      (a, t, taken),
      b,
      free,
      last,
    )
Found-later node base rounds attempt before after vm_id a t (inr (e, taken)) =
    inr (e, (a, t, taken))

module _ (w : World) where
  find_vmid-Found :
      (rounds attempt : ℕ) (base : ℤ) (node : Text) (log : Log)
      → let (vm_id, after) = find_vmid w rounds attempt base node log in
        Found node base rounds attempt log vm_id after
  unfolding find_vmid ◌>>=◌ call return
  find_vmid-Found zero attempt base node log = inr (refl, refl)
  find_vmid-Found (suc rounds) attempt base node log =
      elim (answer_cases (w.vm_answer node (int64 (base +ℤ pos attempt)) log)) [
        | inl (e, p) ↦ rw (p, find_vmid) (now (err e) tt)
        | inr (inl p) ↦ rw (p, find_vmid) (now (ok none) tt)
        | inr (inr (vm, p)) ↦
            rw (p, find_vmid)
              (Found-later node base rounds attempt log _ _ (ok (some vm)) tt
                (find_vmid-Found rounds (attempt + 1) base node _))
      ]
    where
      now :
          (a : Result (Option Vm))
          → IsFree a
          → Found node base
              (suc rounds)
              attempt
              log
              (int64 (base +ℤ pos attempt))
              (get_vm node (int64 (base +ℤ pos attempt)) a ∷ log)
      now a h =
          inl (0, omega arith, ap (λ i. int64 (base +ℤ pos i)) (omega arith), log, refl, a, h, refl)

  -- The search for a VM ID asks for the IDs from the base ID on, one after the other, each as an int of 64
  -- bits, until an answer shows no VM, and returns the ID of that answer. It asks for 100 IDs at most; if
  -- the answers to all of these show a VM, it returns 0.
  pub find_available_vmid-Found :
      (m : Machine) (node : Text) (log : Log)
      → let (vm_id, after) = find_available_vmid w m node log in
        Found node (generate_vmid w m) max_attempts 0 log vm_id after
  unfolding find_available_vmid
  find_available_vmid-Found m node log = find_vmid-Found max_attempts 0 (generate_vmid w m) node log
