-- ===== src/Controller/Create/VmId/Bounds.antt =====
-- The range of the VM IDs.
use proxmox_operator.Base.{ℕ, ◌+◌, ◌%◌, ◌^◌, ◌≤◌, ◌<◌, ◌≡◌, ap, ◌∙◌, ◌⊎◌, inl, inr, arith}
use proxmox_operator.Base.Int.{pos, int64, ◌+ℤ◌}
use proxmox_operator.Base.Text.{Text}
use proxmox_operator.Crd.{Machine}
use proxmox_operator.World.{World, Log}
use proxmox_operator.Controller.Create.{sum_bytes, generate_vmid, find_available_vmid}
use proxmox_operator.Controller.Create.VmId.{find_available_vmid-Found}

pub int64_add : (a b : ℕ) → a + b < 2 ^ 63 → int64 (pos a +ℤ pos b) ≡ pos (a + b)
unfolding ◌+ℤ◌ int64
int64_add a b h = ground arith

-- The base ID is less than 1000 above the configured start.
pub generate_vmid_range :
    (w : World) (m : Machine) (start : ℕ)
    → w.config.proxmox_vm_id_start ≡ pos start
    → start + 1000 ≤ 2 ^ 63
    → (k : ℕ) × (k < 1000) × (generate_vmid w m ≡ pos (start + k))
unfolding generate_vmid
generate_vmid_range w m start e h = (
  sum_bytes m.uid % 1000,
  omega arith,
  ap (λ s. int64 (s +ℤ pos (sum_bytes m.uid % 1000))) e
      ∙ int64_add start (sum_bytes m.uid % 1000) (omega arith),
)

-- Where the configured start of the IDs is positive and at least 1099 below the largest int, the ID found for
-- a new VM is 0, which stands for none, or at least the start and less than 1099 above it.
pub find_available_vmid_range :
    (w : World) (m : Machine) (node : Text) (log : Log) (start : ℕ)
    → w.config.proxmox_vm_id_start ≡ pos start
    → 0 < start
    → start + 1099 ≤ 2 ^ 63
    → let vm_id = (find_available_vmid w m node log).0 in
      (vm_id ≡ pos 0) ⊎ ((n : ℕ) × (vm_id ≡ pos n) × (start ≤ n) × (n < start + 1099))
find_available_vmid_range w m node log start e positive h =
    let (k, few, base) = generate_vmid_range w m start e (omega arith) in
    elim (find_available_vmid-Found w m node log) [
      | inl (j, lt, id, before, taken, a, free, last) ↦ inr (
        start + k + (0 + j),
        id
            ∙ (ap (λ b. int64 (b +ℤ pos (0 + j))) base
                ∙ int64_add (start + k) (0 + j) (omega arith)),
        omega arith,
        omega arith,
      )
      | inr (id, _) ↦ inl id
    ]
