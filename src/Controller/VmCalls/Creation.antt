-- ===== src/Controller/VmCalls/Creation.antt =====
-- What it means that a program creates no VM, or at most one after it has asked for its ID.
pub mod OnCreate
pub mod Once
use proxmox_operator.Base.{
  ℕ, zero, suc, ◌+◌, ◌≤◌, ◌≡◌, refl, sym, ap, ◌∙◌, ◌⊎◌, inl, inr, List, [], ◌∷◌, Option, none, some,
  Bool, true, false, if◌then◌else◌, Bool-cases, arith,
}
use mathlib.Core.Path.{subst}
use proxmox_operator.Base.Int.{ℤ, pos, is_zero, int64, ◌+ℤ◌}
use proxmox_operator.Base.Text.{Text}
use proxmox_operator.Base.Errors.{Error, Result, ok, err}
use proxmox_operator.Crd.{Phase, Machine, MachineClass}
use proxmox_operator.ProviderId
use proxmox_operator.VmBuilder.{VmOption}
use proxmox_operator.World
use proxmox_operator.World.{World, Vm, Task, Call, Log, M, ◌>>=◌, call, return}
use proxmox_operator.Controller.Status.{update_status_with_retry}
use proxmox_operator.Controller.Create.{
  find_vmid, find_available_vmid, max_attempts, generate_vmid, choose, await_created,
  verify_created, provision, create_with_mac, create_with_id, create_on_node, place,
  check_existing_vm, start_create, reconcile_create, reconcile_creating,
}
use proxmox_operator.Controller.Create.VmId.{IsFree, answer_cases}
use proxmox_operator.Controller.VmCalls.{
  vm_calls, Quiet, Quiet-return, Quiet-bind, Quiet-if, generate_mac-Quiet, get_vlan_tag-Quiet,
  validate_iso-Quiet, mark_failed-Quiet, mark_missing-Quiet, record_created-Quiet,
  set_condition-Quiet, update_status_with_retry-Quiet, update_vm_status-Quiet, report-Quiet,
}

-- The number of calls that create a VM.
abbrev pub creates : Log → ℕ
creates [] = 0
creates (World.create_vm node vm_id o a ∷ log) = suc (creates log)
creates (_ ∷ log) = creates log

-- The last call concerning VMs has asked for this ID on this node, and the answer shows no VM.
abbrev pub Asked : Text → ℤ → Log → Type 0
Asked node vm_id (World.get_vm n i a ∷ log) = (n ≡ node) × (i ≡ vm_id) × IsFree a
Asked node vm_id _ = ⊥

-- This was so before each call that creates a VM.
abbrev pub Guarded : Log → Type 0
Guarded [] = Unit
Guarded (World.create_vm node vm_id o a ∷ log) = Asked node vm_id log × Guarded log
Guarded (_ ∷ log) = Guarded log

-- The program creates no VM.
pub record Keeps {A : Type 0} (m : M A) : Type 0 where
  pub same_number : (log : Log) → creates (vm_calls (m log).1) ≡ creates (vm_calls log)
  pub still_guarded : (log : Log) → Guarded (vm_calls log) → Guarded (vm_calls (m log).1)

-- After a log with the property P the program creates at most one VM, having asked.
pub record Creates {A : Type 0} (P : Log → Type 0) (m : M A) : Type 0 where
  pub at_most_one :
      (log : Log) → P (vm_calls log) → creates (vm_calls (m log).1) ≤ suc (creates (vm_calls log))
  pub guards :
      (log : Log) → P (vm_calls log) → Guarded (vm_calls log) → Guarded (vm_calls (m log).1)

abbrev pub Anything : Log → Type 0
Anything log = Unit

pub Keeps-of_Quiet : {A : Type 0} {m : M A} → Quiet m → Keeps m
Keeps-of_Quiet q = record {
  same_number = λ log. ap creates (q.quiet log);
  still_guarded = λ log g. subst Guarded (sym (q.quiet log)) g;
}

pub Keeps-bind :
    {A B : Type 0} {m : M A} {f : A → M B} → Keeps m → ((a : A) → Keeps (f a)) → Keeps (m >>= f)
unfolding ◌>>=◌
Keeps-bind {m = m} k r = record {
  same_number = λ log. (r (m log).0).same_number (m log).1 ∙ k.same_number log;
  still_guarded = λ log g. (r (m log).0).still_guarded (m log).1 (k.still_guarded log g);
}

pub Keeps-if : {A : Type 0} {m n : M A} (b : Bool) → Keeps m → Keeps n → Keeps (if b then m else n)
Keeps-if true k l = k
Keeps-if false k l = l

pub Creates-of_Keeps : {A : Type 0} {P : Log → Type 0} {m : M A} → Keeps m → Creates P m
Creates-of_Keeps k = record {
  at_most_one = λ log p. omega (arith, k.same_number log);
  guards = λ log p. k.still_guarded log;
}

pub Creates-after_Quiet :
    {A B : Type 0} {P : Log → Type 0} {m : M A} {f : A → M B}
    → Quiet m
    → ((a : A) → Creates P (f a))
    → Creates P (m >>= f)
unfolding ◌>>=◌
Creates-after_Quiet {P = P} {m = m} q r = record {
  at_most_one = λ log p. omega (
    arith,
    ap creates (q.quiet log),
    (r (m log).0).at_most_one (m log).1 (subst P (sym (q.quiet log)) p),
  );
  guards = λ log p g.
      (r (m log).0).guards (m log).1 (subst P (sym (q.quiet log)) p)
        (subst Guarded (sym (q.quiet log)) g);
}

pub Creates-after_Keeps :
    {A B : Type 0} {m : M A} {f : A → M B}
    → Keeps m
    → ((a : A) → Creates Anything (f a))
    → Creates Anything (m >>= f)
unfolding ◌>>=◌
Creates-after_Keeps {m = m} k r = record {
  at_most_one = λ log p. omega (arith, k.same_number log, (r (m log).0).at_most_one (m log).1 tt);
  guards = λ log p g. (r (m log).0).guards (m log).1 tt (k.still_guarded log g);
}

pub Creates-then_Keeps :
    {A B : Type 0} {P : Log → Type 0} {m : M A} {f : A → M B}
    → Creates P m
    → ((a : A) → Keeps (f a))
    → Creates P (m >>= f)
unfolding ◌>>=◌
Creates-then_Keeps {m = m} c r = record {
  at_most_one = λ log p. omega (arith, c.at_most_one log p, (r (m log).0).same_number (m log).1);
  guards = λ log p g. (r (m log).0).still_guarded (m log).1 (c.guards log p g);
}

-- The branches on a result, and on an option.
pub Keeps-result :
    {A B : Type 0} {f : Error → M B} {g : A → M B} (r : Result A)
    → ((e : Error) → Keeps (f e))
    → ((a : A) → Keeps (g a))
    → Keeps (elim r [ err e ↦ f e | ok a ↦ g a ])
Keeps-result (err e) k l = k e
Keeps-result (ok a) k l = l a

pub Keeps-option :
    {A B : Type 0} {f : M B} {g : A → M B} (o : Option A)
    → Keeps f
    → ((a : A) → Keeps (g a))
    → Keeps (elim o [ none ↦ f | some a ↦ g a ])
Keeps-option none k l = k
Keeps-option (some a) k l = l a

pub Creates-result :
    {A B : Type 0} {P : Log → Type 0} {f : Error → M B} {g : A → M B} (r : Result A)
    → ((e : Error) → Creates P (f e))
    → ((a : A) → Creates P (g a))
    → Creates P (elim r [ err e ↦ f e | ok a ↦ g a ])
Creates-result (err e) k l = k e
Creates-result (ok a) k l = l a

pub Creates-option :
    {A B : Type 0} {P : Log → Type 0} {f : M B} {g : A → M B} (o : Option A)
    → Creates P f
    → ((a : A) → Creates P (g a))
    → Creates P (elim o [ none ↦ f | some a ↦ g a ])
Creates-option none k l = k
Creates-option (some a) k l = l a

pub Creates-if :
    {A : Type 0} {P : Log → Type 0} {m n : M A} (b : Bool)
    → Creates P m
    → Creates P n
    → Creates P (if b then m else n)
Creates-if true k l = k
Creates-if false k l = l
