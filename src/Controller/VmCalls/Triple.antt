-- ===== src/Controller/VmCalls/Triple.antt =====
-- Programs with a condition on the calls before that concern VMs, and one on the result and the calls after.
use mathlib.Core.Path.{subst}
use proxmox_operator.Base.{◌≡◌, refl, sym, Bool, true, false, if◌then◌else◌}
use proxmox_operator.Base.Errors.{Error, Result, ok, err}
use proxmox_operator.World.{Log, M, ◌>>=◌, return}
use proxmox_operator.Controller.VmCalls.{vm_calls, Quiet}

-- After a log whose calls concerning VMs have the property P, the result and these calls have Q.
pub record Triple {A : Type 0} (P : Log → Type 0) (m : M A) (Q : A → Log → Type 0) : Type 0 where
  pub holds : (log : Log) → P (vm_calls log) → Q (m log).0 (vm_calls (m log).1)

abbrev pub Any : Log → Type 0
Any log = Unit

pub Triple-return :
    {A : Type 0} {P : Log → Type 0} {Q : A → Log → Type 0} (a : A)
    → ((log : Log) → P log → Q a log)
    → Triple P (return a) Q
unfolding return
Triple-return a h = record { holds = λ log p. h (vm_calls log) p }

pub Triple-bind :
    {A B : Type 0} {P : Log → Type 0} {m : M A} (R : A → Log → Type 0) {f : A → M B}
    {Q : B → Log → Type 0}
    → Triple P m R
    → ((a : A) → Triple (R a) (f a) Q)
    → Triple P (m >>= f) Q
unfolding ◌>>=◌
Triple-bind {m = m} R t u = record {
  holds = λ log p. (u (m log).0).holds (m log).1 (t.holds log p);
}

pub Triple-after_Quiet :
    {A B : Type 0} {P : Log → Type 0} {m : M A} {f : A → M B} {Q : B → Log → Type 0}
    → Quiet m
    → ((a : A) → Triple P (f a) Q)
    → Triple P (m >>= f) Q
unfolding ◌>>=◌
Triple-after_Quiet {P = P} {m = m} q u = record {
  holds = λ log p. (u (m log).0).holds (m log).1 (subst P (sym (q.quiet log)) p);
}

-- A quiet program leaves a property of the calls as it is.
pub Triple-of_Quiet :
    {A : Type 0} {P : Log → Type 0} {m : M A} {Q : A → Log → Type 0}
    → Quiet m
    → ((a : A) (log : Log) → P log → Q a log)
    → Triple P m Q
Triple-of_Quiet {P = P} {m = m} q h = record {
  holds = λ log p. h (m log).0 _ (subst P (sym (q.quiet log)) p);
}

pub Triple-result :
    {A B : Type 0} (P : Result A → Log → Type 0) {f : Error → M B} {g : A → M B}
    {Q : B → Log → Type 0} (r : Result A)
    → ((e : Error) → Triple (P (err e)) (f e) Q)
    → ((a : A) → Triple (P (ok a)) (g a) Q)
    → Triple (P r) (elim r [ err e ↦ f e | ok a ↦ g a ]) Q
Triple-result P (err e) k l = k e
Triple-result P (ok a) k l = l a

pub Triple-if :
    {A : Type 0} {P : Log → Type 0} {m n : M A} {Q : A → Log → Type 0} (b : Bool)
    → (b ≡ true → Triple P m Q)
    → (b ≡ false → Triple P n Q)
    → Triple P (if b then m else n) Q
Triple-if true k l = k refl
Triple-if false k l = l refl

pub Triple-weaken :
    {A : Type 0} {P : Log → Type 0} {m : M A} {Q : A → Log → Type 0} → Triple Any m Q → Triple P m Q
Triple-weaken t = record { holds = λ log p. t.holds log tt }
