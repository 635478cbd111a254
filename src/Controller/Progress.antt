-- ===== src/Controller/Progress.antt =====
-- How a program goes on where the answers that it gets are known to be no errors.
use proxmox_operator.Base.{◌≡◌, refl, Option, none, some, arith}
use proxmox_operator.Base.Errors.{Error, Result, ok, err}
use proxmox_operator.Crd.{Machine}
use proxmox_operator.World.{World, Log, M, ◌>>=◌, call, return}
use proxmox_operator.World.Triple.{Triple, Triple-before}
use proxmox_operator.Controller.Status.{update_status_with_retry}
use proxmox_operator.Controller.Create.{Requeue, no_requeue}

-- Whatever the log is.
abbrev pub Anyway : Log → Type 0
Anyway log = Unit

-- A success without a later reconciliation.
abbrev pub IsDone : Result Requeue → Type 0
IsDone r = r ≡ ok no_requeue

-- An answer, not an error.
abbrev pub Given {ℓ} : {A : Type ℓ} → Result A → Type ℓ
Given {A = A} r = (a : A) × (r ≡ ok a)

module _ {A : Type 0} {Q : A → Log → Type 0} where
  -- What the log says does not matter.
  pub anyway : {P : Log → Type 0} {m : M A} → Triple Anyway m Q → Triple P m Q
  anyway t = Triple-before (λ log p. tt) t

  -- The branch for an answer.
  pub given :
      {B : Type 0} (f : Error → M A) {g : B → M A} (r : Result B)
      → ((b : B) → Triple Anyway (g b) Q)
      → Triple (λ log. Given r) (elim r [ err e ↦ f e | ok b ↦ g b ]) Q
  given f (err e) t = record { holds = λ log (a, p). absurd (ground (arith, p)) }
  given f (ok b) t = anyway (t b)

  -- The branch for no error.
  pub unhindered :
      {B : Type 0} {f : M A} (g : B → M A) (o : Option B)
      → Triple Anyway f Q
      → Triple (λ log. o ≡ none) (elim o [ none ↦ f | some e ↦ g e ]) Q
  unhindered g none t = anyway t
  unhindered g (some e) t = record { holds = λ log p. absurd (ground (arith, p)) }

module _ {A : Type 0} {m : M A} where
  -- The result is known to have the property R.
  pub known : (R : A → Type 0) → ((log : Log) → R (m log).0) → Triple Anyway m (λ a log. R a)
  known R r = record { holds = λ log p. r log }

  pub any : Triple Anyway m (λ a. Anyway)
  any = record { holds = λ log p. tt }

-- The server stores each status as it is sent.
abbrev pub Saves : World → Type 0
Saves w = (m : Machine) (log : Log) → w.update_status_answer m log ≡ ok m

pub update_status_with_retry-Saves :
    (w : World) (m : Machine) (log : Log)
    → Saves w
    → (update_status_with_retry w m log).0 ≡ (none, m)
unfolding update_status_with_retry ◌>>=◌ call return
update_status_with_retry-Saves w m log saves = rw (saves m log) refl
