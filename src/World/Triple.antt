-- ===== src/World/Triple.antt =====
-- Programs with a condition on the log before and one on the result and the log after.
use proxmox_operator.Base.{◌≡◌, refl, ◌∷◌, Option, none, some, Bool, true, false, if◌then◌else◌}
use proxmox_operator.Base.Errors.{Error, Result, ok, err}
use proxmox_operator.World.{Call, Log, M, ◌>>=◌, return, call}
use proxmox_operator.World.Makes.{Kinds, kind, Makes, Makes-keeps}

pub record Triple {A : Type 0} (P : Log → Type 0) (m : M A) (Q : A → Log → Type 0) : Type 0 where
  pub holds : (log : Log) → P log → Q (m log).0 (m log).1

module _ {A : Type 0} {Q : A → Log → Type 0} where
  pub Triple-return :
      {P : Log → Type 0} (a : A) → ((log : Log) → P log → Q a log) → Triple P (return a) Q
  unfolding return
  Triple-return a h = record { holds = h }

  -- The condition between the two programs is R.
  pub Triple-bind :
      {B : Type 0} {P : Log → Type 0} (R : B → Log → Type 0) {m : M B} {f : B → M A}
      → Triple P m R
      → ((b : B) → Triple (R b) (f b) Q)
      → Triple P (m >>= f) Q
  unfolding ◌>>=◌
  Triple-bind R {m = m} t u = record {
    holds = λ log p. (u (m log).0).holds (m log).1 (t.holds log p);
  }

  pub Triple-call :
      {P : Log → Type 0} (answer : Log → A) (entry : A → Call)
      → ((log : Log) → P log → Q (answer log) (entry (answer log) ∷ log))
      → Triple P (call answer entry) Q
  unfolding call
  Triple-call answer entry h = record { holds = h }

  pub Triple-if :
      {P : Log → Type 0} {m n : M A} (b : Bool)
      → (b ≡ true → Triple P m Q)
      → (b ≡ false → Triple P n Q)
      → Triple P (if b then m else n) Q
  Triple-if true k l = k refl
  Triple-if false k l = l refl

  pub Triple-either :
      {P : Log → Type 0} {m n : M A} (b : Bool)
      → Triple P m Q
      → Triple P n Q
      → Triple P (if b then m else n) Q
  Triple-either true k l = k
  Triple-either false k l = l

  -- The condition may depend on the answer that is looked at.
  pub Triple-result :
      {B : Type 0} (P : Result B → Log → Type 0) {f : Error → M A} {g : B → M A} (r : Result B)
      → ((e : Error) → Triple (P (err e)) (f e) Q)
      → ((b : B) → Triple (P (ok b)) (g b) Q)
      → Triple (P r) (elim r [ err e ↦ f e | ok b ↦ g b ]) Q
  Triple-result P (err e) k l = k e
  Triple-result P (ok b) k l = l b

  pub Triple-option :
      {B : Type 0} (P : Option B → Log → Type 0) {f : M A} {g : B → M A} (o : Option B)
      → Triple (P none) f Q
      → ((b : B) → Triple (P (some b)) (g b) Q)
      → Triple (P o) (elim o [ none ↦ f | some b ↦ g b ]) Q
  Triple-option P none k l = k
  Triple-option P (some b) k l = l b

  pub Triple-before :
      {P P' : Log → Type 0} {m : M A}
      → ((log : Log) → P log → P' log)
      → Triple P' m Q
      → Triple P m Q
  Triple-before h t = record { holds = λ log p. t.holds log (h log p) }

  pub Triple-after :
      {P : Log → Type 0} {R : A → Log → Type 0} {m : M A}
      → Triple P m R
      → ((a : A) (log : Log) → R a log → Q a log)
      → Triple P m Q
  Triple-after {m = m} t h = record { holds = λ log p. h _ _ (t.holds log p) }

-- A program whose calls leave the condition alone.
pub Triple-of_Makes :
    {A : Type 0} {ks : Kinds} {m : M A} (P : Log → Type 0)
    → ((c : Call) (log : Log) → ks (kind c) ≡ true → P log → P (c ∷ log))
    → Makes ks m
    → Triple P m (λ a. P)
Triple-of_Makes P h p = record { holds = Makes-keeps P h p }
