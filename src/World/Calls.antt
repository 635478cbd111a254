-- ===== src/World/Calls.antt =====
-- How many calls a program makes.
use proxmox_operator.Base.{
  ℕ, ◌+◌, ◌≤◌, Option, none, some, Bool, true, false, if◌then◌else◌, length, arith,
}
use proxmox_operator.Base.Errors.{Error, Result, ok, err}
use proxmox_operator.World.{Call, Log, M, ◌>>=◌, return, call}

-- The program makes at most n calls.
pub record Calls {A : Type 0} (n : ℕ) (m : M A) : Type 0 where
  pub few : (log : Log) → length (m log).1 ≤ n + length log

module _ {A : Type 0} where
  pub Calls-return : (n : ℕ) (a : A) → Calls n (return a)
  unfolding return
  Calls-return n a = record { few = λ log. omega arith }

  pub Calls-call : (answer : Log → A) (entry : A → Call) → Calls 1 (call answer entry)
  unfolding call
  Calls-call answer entry = record { few = λ log. omega arith }

  pub Calls-more : {m : M A} (a b : ℕ) → a ≤ b → Calls a m → Calls b m
  Calls-more a b h c = record { few = λ log. omega (arith, c.few log) }

  pub Calls-bind :
      {B : Type 0} {m : M B} {f : B → M A} (a b : ℕ)
      → Calls a m
      → ((x : B) → Calls b (f x))
      → Calls (a + b) (m >>= f)
  unfolding ◌>>=◌
  Calls-bind {m = m} a b c d = record {
    few = λ log. omega (arith, c.few log, (d (m log).0).few (m log).1);
  }

  pub Calls-if :
      {n : ℕ} {m k : M A} (b : Bool) → Calls n m → Calls n k → Calls n (if b then m else k)
  Calls-if true c d = c
  Calls-if false c d = d

  pub Calls-result :
      {B : Type 0} {n : ℕ} {f : Error → M A} {g : B → M A} (r : Result B)
      → ((e : Error) → Calls n (f e))
      → ((b : B) → Calls n (g b))
      → Calls n (elim r [ err e ↦ f e | ok b ↦ g b ])
  Calls-result (err e) c d = c e
  Calls-result (ok b) c d = d b

  pub Calls-option :
      {B : Type 0} {n : ℕ} {f : M A} {g : B → M A} (o : Option B)
      → Calls n f
      → ((b : B) → Calls n (g b))
      → Calls n (elim o [ none ↦ f | some b ↦ g b ])
  Calls-option none c d = c
  Calls-option (some b) c d = d b

-- One call, and what comes after it.
pub Calls-then :
    {A B : Type 0} (answer : Log → B) (entry : B → Call) {f : B → M A} (n : ℕ)
    → ((x : B) → Calls n (f x))
    → Calls (1 + n) (call answer entry >>= f)
Calls-then answer entry n d = Calls-bind 1 n (Calls-call answer entry) d
