-- ===== src/World/Makes.antt =====
-- Which kinds of calls a program makes, and what follows from it for the log.
use mathlib.Core.Path.{subst}
use proxmox_operator.Base.{
  ◌≡◌, refl, ◌∙◌, List, [], ◌∷◌, ◌++◌, Option, none, some, Bool, true, false, if◌then◌else◌,
  append_assoc,
}
use proxmox_operator.Base.Errors.{Error, Result, ok, err}
use proxmox_operator.World
use proxmox_operator.World.{World, Call, Log, M, ◌>>=◌, return, call, time}

pub data Kind : Type 0 where
  machine_read machine_write status_write : Kind
  class_read namespace_read netconf_read netconf_create netconf_delete : Kind
  vm_read vm_create vm_stop vm_delete task_wait : Kind
  node_read storage_read agent_read random_read provider_call : Kind

abbrev pub kind : Call → Kind
kind (World.get_machine a) = machine_read
kind (World.update m a) = machine_write
kind (World.update_status m a) = status_write
kind (World.get_class n a) = class_read
kind (World.get_network_namespace s n a) = namespace_read
kind (World.list_network_namespaces s a) = namespace_read
kind (World.get_netconf s n a) = netconf_read
kind (World.create_netconf n a) = netconf_create
kind (World.delete_netconf s n a) = netconf_delete
kind (World.get_node_names a) = node_read
kind (World.get_vm n i a) = vm_read
kind (World.create_vm n i o a) = vm_create
kind (World.stop_vm n i a) = vm_stop
kind (World.delete_vm n i a) = vm_delete
kind (World.wait t a) = task_wait
kind (World.get_interfaces a) = agent_read
kind (World.get_node n a) = node_read
kind (World.get_storage n a) = storage_read
kind (World.get_content a) = storage_read
kind (World.read_random a) = random_read
kind (World.list_vitistacks a) = provider_call
kind (World.get_provider n a) = provider_call
kind (World.create_provider p a) = provider_call

-- A set of kinds.
abbrev pub Kinds : Type 0
Kinds = Kind → Bool

-- The second log is the first with calls of these kinds in front.
pub data Added (ks : Kinds) (before : Log) : Log → Type 0 where
  nothing : Added ks before before
  one_more :
      {after : Log} (c : Call)
      → ks (kind c) ≡ true
      → Added ks before after
      → Added ks before (c ∷ after)

Added-trans : {ks : Kinds} {a b c : Log} → Added ks a b → Added ks b c → Added ks a c
Added-trans p nothing = p
Added-trans p (one_more c h q) = one_more c h (Added-trans p q)

-- The program makes calls of these kinds only.
pub record Makes {A : Type 0} (ks : Kinds) (m : M A) : Type 0 where
  pub adds : (log : Log) → Added ks log (m log).1

Added-more :
    {ks ks' : Kinds} {before after : Log}
    → ((k : Kind) → ks k ≡ true → ks' k ≡ true)
    → Added ks before after
    → Added ks' before after
Added-more h nothing = nothing
Added-more h (one_more c k p) = one_more c (h (kind c) k) (Added-more h p)

-- The more kinds, the less is said.
pub Makes-more :
    {A : Type 0} {ks ks' : Kinds} {m : M A}
    → ((k : Kind) → ks k ≡ true → ks' k ≡ true)
    → Makes ks m
    → Makes ks' m
Makes-more h p = record { adds = λ log. Added-more h (p.adds log) }

module _ {ks : Kinds} where
  pub Makes-return : {A : Type 0} (a : A) → Makes ks (return a)
  unfolding return
  Makes-return a = record { adds = λ log. nothing }

  pub Makes-time : (w : World) → Makes ks (time w)
  unfolding time
  Makes-time w = record { adds = λ log. nothing }

  pub Makes-call :
      {A : Type 0} (answer : Log → A) (entry : A → Call)
      → ((a : A) → ks (kind (entry a)) ≡ true)
      → Makes ks (call answer entry)
  unfolding call
  Makes-call answer entry h = record {
    adds = λ log. one_more (entry (answer log)) (h (answer log)) nothing;
  }

  pub Makes-bind :
      {A B : Type 0} {m : M A} {f : A → M B}
      → Makes ks m
      → ((a : A) → Makes ks (f a))
      → Makes ks (m >>= f)
  unfolding ◌>>=◌
  Makes-bind {m = m} p q = record {
    adds = λ log. Added-trans (p.adds log) ((q (m log).0).adds (m log).1);
  }

  pub Makes-if :
      {A : Type 0} {m n : M A} (b : Bool) → Makes ks m → Makes ks n → Makes ks (if b then m else n)
  Makes-if true p q = p
  Makes-if false p q = q

  pub Makes-result :
      {A B : Type 0} {f : Error → M B} {g : A → M B} (r : Result A)
      → ((e : Error) → Makes ks (f e))
      → ((a : A) → Makes ks (g a))
      → Makes ks (elim r [ err e ↦ f e | ok a ↦ g a ])
  Makes-result (err e) p q = p e
  Makes-result (ok a) p q = q a

  pub Makes-option :
      {A B : Type 0} {f : M B} {g : A → M B} (o : Option A)
      → Makes ks f
      → ((a : A) → Makes ks (g a))
      → Makes ks (elim o [ none ↦ f | some a ↦ g a ])
  Makes-option none p q = p
  Makes-option (some a) p q = q a

  -- A property of the log that no such call destroys is kept.
  Added-keeps :
      (P : Log → Type 0)
      → ((c : Call) (log : Log) → ks (kind c) ≡ true → P log → P (c ∷ log))
      → {a b : Log} → Added ks a b
      → P a
      → P b
  Added-keeps P h nothing p = p
  Added-keeps P h (one_more c k q) p = h c _ k (Added-keeps P h q p)

  pub Makes-keeps :
      {A : Type 0} {m : M A} (P : Log → Type 0)
      → ((c : Call) (log : Log) → ks (kind c) ≡ true → P log → P (c ∷ log))
      → Makes ks m
      → (log : Log) → P log
      → P (m log).1
  Makes-keeps P h p log = Added-keeps P h (p.adds log)

  -- What such calls do not enter into stays the same.
  Added-same :
      {X : Type 0} (f : Log → X)
      → ((c : Call) (log : Log) → ks (kind c) ≡ true → f (c ∷ log) ≡ f log)
      → {a b : Log} → Added ks a b
      → f b ≡ f a
  Added-same f h nothing = refl
  Added-same f h (one_more c k q) = h c _ k ∙ Added-same f h q

  pub Makes-same :
      {A X : Type 0} {m : M A} (f : Log → X)
      → ((c : Call) (log : Log) → ks (kind c) ≡ true → f (c ∷ log) ≡ f log)
      → Makes ks m
      → (log : Log) → f (m log).1 ≡ f log
  Makes-same f h p log = Added-same f h (p.adds log)

pub ruleset makes_rules =
    (Makes-return, Makes-time, Makes-call, Makes-bind, Makes-if, Makes-result, Makes-option, refl)
