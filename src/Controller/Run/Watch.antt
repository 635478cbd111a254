-- ===== src/Controller/Run/Watch.antt =====
-- What the controller does with a running machine.
use proxmox_operator.Base.{
  ◌≡◌, refl, ◌∙◌, ◌⊎◌, inl, inr, ◌∷◌, Option, none, some, Bool, true, false, Bool-cases,
  if◌then◌else◌, arith,
}
use proxmox_operator.Base.Int.{ℤ}
use proxmox_operator.Base.Text.{Text, text}
use proxmox_operator.Base.Errors.{Error, Result, ok, err}
use proxmox_operator.Crd.{failed, Machine}
use proxmox_operator.ProviderId
use proxmox_operator.World
use proxmox_operator.World.{World, Vm, Log, M, ◌>>=◌, call, return, time}
use proxmox_operator.Controller.Status.{
  with_status, put_vm, put_interfaces, put_condition, set_condition, update_network_status,
  update_vm_status,
}
use proxmox_operator.Controller.Create.{Requeue, no_requeue}
use proxmox_operator.Controller.Create.Recorded.{last_saved, saved_reported}
use proxmox_operator.Controller.Terminate.{says_missing}
use proxmox_operator.Controller.Run.{
  put_ip, deleted_externally, refresh_ip, refresh, mark_deleted, watch, reconcile_running,
  update_interval,
}

-- The same IDs.
abbrev pub SameIds : Machine → Machine → Type 0
SameIds m m' =
    (m'.status.provider_id ≡ m.status.provider_id) × (m'.status.machine_id ≡ m.status.machine_id)

-- The same IDs and the same phase.
abbrev pub SameMachine : Machine → Machine → Type 0
SameMachine m m' = (m'.status.phase ≡ m.status.phase) × SameIds m m'

-- The world's answer to the call after this log is that the machine's VM is missing.
abbrev IsMissing : World → Machine → Log → Type 0
IsMissing w m log =
    (node : Text) × (vm_id : ℤ) × (ProviderId.parse m.status.provider_id ≡ ok (node, vm_id))
    × (e : Error) × (w.vm_answer node vm_id log ≡ err e)
    × (says_missing e ≡ true)

-- What the last status in the log says after a machine has been watched.
abbrev pub Watched : World → Machine → Log → Log → Type 0
Watched w m log after =
    (last_saved after ≡ last_saved log)
    ⊎ ((m' : Machine) × (last_saved after ≡ some m')
        × SameIds m m'
        × ((m'.status.phase ≡ m.status.phase) ⊎ ((m'.status.phase ≡ failed) × IsMissing w m log)))

answer_result : {A : Type 0} (r : Result A) → ((e : Error) × (r ≡ err e)) ⊎ ((a : A) × (r ≡ ok a))
answer_result (err e) = inl (e, refl)
answer_result (ok a) = inr (a, refl)

-- The program gives the same machine, but for what may change.
pub record Leaves (m : Machine) (p : M Machine) : Type 0 where
  pub same : (log : Log) → SameMachine m (p log).0

Leaves-return : {m : Machine} (m' : Machine) → SameMachine m m' → Leaves m (return m')
unfolding return
Leaves-return m' h = record { same = λ log. h }

Leaves-after :
    {A : Type 0} {m : Machine} (q : M A) {f : A → M Machine}
    → ((a : A) → Leaves m (f a))
    → Leaves m (q >>= f)
unfolding ◌>>=◌
Leaves-after q h = record { same = λ log. (h (q log).0).same (q log).1 }

Leaves-if :
    {m : Machine} {p q : M Machine} (b : Bool)
    → Leaves m p
    → Leaves m q
    → Leaves m (if b then p else q)
Leaves-if true k l = k
Leaves-if false k l = l

Leaves-result :
    {A : Type 0} {m : Machine} {f : Error → M Machine} {g : A → M Machine} (r : Result A)
    → ((e : Error) → Leaves m (f e))
    → ((a : A) → Leaves m (g a))
    → Leaves m (elim r [ err e ↦ f e | ok a ↦ g a ])
Leaves-result (err e) k l = k e
Leaves-result (ok a) k l = l a

module _ (w : World) where
  pub update_vm_status-SameMachine :
      (vm : Option Vm) (node : Text) (m : Machine) (log : Log)
      → SameMachine m (update_vm_status w vm node m log).0
  unfolding update_vm_status update_network_status put_vm put_interfaces ◌>>=◌ call return time
  update_vm_status-SameMachine none node m log = (refl, (refl, refl))
  update_vm_status-SameMachine (some vm) node m log = (ground arith, (ground arith, ground arith))

  put_ip-SameMachine :
      (ip : Text) (m : Machine) → SameMachine m (with_status m (put_ip ip m.status))
  unfolding put_ip
  put_ip-SameMachine ip m = (ground arith, (ground arith, ground arith))

  pub refresh_ip-Leaves : (m : Machine) → Leaves m (refresh_ip w m)
  unfolding refresh_ip
  refresh_ip-Leaves m =
      Leaves-if _
        (Leaves-after _ (λ answer.
          Leaves-result answer (λ e. Leaves-return _ (refl, (refl, refl)))
            (λ ip. Leaves-return _ (put_ip-SameMachine ip m))))
        (Leaves-return _ (refl, (refl, refl)))

  refresh_saves :
      (m : Machine) (vm : Option Vm) (node : Text) (log : Log)
      → (m' : Machine) × (last_saved (refresh w m vm node log).1 ≡ some m') × SameMachine m m'
  unfolding refresh ◌>>=◌
  refresh_saves m vm node log =
      let (m1, log1) = update_vm_status w vm node m log in
      let (m2, log2) = refresh_ip w m1 log1 in
      let (a, bc) = update_vm_status-SameMachine vm node m log in
      let (d, ef) = (refresh_ip-Leaves m1).same log1 in
      (m2, saved_reported w update_interval m2 log2, (d ∙ a, (ef.0 ∙ bc.0, ef.1 ∙ bc.1)))

  mark_deleted_saves :
      (m : Machine) (log : Log)
      → (m' : Machine) × (last_saved (mark_deleted w m log).1 ≡ some m')
        × (m'.status.phase ≡ failed)
        × SameIds m m'
  unfolding mark_deleted set_condition ◌>>=◌ time return put_condition
  mark_deleted_saves m log =
      let m' =
        put_condition (w.now log) (text "False") (text "VMDeleted")
          (text "VM was deleted from Proxmox externally")
          (with_status m (deleted_externally m.status)) in
      (m', saved_reported w no_requeue m' log, refl, (refl, refl))

  watch-Watched :
      (m : Machine) (node : Text) (vm_id : ℤ) (log : Log)
      → ProviderId.parse m.status.provider_id ≡ ok (node, vm_id)
      → Watched w m log (watch w m node vm_id log).1
  unfolding watch ◌>>=◌ call return
  watch-Watched m node vm_id log q = elim (answer_result (w.vm_answer node vm_id log)) [
    | inr (vm, p) ↦
        let (m', saved, same) = refresh_saves m vm node (World.get_vm node vm_id (ok vm) ∷ log) in
        rw (p, watch) (inr (m', saved, same.1, inl same.0))
    | inl (e, p) ↦ elim (Bool-cases (says_missing e)) [
      | inl b ↦
          let (m', saved, phase, ids) =
            mark_deleted_saves m (World.get_vm node vm_id (err e) ∷ log) in
          rw (p, watch) (rw b (inr (m', saved, ids, inr (phase, (node, vm_id, q, e, p, b)))))
      | inr b ↦ rw (p, watch) (rw b (inl refl))
    ]
  ]

  parsed-Watched :
      (m : Machine) (r : Result (Text × ℤ)) (log : Log)
      → ProviderId.parse m.status.provider_id ≡ r
      → Watched w m log
          ((elim r as (λ x. M (Result Requeue)) [
            | err e ↦ return (ok no_requeue)
            | ok id ↦ watch w m id.0 id.1
          ])
            log).1
  unfolding return
  parsed-Watched m (err e) log q = inl refl
  parsed-Watched m (ok id) log q = watch-Watched m id.0 id.1 log q

  -- Watching a running machine never changes its IDs. The phase it saves, if it saves a status, is the
  -- one that it had, unless the answer to the request for its VM is an error that says that it is
  -- missing: only then may it be Failed.
  pub reconcile_running_outcome :
      (m : Machine) (log : Log) → Watched w m log (reconcile_running w m log).1
  unfolding reconcile_running
  reconcile_running_outcome m log =
      parsed-Watched m (ProviderId.parse m.status.provider_id) log refl
