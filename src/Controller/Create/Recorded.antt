-- ===== src/Controller/Create/Recorded.antt =====
-- What the creation of a VM has saved and called when it ends.
use proxmox_operator.Controller.VmCalls.{vm_calls, Quiet}
use proxmox_operator.VmBuilder.{VmOption}
use proxmox_operator.World
use proxmox_operator.Base.{
  ◌||◌, List, ◌≡◌, ◌∙◌, ◌⊎◌, [], ◌∷◌, Option, none, some, true, ◌||◌, arith,
}
use proxmox_operator.Base.Int.{ℤ}
use proxmox_operator.Base.Text.{is_empty, eq_text, Text, text}
use proxmox_operator.Base.Decimal.{itoa}
use proxmox_operator.Base.Errors.{Error, Result, ok, err}
use proxmox_operator.Crd.{running, failed, Machine, MachineStatus}
use proxmox_operator.ProviderId
use proxmox_operator.World.{World, Vm, Task, Log, update_status, M, ◌>>=◌, call, return, time}
use proxmox_operator.Controller.Status.{
  put_vm, put_interfaces, update_status_with_retry, update_network_status, update_vm_status,
}
use proxmox_operator.Controller.Create.{VmOption, Requeue, report, fail_after}

-- The last call that saves the status.
abbrev pub last_saved : Log → Option Machine
last_saved [] = none
last_saved (update_status m a ∷ log) = some m
last_saved (_ ∷ log) = last_saved log

-- The status that says that the VM with this ID runs on this node.
abbrev pub IsRecorded : Text → ℤ → MachineStatus → Type 0
IsRecorded node vm_id s =
    (s.phase ≡ running)
    × (s.provider_id ≡ ProviderId.build node vm_id)
    × (s.machine_id ≡ itoa vm_id)

abbrev pub IsErr {ℓ} : {A : Type ℓ} → Result A → Type 0
IsErr (ok a) = ⊥
IsErr (err e) = Unit

-- The last calls concerning VMs requested this VM on this node, awaited the task of that, which ended well, and
-- showed the VM without an error. The answer to the last one is given.
abbrev pub AfterShow : Text → ℤ → Result (Option Vm) → Log → Type 0
AfterShow node vm_id answer log =
    (task ended : Task) × (options : List VmOption) × (before : Log) × ((eq_text ended.exit_status
          (text "OK")
        || is_empty ended.exit_status)
      ≡ true)
    × (vm_calls log
        ≡ World.get_vm node vm_id answer
          ∷ World.wait task (ok ended)
          ∷ World.create_vm node vm_id options (ok task)
          ∷ before)

abbrev pub IsMade : Text → ℤ → Log → Type 0
IsMade node vm_id log = (vm : Option Vm) × AfterShow node vm_id (ok vm) log

-- The machine saved last is failed, and the result is an error, or it records the VM that was made.
abbrev pub Ended : Result Requeue → Log → Type 0
Ended r log =
    (m : Machine) × (last_saved log ≡ some m)
    × (((m.status.phase ≡ failed) × IsErr r)
        ⊎ ((node : Text) × (vm_id : ℤ) × IsRecorded node vm_id m.status × IsMade node vm_id log))

-- After the request for the VM, and after the wait for its task.
abbrev pub AfterRequest : Text → ℤ → Result Task → Log → Type 0
AfterRequest node vm_id answer log =
    (options : List VmOption) × (before : Log) × (vm_calls log
      ≡ World.create_vm node vm_id options answer ∷ before)

abbrev pub AfterWait : Text → ℤ → Result Task → Log → Type 0
AfterWait node vm_id answer log =
    (task : Task) × (options : List VmOption) × (before : Log) × (vm_calls log
      ≡ World.wait task answer ∷ World.create_vm node vm_id options (ok task) ∷ before)

pub IsMade-Quiet :
    {A : Type 0} {m : M A} (node : Text) (vm_id : ℤ) (log : Log)
    → Quiet m
    → IsMade node vm_id log
    → IsMade node vm_id (m log).1
IsMade-Quiet node vm_id log q (vm, (task, ended, options, before, well, e)) =
    (vm, (task, ended, options, before, well, q.quiet log ∙ e))

module _ (w : World) where
  -- The status update is the last one that saves, whatever its answer.
  pub saved_is_last :
      (m : Machine) (log : Log) → last_saved (update_status_with_retry w m log).1 ≡ some m
  unfolding update_status_with_retry ◌>>=◌ call return
  saved_is_last m log = ground arith

  pub saved_reported :
      (r : Requeue) (m : Machine) (log : Log)
      → let (saved, log') = update_status_with_retry w m log in
        last_saved (report r saved.0 log').1 ≡ some m
  unfolding update_status_with_retry ◌>>=◌ call return
  saved_reported r m log = ground arith

  -- The error of the status update comes before the one that is given.
  pub missing_saved :
      (e : Error) (m : Machine) (log : Log)
      → let (saved, log') = update_status_with_retry w m log in
        last_saved (fail_after saved.0 e log').1 ≡ some m
  unfolding update_status_with_retry ◌>>=◌ call return
  missing_saved e m log = ground arith

  pub missing_fails : (e : Error) (o : Option Error) (log : Log) → IsErr (fail_after o e log).0
  unfolding return
  missing_fails e none log = tt
  missing_fails e (some e') log = tt

  -- Reading a VM changes none of these fields.
  pub update_vm_status-IsRecorded :
      (vm : Option Vm) (node name : Text) (vm_id : ℤ) (m : Machine) (log : Log)
      → IsRecorded name vm_id m.status
      → IsRecorded name vm_id (update_vm_status w vm node m log).0.status
  unfolding update_vm_status update_network_status put_vm put_interfaces ◌>>=◌ call return time
  update_vm_status-IsRecorded none node name vm_id m log h = h
  update_vm_status-IsRecorded (some vm) node name vm_id m log (p, q, r) =
      (ground arith, ground arith, ground arith)
