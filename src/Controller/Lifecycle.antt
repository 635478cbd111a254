-- ===== src/Controller/Lifecycle.antt =====
-- The phases that the controller may give a machine, one after the other, as a relation, and the way
-- through them that a log of calls shows.
pub mod Saving
pub mod Creation
pub mod Adoption
pub mod Running
pub mod Ending
pub mod Path
pub mod Idle
use proxmox_operator.Base.{◌≡◌, ◌⊎◌, Bool, true, false, ◌∷◌}
use proxmox_operator.Base.Errors.{Error, Result, ok, err, is_conflict}
use proxmox_operator.Crd.{
  Phase, unset, pending, creating, running, terminating, terminated, failed, Machine,
}
use proxmox_operator.World.{World, Call, Log, update_status}
use proxmox_operator.World.Makes.{kind}
use proxmox_operator.Controller.Reconcile.{needs_terminating}
use proxmox_operator.Controller.Silent.{no_status}

-- "" and Pending, in which a VM is created.
abbrev pub is_new : Phase → Bool
is_new unset = true
is_new pending = true
is_new _ = false

-- From the phase of the machine to the one in the next status that is sent.
pub data PhaseStep : Phase → Phase → Type 0 where
  -- Its VM was there already.
  adopt_step : {p : Phase} → is_new p ≡ true → PhaseStep p running
  begin_step : {p : Phase} → is_new p ≡ true → PhaseStep p creating
  create_step : PhaseStep creating running
  fail_step : PhaseStep creating failed
  refresh_step : PhaseStep running running
  lose_step : PhaseStep running failed
  delete_step : {p : Phase} → needs_terminating p ≡ true → PhaseStep p terminating
  -- The VM is stopped, which only the condition shows.
  stop_step : {p : Phase} → needs_terminating p ≡ false → PhaseStep p p
  finish_step : {p : Phase} → needs_terminating p ≡ false → PhaseStep p terminated

-- From the phase `start`, each status that was sent after the log `before` was a step; the last phase
-- is the first index. One way leads back: after an adoption that could not be saved a VM is created.
pub data Walk (before : Log) (start : Phase) : Phase → Log → Type 0 where
  stay : Walk before start start before
  call :
      {p : Phase} {log : Log} (c : Call)
      → no_status (kind c) ≡ true
      → Walk before start p log
      → Walk before start p (c ∷ log)
  send :
      {p : Phase} {log : Log} (m : Machine) (a : Result Machine)
      → PhaseStep p m.status.phase
      → Walk before start p log
      → Walk before start m.status.phase (update_status m a ∷ log)
  begin_again :
      {log : Log} (e : Error) (m m' : Machine) (a : Result Machine)
      → is_conflict e ≡ false
      → m'.status.phase ≡ creating
      → Walk before start running (update_status m (err e) ∷ log)
      → Walk before start creating (update_status m' a ∷ update_status m (err e) ∷ log)

-- The server stores the status that it is sent, and an update of the rest of the machine leaves the
-- phase alone.
pub record Stores (w : World) : Type 0 where
  pub stores_status :
      (m m' : Machine) (log : Log)
      → w.update_status_answer m log ≡ ok m'
      → m'.status.phase ≡ m.status.phase
  pub keeps_status :
      (m m' : Machine) (log : Log)
      → w.update_answer m log ≡ ok m'
      → m'.status.phase ≡ m.status.phase
