-- ===== src/Controller/Footprint.antt =====
-- Which calls the controller makes in which phase of a machine.
pub mod Creation
pub mod Phases
use proxmox_operator.Base.{◌≡◌, refl, Bool, true, false, Option, none, some, arith}
use proxmox_operator.Base.Text.{Text}
use proxmox_operator.Base.Errors.{Error}
use proxmox_operator.Crd.{Machine}
use proxmox_operator.World.{World, M, ◌>>=◌}
use proxmox_operator.World.Makes.{
  Makes-if, Makes-result, Makes-call, Kind, kind, status_write, vm_create, vm_stop, vm_delete,
  netconf_create, netconf_delete, task_wait, Kinds, Makes, Makes-more, Makes-bind, Makes-return,
  makes_rules,
}
use proxmox_operator.Controller.Status.{update_status_with_retry, set_condition}
use proxmox_operator.Controller.Create.{Requeue, report}
use proxmox_operator.Controller.Reads
use proxmox_operator.Controller.Reads.{reading, publishing, clearing, Reads}

-- Reading, and writing the status.
abbrev pub watching : Kinds
watching status_write = true
watching k = reading k

-- And creating VMs and NetworkConfigurations.
abbrev pub making : Kinds
making vm_create = true
making netconf_create = true
making task_wait = true
making k = watching k

-- Or stopping and deleting them.
abbrev pub ending : Kinds
ending vm_stop = true
ending vm_delete = true
ending netconf_delete = true
ending task_wait = true
ending k = watching k

reading-watching : (k : Kind) → reading k ≡ true → watching k ≡ true
reading-watching status_write h = refl
reading-watching k h = ground (arith, h)

pub watching-making : (k : Kind) → watching k ≡ true → making k ≡ true
watching-making vm_create h = refl
watching-making netconf_create h = refl
watching-making task_wait h = refl
watching-making k h = ground (arith, h)

pub watching-ending : (k : Kind) → watching k ≡ true → ending k ≡ true
watching-ending vm_stop h = refl
watching-ending vm_delete h = refl
watching-ending netconf_delete h = refl
watching-ending task_wait h = refl
watching-ending k h = ground (arith, h)

pub publishing-making : (k : Kind) → publishing k ≡ true → making k ≡ true
publishing-making netconf_create h = refl
publishing-making k h = watching-making k (reading-watching k (ground (arith, h)))

pub clearing-ending : (k : Kind) → clearing k ≡ true → ending k ≡ true
clearing-ending netconf_delete h = refl
clearing-ending k h = watching-ending k (reading-watching k (ground (arith, h)))

-- What is made of reads and status updates, for any set of kinds that has these.
module _ (w : World) {ks : Kinds} (more : (k : Kind) → watching k ≡ true → ks k ≡ true) where
  pub Reads-Makes : {A : Type 0} {m : M A} → Reads m → Makes ks m
  Reads-Makes p = Makes-more (λ k h. more k (reading-watching k h)) p

  pub set_condition-Makes :
      (status reason message : Text) (m : Machine)
      → Makes ks (set_condition w status reason message m)
  set_condition-Makes status reason message m =
      Reads-Makes (Reads.set_condition-Reads w status reason message m)

  pub update_status_with_retry-Makes : (m : Machine) → Makes ks (update_status_with_retry w m)
  unfolding update_status_with_retry
  update_status_with_retry-Makes m =
      Makes-bind (Makes-call _ _ (λ a. more status_write refl)) (λ answer.
        Makes-result answer (λ e. Makes-if _ (Makes-return _) (Makes-return _))
          (λ m'. Makes-return _))

  -- The condition is set, the status is sent, and the program goes on.
  pub save-Makes :
      {A : Type 0} (status reason message : Text) (m : Machine) {k : Option Error × Machine → M A}
      → ((saved : Option Error × Machine) → Makes ks (k saved))
      → Makes ks
          (set_condition w status reason message m >>= λ m'. update_status_with_retry w m' >>= k)
  save-Makes status reason message m h =
      Makes-bind (set_condition-Makes status reason message m)
        (λ m'. Makes-bind (update_status_with_retry-Makes m') h)

  pub report-Makes : (r : Requeue) (o : Option Error) → Makes ks (report r o)
  report-Makes r none = Makes-return _
  report-Makes r (some e) = Makes-return _
