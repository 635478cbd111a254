-- ===== src/Controller/Lifecycle/Creation.antt =====
-- The phases that the creation of a VM sends.
use proxmox_operator.Base.{List, ◌≡◌, refl, Option, none, some}
use proxmox_operator.Base.Int.{ℤ}
use proxmox_operator.Base.Text.{Text}
use proxmox_operator.Base.Errors.{Error, Result}
use proxmox_operator.Crd.{Phase, creating, running, failed, Machine, MachineClass}
use proxmox_operator.VmBuilder.{VmOption}
use proxmox_operator.World.{World, Vm, Task, Log, M}
use proxmox_operator.World.Triple.{
  Triple, Triple-bind, Triple-before, Triple-result, Triple-option, Triple-either,
}
use proxmox_operator.Controller.Status.{with_phase}
use proxmox_operator.Controller.Create.{
  Requeue, message_or, mark_failed, record_created, mark_missing, verify_created, await_created,
  provision, create_with_mac, create_with_id, create_on_node, place, choose,
}
use proxmox_operator.Controller.Run.Watch.{update_vm_status-SameMachine}
use proxmox_operator.Controller.Silent
use proxmox_operator.Controller.Lifecycle.{create_step, fail_step, Stores}
use proxmox_operator.Controller.Lifecycle.Saving.{
  Triple-after_Silent, At, Onward, Onward-return, Onward-report, Onward-fail_after,
  PhaseStep-Allows, Silent-Triple_with, save-Triple, mark-Triple,
}

message_or-phase :
    (message : Option Text) (m : Machine) → (message_or message m).status.phase ≡ m.status.phase
message_or-phase none m = refl
message_or-phase (some t) m = refl

module _ (w : World) (stores : Stores w) (before : Log) (start : Phase) where
  -- The program, started in the phase Creating, sends phases in the order of the steps.
  abbrev OnCreating : M (Result Requeue) → Type 0
  OnCreating m = Triple (At before start creating) m (Onward before start)

  mark_failed-Onward :
      (message : Option Text) (reason condition : Text) (e : Error) (m : Machine)
      → OnCreating (mark_failed w message reason condition e m)
  unfolding mark_failed
  mark_failed-Onward message reason condition e m =
      mark-Triple w stores before start _ _ _ _ fail_step
        (message_or-phase message (with_phase failed m))
        (λ saved. Triple-before (λ log s. s.0) (Onward-return before start _))

  mark_missing-Onward : (e : Error) (m : Machine) → OnCreating (mark_missing w e m)
  unfolding mark_missing
  mark_missing-Onward e m =
      mark-Triple w stores before start _ _ _ _ fail_step refl
        (λ saved. Triple-before (λ log s. s.0) (Onward-fail_after before start saved.0 _))

  record_created-Onward :
      (m : Machine) (vm : Option Vm) (node : Text) (vm_id : ℤ) (mac : Text) (vlan : ℤ)
      → OnCreating (record_created w m vm node vm_id mac vlan)
  unfolding record_created
  record_created-Onward m vm node vm_id mac vlan =
      Triple-after_Silent before start (Silent.publish_mac-Silent w m mac vlan) (λ _.
        Triple-after_Silent before start (Silent.time-Silent w) (λ now.
          Triple-bind (λ m1 log. At before start creating log × (m1.status.phase ≡ running))
            (Silent-Triple_with before start (λ m1. m1.status.phase ≡ running)
              (λ log. (update_vm_status-SameMachine w vm node _ log).0)
              (Silent.update_vm_status-Silent w vm node _))
            (λ m1.
              save-Triple w stores before start _ _ _ m1 (PhaseStep-Allows before start create_step)
                (λ saved. Triple-before (λ log s. s.0.0) (Onward-report before start _ saved.0)))))

  verify_created-Onward :
      (m : Machine) (node : Text) (vm_id : ℤ) (mac : Text) (vlan : ℤ)
      → OnCreating (verify_created w m node vm_id mac vlan)
  unfolding verify_created
  verify_created-Onward m node vm_id mac vlan =
      Triple-after_Silent before start (Silent.get_vm-Silent w node vm_id) (λ r.
        Triple-result (λ _. At before start creating) r (λ e. mark_missing-Onward e m)
          (λ vm. record_created-Onward m vm node vm_id mac vlan))

  await_created-Onward :
      (m : Machine) (task : Task) (node : Text) (vm_id : ℤ) (mac : Text) (vlan : ℤ)
      → OnCreating (await_created w m task node vm_id mac vlan)
  unfolding await_created
  await_created-Onward m task node vm_id mac vlan =
      Triple-after_Silent before start (Silent.wait-Silent w task) (λ r.
        Triple-result (λ _. At before start creating) r (λ e. mark_failed-Onward _ _ _ e m)
          (λ task'.
            Triple-either _ (verify_created-Onward m node vm_id mac vlan)
              (mark_failed-Onward _ _ _ _ m)))

  provision-Onward :
      (m : Machine) (node : Text) (vm_id : ℤ) (mac : Text) (vlan : ℤ) (options : List VmOption)
      → OnCreating (provision w m node vm_id mac vlan options)
  unfolding provision
  provision-Onward m node vm_id mac vlan options =
      Triple-after_Silent before start (Silent.create_vm-Silent w node vm_id options) (λ r.
        Triple-result (λ _. At before start creating) r (λ e. mark_failed-Onward _ _ _ e m)
          (λ task. await_created-Onward m task node vm_id mac vlan))

  create_with_mac-Onward :
      (m : Machine) (class : MachineClass) (node : Text) (vm_id : ℤ) (mac : Text)
      → OnCreating (create_with_mac w m class node vm_id mac)
  unfolding create_with_mac
  create_with_mac-Onward m class node vm_id mac =
      Triple-after_Silent before start (Silent.get_vlan_tag-Silent w m) (λ vlan.
        Triple-after_Silent before start (Silent.check_image-Silent w m node) (λ invalid.
          Triple-option (λ _. At before start creating) invalid
            (provision-Onward m node vm_id mac vlan _) (λ e. mark_failed-Onward _ _ _ e m)))

  create_on_node-Onward :
      (m : Machine) (class : MachineClass) (node : Text)
      → OnCreating (create_on_node w m class node)
  unfolding create_on_node create_with_id
  create_on_node-Onward m class node =
      Triple-after_Silent before start (Silent.find_available_vmid-Silent w m node) (λ vm_id.
        Triple-either _ (mark_failed-Onward _ _ _ _ m) (
          Triple-after_Silent before start (Silent.generate_mac-Silent w) (λ r.
            Triple-result (λ _. At before start creating) r (λ e. mark_failed-Onward _ _ _ e m)
              (λ mac. create_with_mac-Onward m class node vm_id mac))))

  pub place-Onward : (m : Machine) (class : MachineClass) → OnCreating (place w m class)
  unfolding place
  place-Onward m class = Triple-after_Silent before start (Silent.get_node_names-Silent w) (λ names.
      Triple-result (λ _. At before start creating) (choose w names)
        (λ e. mark_failed-Onward _ _ _ e m) (λ node. create_on_node-Onward m class node))
