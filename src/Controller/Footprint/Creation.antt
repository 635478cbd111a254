-- ===== src/Controller/Footprint/Creation.antt =====
-- The kinds of calls that the creation of a VM makes.
use proxmox_operator.Base.{refl, List, Option, none, some}
use proxmox_operator.Base.Int.{ℤ}
use proxmox_operator.Base.Text.{Text}
use proxmox_operator.Base.Errors.{Error}
use proxmox_operator.Crd.{Machine, MachineClass}
use proxmox_operator.ProviderId
use proxmox_operator.VmBuilder.{VmOption}
use proxmox_operator.World.{World, Vm, Task, M}
use proxmox_operator.World.Makes.{
  Makes-time, Makes-more, Makes, Makes-bind, Makes-call, Makes-if, Makes-result, Makes-option,
  Makes-return,
}
use proxmox_operator.Controller.Create.{
  mark_failed, fail_after, mark_missing, record_created, verify_created, await_created, provision,
  create_with_mac, create_with_id, create_on_node, place, start_create, adopt, check_existing_vm,
  reconcile_create, choose,
}
use proxmox_operator.Controller.Reads
use proxmox_operator.Controller.Reads.{Reads}
use proxmox_operator.Controller.Footprint.{
  making, publishing-making, watching-making, Reads-Makes, save-Makes,
  update_status_with_retry-Makes, report-Makes,
}

module _ (w : World) where
  abbrev Creates : {A : Type 0} → M A → Type 0
  Creates m = Makes making m

  reads : {A : Type 0} {m : M A} → Reads m → Creates m
  reads p = Reads-Makes w watching-making p

  mark_failed-Makes :
      (message : Option Text) (reason condition : Text) (e : Error) (m : Machine)
      → Creates (mark_failed w message reason condition e m)
  unfolding mark_failed
  mark_failed-Makes message reason condition e m =
      save-Makes w watching-making _ _ _ _ (λ _. Makes-return _)

  fail_after-Makes : (o : Option Error) (e : Error) → Creates (fail_after o e)
  fail_after-Makes none e = Makes-return _
  fail_after-Makes (some e') e = Makes-return _

  mark_missing-Makes : (e : Error) (m : Machine) → Creates (mark_missing w e m)
  unfolding mark_missing
  mark_missing-Makes e m =
      save-Makes w watching-making _ _ _ _ (λ saved. fail_after-Makes saved.0 _)

  record_created-Makes :
      (m : Machine) (vm : Option Vm) (node : Text) (vm_id : ℤ) (mac : Text) (vlan : ℤ)
      → Creates (record_created w m vm node vm_id mac vlan)
  unfolding record_created
  record_created-Makes m vm node vm_id mac vlan =
      Makes-bind (Makes-more publishing-making (Reads.publish_mac-Makes w m mac vlan)) (λ _.
        Makes-bind (Makes-time w) (λ now.
          Makes-bind (reads (Reads.update_vm_status-Reads w vm node _)) (λ m1.
            save-Makes w watching-making _ _ _ m1
              (λ saved. report-Makes w watching-making _ saved.0))))

  verify_created-Makes :
      (m : Machine) (node : Text) (vm_id : ℤ) (mac : Text) (vlan : ℤ)
      → Creates (verify_created w m node vm_id mac vlan)
  unfolding verify_created
  verify_created-Makes m node vm_id mac vlan = Makes-bind (Makes-call _ _ (λ a. refl)) (λ r.
      Makes-result r (λ e. mark_missing-Makes e m)
        (λ vm. record_created-Makes m vm node vm_id mac vlan))

  await_created-Makes :
      (m : Machine) (task : Task) (node : Text) (vm_id : ℤ) (mac : Text) (vlan : ℤ)
      → Creates (await_created w m task node vm_id mac vlan)
  unfolding await_created
  await_created-Makes m task node vm_id mac vlan = Makes-bind (Makes-call _ _ (λ a. refl)) (λ r.
      Makes-result r (λ e. mark_failed-Makes _ _ _ e m)
        (λ task'.
          Makes-if _ (verify_created-Makes m node vm_id mac vlan) (mark_failed-Makes _ _ _ _ m)))

  provision-Makes :
      (m : Machine) (node : Text) (vm_id : ℤ) (mac : Text) (vlan : ℤ) (options : List VmOption)
      → Creates (provision w m node vm_id mac vlan options)
  unfolding provision
  provision-Makes m node vm_id mac vlan options = Makes-bind (Makes-call _ _ (λ a. refl)) (λ r.
      Makes-result r (λ e. mark_failed-Makes _ _ _ e m)
        (λ task. await_created-Makes m task node vm_id mac vlan))

  create_with_mac-Makes :
      (m : Machine) (class : MachineClass) (node : Text) (vm_id : ℤ) (mac : Text)
      → Creates (create_with_mac w m class node vm_id mac)
  unfolding create_with_mac
  create_with_mac-Makes m class node vm_id mac =
      Makes-bind (reads (Reads.get_vlan_tag-Reads w m)) (λ vlan.
        Makes-bind (reads (Reads.check_image-Reads w m node)) (λ invalid.
          Makes-option invalid (provision-Makes m node vm_id mac vlan _)
            (λ e. mark_failed-Makes _ _ _ e m)))

  create_with_id-Makes :
      (m : Machine) (class : MachineClass) (node : Text) (vm_id : ℤ)
      → Creates (create_with_id w m class node vm_id)
  unfolding create_with_id
  create_with_id-Makes m class node vm_id = Makes-bind (reads (Reads.generate_mac-Reads w)) (λ r.
      Makes-result r (λ e. mark_failed-Makes _ _ _ e m)
        (λ mac. create_with_mac-Makes m class node vm_id mac))

  create_on_node-Makes :
      (m : Machine) (class : MachineClass) (node : Text) → Creates (create_on_node w m class node)
  unfolding create_on_node
  create_on_node-Makes m class node =
      Makes-bind (reads (Reads.find_available_vmid-Reads w m node)) (λ vm_id.
        Makes-if _ (mark_failed-Makes _ _ _ _ m) (create_with_id-Makes m class node vm_id))

  place-Makes : (m : Machine) (class : MachineClass) → Creates (place w m class)
  unfolding place
  place-Makes m class = Makes-bind (reads (Reads.get_node_names-Reads w)) (λ names.
      Makes-result (choose w names) (λ e. mark_failed-Makes _ _ _ e m)
        (λ node. create_on_node-Makes m class node))

  start_create-Makes : (m : Machine) (class : MachineClass) → Creates (start_create w m class)
  unfolding start_create
  start_create-Makes m class =
      save-Makes w watching-making _ _ _ _
        (λ saved. Makes-option saved.0 (place-Makes saved.1 class) (λ e. Makes-return _))

  adopt-Makes : (m : Machine) (vm : Option Vm) (node : Text) → Creates (adopt w m vm node)
  adopt-Makes m none node = Makes-return _
  adopt-Makes m (some vm) node =
      Makes-bind (reads (Reads.update_vm_status-Reads w (some vm) node _)) (λ m1.
        Makes-bind (reads (Reads.set_condition-Reads w _ _ _ m1))
          (λ m2. update_status_with_retry-Makes w watching-making m2))

  check_existing_vm-Makes : (m : Machine) → Creates (check_existing_vm w m)
  unfolding check_existing_vm
  check_existing_vm-Makes m = Makes-if _ (Makes-return _) (
      Makes-result (ProviderId.parse m.status.provider_id) (λ e. Makes-return _)
        (λ id.
          Makes-bind (Makes-call _ _ (λ a. refl))
            (λ found. Makes-result found (λ e. Makes-return _) (λ vm. adopt-Makes m vm id.0))))

  pub reconcile_create-Makes :
      (m : Machine) (class : MachineClass) → Makes making (reconcile_create w m class)
  unfolding reconcile_create
  reconcile_create-Makes m class = Makes-bind (check_existing_vm-Makes m) (λ existing.
      Makes-option existing.0 (Makes-return _) (λ e. start_create-Makes existing.1 class))
