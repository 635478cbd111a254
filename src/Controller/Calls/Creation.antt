-- ===== src/Controller/Calls/Creation.antt =====
-- How many calls the creation of a VM makes.
use proxmox_operator.Base.{List, Option, none, some, arith}
use proxmox_operator.Base.Int.{ℤ}
use proxmox_operator.Base.Text.{Text}
use proxmox_operator.Crd.{Machine, MachineClass}
use proxmox_operator.ProviderId
use proxmox_operator.VmBuilder.{VmOption}
use proxmox_operator.World.{World, Vm, Task}
use proxmox_operator.World.Calls.{
  Calls, Calls-return, Calls-more, Calls-bind, Calls-then, Calls-if, Calls-result, Calls-option,
}
use proxmox_operator.Controller.Create.{
  choose, await_created, verify_created, provision, create_with_mac, create_with_id, create_on_node,
  place, adopt, find_existing, check_existing_vm, start_create, reconcile_create,
}
use proxmox_operator.Controller.Calls.{
  set_condition-Calls, update_status_with_retry-Calls, update_vm_status-Calls, generate_mac-Calls,
  get_vlan_tag-Calls, check_image-Calls, find_available_vmid-Calls, mark_failed-Calls,
  mark_missing-Calls, record_created-Calls,
}

module _ (w : World) where
  verify_created-Calls :
      (m : Machine) (node : Text) (vm_id : ℤ) (mac : Text) (vlan : ℤ)
      → Calls 5 (verify_created w m node vm_id mac vlan)
  unfolding verify_created
  verify_created-Calls m node vm_id mac vlan = Calls-then _ _ 4 (λ found.
      Calls-result found (λ e. Calls-more 1 4 (omega arith) (mark_missing-Calls w e m))
        (λ vm. record_created-Calls w m vm node vm_id mac vlan))

  await_created-Calls :
      (m : Machine) (task : Task) (node : Text) (vm_id : ℤ) (mac : Text) (vlan : ℤ)
      → Calls 6 (await_created w m task node vm_id mac vlan)
  unfolding await_created
  await_created-Calls m task node vm_id mac vlan = Calls-then _ _ 5 (λ done.
      Calls-result done (λ e. Calls-more 1 5 (omega arith) (mark_failed-Calls w _ _ _ e m))
        (λ task'.
          Calls-if _ (verify_created-Calls m node vm_id mac vlan)
            (Calls-more 1 5 (omega arith) (mark_failed-Calls w _ _ _ _ m))))

  provision-Calls :
      (m : Machine) (node : Text) (vm_id : ℤ) (mac : Text) (vlan : ℤ) (options : List VmOption)
      → Calls 7 (provision w m node vm_id mac vlan options)
  unfolding provision
  provision-Calls m node vm_id mac vlan options = Calls-then _ _ 6 (λ started.
      Calls-result started (λ e. Calls-more 1 6 (omega arith) (mark_failed-Calls w _ _ _ e m))
        (λ task. await_created-Calls m task node vm_id mac vlan))

  create_with_mac-Calls :
      (m : Machine) (class : MachineClass) (node : Text) (vm_id : ℤ) (mac : Text)
      → Calls 11 (create_with_mac w m class node vm_id mac)
  unfolding create_with_mac
  create_with_mac-Calls m class node vm_id mac = Calls-bind 1 10 (get_vlan_tag-Calls w m) (λ vlan.
      Calls-bind 3 7 (check_image-Calls w m node) (λ invalid.
        Calls-option invalid (provision-Calls m node vm_id mac vlan _)
          (λ e. Calls-more 1 7 (omega arith) (mark_failed-Calls w _ _ _ e m))))

  create_on_node-Calls :
      (m : Machine) (class : MachineClass) (node : Text) → Calls 112 (create_on_node w m class node)
  unfolding create_on_node create_with_id
  create_on_node-Calls m class node =
      Calls-bind 100 12 (find_available_vmid-Calls w m node) (λ vm_id.
        Calls-if _ (Calls-more 1 12 (omega arith) (mark_failed-Calls w _ _ _ _ m)) (
          Calls-bind 1 11 (generate_mac-Calls w) (λ mac.
            Calls-result mac (λ e. Calls-more 1 11 (omega arith) (mark_failed-Calls w _ _ _ e m))
              (λ mac'. create_with_mac-Calls m class node vm_id mac'))))

  place-Calls : (m : Machine) (class : MachineClass) → Calls 113 (place w m class)
  unfolding place
  place-Calls m class = Calls-then _ _ 112 (λ names.
      Calls-result (choose w names)
        (λ e. Calls-more 1 112 (omega arith) (mark_failed-Calls w _ _ _ e m))
        (λ node. create_on_node-Calls m class node))

  start_create-Calls : (m : Machine) (class : MachineClass) → Calls 114 (start_create w m class)
  unfolding start_create
  start_create-Calls m class = Calls-bind 0 114 (set_condition-Calls w _ _ _ _) (λ m1.
      Calls-bind 1 113 (update_status_with_retry-Calls w m1)
        (λ saved. Calls-option saved.0 (place-Calls saved.1 class) (λ e. Calls-return 113 _)))

  adopt-Calls : (m : Machine) (vm : Option Vm) (node : Text) → Calls 2 (adopt w m vm node)
  adopt-Calls m none node = Calls-return 2 _
  adopt-Calls m (some vm) node = Calls-bind 1 1 (update_vm_status-Calls w (some vm) node _) (λ m1.
      Calls-bind 0 1 (set_condition-Calls w _ _ _ m1) (λ m2. update_status_with_retry-Calls w m2))

  find_existing-Calls :
      (m : Machine) (node : Text) (vm_id : ℤ) → Calls 3 (find_existing w m node vm_id)
  find_existing-Calls m node vm_id =
      Calls-then _ _ 2
        (λ found. Calls-result found (λ e. Calls-return 2 _) (λ vm. adopt-Calls m vm node))

  check_existing_vm-Calls : (m : Machine) → Calls 3 (check_existing_vm w m)
  unfolding check_existing_vm
  check_existing_vm-Calls m = Calls-if _ (Calls-return 3 _) (
      Calls-result (ProviderId.parse m.status.provider_id) (λ e. Calls-return 3 _)
        (λ id. find_existing-Calls m id.0 id.1))

  pub reconcile_create-Calls :
      (m : Machine) (class : MachineClass) → Calls 117 (reconcile_create w m class)
  unfolding reconcile_create
  reconcile_create-Calls m class = Calls-bind 3 114 (check_existing_vm-Calls m) (λ existing.
      Calls-option existing.0 (Calls-return 114 _) (λ e. start_create-Calls existing.1 class))
