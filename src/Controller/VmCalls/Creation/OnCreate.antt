-- ===== src/Controller/VmCalls/Creation/OnCreate.antt =====
-- The VMs that `reconcileCreate` creates.
use proxmox_operator.Base.{
  ℕ, zero, suc, ◌+◌, ◌≡◌, refl, inl, inr, List, Option, none, some, Bool, true, false,
  if◌then◌else◌, arith,
}
use proxmox_operator.Base.Int.{pos, ◌+ℤ◌, int64, ℤ, is_zero}
use proxmox_operator.Base.Text.{Text, text}
use proxmox_operator.Base.Errors.{errorf}
use proxmox_operator.Crd.{Machine, MachineClass}
use proxmox_operator.ProviderId
use proxmox_operator.VmBuilder.{VmOption}
use proxmox_operator.World
use proxmox_operator.World.{World, Vm, Task, Call, Log, M, ◌>>=◌, call, return}
use proxmox_operator.Controller.Create.{
  mark_failed, find_vmid, find_available_vmid, max_attempts, generate_vmid, choose, await_created,
  verify_created, provision, create_with_mac, create_with_id, create_on_node, place, adopt,
  find_existing, check_existing_vm, start_create, reconcile_create,
}
use proxmox_operator.Controller.Create.VmId.{answer_cases}
use proxmox_operator.Controller.VmCalls.{
  vm_calls, Quiet, Quiet-return, Quiet-bind, Quiet-if, generate_mac-Quiet, get_vlan_tag-Quiet,
  validate_iso-Quiet, mark_failed-Quiet, mark_missing-Quiet, record_created-Quiet,
  set_condition-Quiet, update_status_with_retry-Quiet, update_vm_status-Quiet,
}
use proxmox_operator.Controller.VmCalls.Creation.{
  Asked, Keeps, Creates, Anything, Keeps-of_Quiet, Keeps-bind, Keeps-if, Keeps-result, Keeps-option,
  Creates-result, Creates-option, Creates-of_Keeps, Creates-after_Quiet, Creates-after_Keeps,
  Creates-then_Keeps,
}

module _ (w : World) where
  pub get_vm-Keeps :
      (node : Text) (vm_id : ℤ) → Keeps (call (w.vm_answer node vm_id) (World.get_vm node vm_id))
  unfolding call
  get_vm-Keeps node vm_id = record { same_number = λ log. refl; still_guarded = λ log g. g }

  pub wait-Keeps : (task : Task) → Keeps (call (w.waited_answer task) (World.wait task))
  unfolding call
  wait-Keeps task = record { same_number = λ log. refl; still_guarded = λ log g. g }

  get_node_names-Quiet : Quiet (call w.node_names_answer World.get_node_names)
  unfolding call
  get_node_names-Quiet = record { quiet = λ log. refl }

  create_vm-Creates :
      (node : Text) (vm_id : ℤ) (options : List VmOption)
      → Creates
          (Asked node vm_id)
          (call (w.created_answer node vm_id options) (World.create_vm node vm_id options))
  unfolding call
  create_vm-Creates node vm_id options = record {
    at_most_one = λ log p. omega arith;
    guards = λ log p g. (p, g);
  }

  -- The ID that the search gives is 0, or it was asked for last and is free.
  find_vmid-Asked :
      (rounds attempt : ℕ) (base : ℤ) (node : Text) (log : Log)
      → let r = find_vmid w rounds attempt base node log in
        is_zero r.0 ≡ false → Asked node r.0 (vm_calls r.1)
  unfolding find_vmid ◌>>=◌ call return
  find_vmid-Asked zero attempt base node log = λ h. ground arith
  find_vmid-Asked (suc rounds) attempt base node log =
      elim (answer_cases (w.vm_answer node (int64 (base +ℤ pos attempt)) log)) [
        | inl (e, p) ↦ rw (p, find_vmid) (λ h. (refl, refl, tt))
        | inr (inl p) ↦ rw (p, find_vmid) (λ h. (refl, refl, tt))
        | inr (inr (vm, p)) ↦ rw (p, find_vmid) (find_vmid-Asked rounds (attempt + 1) base node _)
      ]

  find_vmid-Keeps :
      (rounds attempt : ℕ) (base : ℤ) (node : Text) → Keeps (find_vmid w rounds attempt base node)
  unfolding find_vmid
  find_vmid-Keeps zero attempt base node = Keeps-of_Quiet (Quiet-return _)
  find_vmid-Keeps (suc rounds) attempt base node = Keeps-bind (get_vm-Keeps _ _) (λ r.
      Keeps-result r (λ e. Keeps-of_Quiet (Quiet-return _))
        (λ vm.
          Keeps-option vm (Keeps-of_Quiet (Quiet-return _))
            (λ _. find_vmid-Keeps rounds (attempt + 1) base node)))

  verify_created-Keeps :
      (m : Machine) (node : Text) (vm_id : ℤ) (mac : Text) (vlan : ℤ)
      → Keeps (verify_created w m node vm_id mac vlan)
  unfolding verify_created
  verify_created-Keeps m node vm_id mac vlan = Keeps-bind (get_vm-Keeps node vm_id) (λ r.
      Keeps-result r (λ e. Keeps-of_Quiet (mark_missing-Quiet w e m))
        (λ vm. Keeps-of_Quiet (record_created-Quiet w m vm node vm_id mac vlan)))

  await_created-Keeps :
      (m : Machine) (task : Task) (node : Text) (vm_id : ℤ) (mac : Text) (vlan : ℤ)
      → Keeps (await_created w m task node vm_id mac vlan)
  unfolding await_created
  await_created-Keeps m task node vm_id mac vlan = Keeps-bind (wait-Keeps task) (λ r.
      Keeps-result r (λ e. Keeps-of_Quiet (mark_failed-Quiet w _ _ _ e m))
        (λ task'.
          Keeps-if _ (verify_created-Keeps m node vm_id mac vlan)
            (Keeps-of_Quiet (mark_failed-Quiet w _ _ _ _ m))))

  provision-Creates :
      (m : Machine) (node : Text) (vm_id : ℤ) (mac : Text) (vlan : ℤ) (options : List VmOption)
      → Creates (Asked node vm_id) (provision w m node vm_id mac vlan options)
  unfolding provision
  provision-Creates m node vm_id mac vlan options =
      Creates-then_Keeps (create_vm-Creates node vm_id options) (λ r.
        Keeps-result r (λ e. Keeps-of_Quiet (mark_failed-Quiet w _ _ _ e m))
          (λ task. await_created-Keeps m task node vm_id mac vlan))

  create_with_mac-Creates :
      (m : Machine) (class : MachineClass) (node : Text) (vm_id : ℤ) (mac : Text)
      → Creates (Asked node vm_id) (create_with_mac w m class node vm_id mac)
  unfolding create_with_mac
  create_with_mac-Creates m class node vm_id mac =
      Creates-after_Quiet (get_vlan_tag-Quiet w m) (λ vlan.
        Creates-after_Quiet
          (Quiet-if _ (validate_iso-Quiet w node m.spec.image_id) (Quiet-return none))
          (λ invalid.
            Creates-option invalid (provision-Creates m node vm_id mac vlan _)
              (λ e. Creates-of_Keeps (Keeps-of_Quiet (mark_failed-Quiet w _ _ _ e m)))))

  create_with_id-Creates :
      (m : Machine) (class : MachineClass) (node : Text) (vm_id : ℤ)
      → Creates (Asked node vm_id) (create_with_id w m class node vm_id)
  unfolding create_with_id
  create_with_id-Creates m class node vm_id = Creates-after_Quiet (generate_mac-Quiet w) (λ r.
      Creates-result r (λ e. Creates-of_Keeps (Keeps-of_Quiet (mark_failed-Quiet w _ _ _ e m)))
        (λ mac. create_with_mac-Creates m class node vm_id mac))

  -- After a search that has found an ID, it has asked for it.
  create_found-Creates :
      (m : Machine) (class : MachineClass) (node : Text) (vm_id : ℤ) (b : Bool)
      → is_zero vm_id ≡ b
      → Creates
          (λ log. is_zero vm_id ≡ false → Asked node vm_id log)
          (if b
            then mark_failed w
                (some (text "No available VMID found - all IDs in range are in use"))
                (text "NoAvailableVMID")
                (text "No available VMID found after checking range")
                (errorf (text "no available VMID found"))
                m
            else create_with_id w m class node vm_id)
  create_found-Creates m class node vm_id true e =
      Creates-of_Keeps (Keeps-of_Quiet (mark_failed-Quiet w _ _ _ _ m))
  create_found-Creates m class node vm_id false e = record {
    at_most_one = λ log p. (create_with_id-Creates m class node vm_id).at_most_one log (p e);
    guards = λ log p. (create_with_id-Creates m class node vm_id).guards log (p e);
  }

  create_on_node-Creates :
      (m : Machine) (class : MachineClass) (node : Text)
      → Creates Anything (create_on_node w m class node)
  unfolding create_on_node find_available_vmid ◌>>=◌
  create_on_node-Creates m class node =
      let base = generate_vmid w m in
      record {
        at_most_one = λ log p.
            let r = find_vmid w max_attempts 0 base node log in
            omega (
              arith,
              (find_vmid-Keeps max_attempts 0 base node).same_number log,
              (create_found-Creates m class node r.0 _ refl).at_most_one r.1
                  (find_vmid-Asked max_attempts 0 base node log),
            );
        guards = λ log p g.
            let r = find_vmid w max_attempts 0 base node log in
            (create_found-Creates m class node r.0 _ refl).guards r.1
              (find_vmid-Asked max_attempts 0 base node log)
              ((find_vmid-Keeps max_attempts 0 base node).still_guarded log g);
      }

  place-Creates : (m : Machine) (class : MachineClass) → Creates Anything (place w m class)
  unfolding place
  place-Creates m class = Creates-after_Quiet get_node_names-Quiet (λ names.
      Creates-result (choose w names)
        (λ e. Creates-of_Keeps (Keeps-of_Quiet (mark_failed-Quiet w _ _ _ e m)))
        (λ node. create_on_node-Creates m class node))

  start_create-Creates :
      (m : Machine) (class : MachineClass) → Creates Anything (start_create w m class)
  unfolding start_create
  start_create-Creates m class = Creates-after_Quiet (set_condition-Quiet w _ _ _ _) (λ m1.
      Creates-after_Quiet (update_status_with_retry-Quiet w m1) (λ saved.
        Creates-option saved.0 (place-Creates saved.1 class)
          (λ e. Creates-of_Keeps (Keeps-of_Quiet (Quiet-return _)))))

  adopt-Keeps : (m : Machine) (vm : Option Vm) (node : Text) → Keeps (adopt w m vm node)
  adopt-Keeps m none node = Keeps-of_Quiet (Quiet-return _)
  adopt-Keeps m (some vm) node = Keeps-of_Quiet (
      Quiet-bind (update_vm_status-Quiet w _ _ _) (λ m1.
        Quiet-bind (set_condition-Quiet w _ _ _ _) (λ m2. update_status_with_retry-Quiet w m2)))

  find_existing-Keeps :
      (m : Machine) (node : Text) (vm_id : ℤ) → Keeps (find_existing w m node vm_id)
  find_existing-Keeps m node vm_id =
      Keeps-bind (get_vm-Keeps node vm_id)
        (λ r. Keeps-result r (λ e. Keeps-of_Quiet (Quiet-return _)) (λ vm. adopt-Keeps m vm node))

  pub check_existing_vm-Keeps : (m : Machine) → Keeps (check_existing_vm w m)
  unfolding check_existing_vm
  check_existing_vm-Keeps m = Keeps-if _ (Keeps-of_Quiet (Quiet-return _)) (
      Keeps-result (ProviderId.parse m.status.provider_id) (λ e. Keeps-of_Quiet (Quiet-return _))
        (λ id. find_existing-Keeps m id.0 id.1))

  pub reconcile_create-Creates :
      (m : Machine) (class : MachineClass) → Creates Anything (reconcile_create w m class)
  unfolding reconcile_create
  reconcile_create-Creates m class = Creates-after_Keeps (check_existing_vm-Keeps m) (λ existing.
      Creates-option existing.0 (Creates-of_Keeps (Keeps-of_Quiet (Quiet-return _)))
        (λ e. start_create-Creates existing.1 class))
