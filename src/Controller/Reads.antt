-- ===== src/Controller/Reads.antt =====
-- The parts of the controller that keep away from the VMs and the machine in the store: they read, or write
-- NetworkConfigurations.
use proxmox_operator.Base.{refl, ℕ, zero, suc, ◌+◌, Option, none, some, true, false}
use proxmox_operator.Base.Int.{ℤ}
use proxmox_operator.Base.Text.{Text}
use proxmox_operator.Base.Errors.{Error}
use proxmox_operator.Crd.{Machine}
use proxmox_operator.NetworkConfiguration
use proxmox_operator.World
use proxmox_operator.World.{World, Vm, Task, M, ◌>>=◌, return, call, time}
use proxmox_operator.World.Makes.{
  namespace_read, netconf_read, netconf_create, netconf_delete, vm_read, node_read, storage_read,
  agent_read, random_read, Kinds, Makes, Makes-bind, Makes-if, Makes-result, Makes-option,
  Makes-return, Makes-call, makes_rules,
}
use proxmox_operator.Controller.Status.{set_condition, update_network_status, update_vm_status}
use proxmox_operator.Controller.Create.{
  generate_mac, get_vlan_tag, validate_iso, find_vmid, find_available_vmid, publish_mac,
  check_image, find_iso, find_storage, find_image,
}
use proxmox_operator.Base.Split.{split_once}
use proxmox_operator.Controller.Run.{refresh_ip}

-- The kinds of their calls.
abbrev pub reading : Kinds
reading namespace_read = true
reading netconf_read = true
reading vm_read = true
reading node_read = true
reading storage_read = true
reading agent_read = true
reading random_read = true
reading _ = false

-- And creating or deleting a NetworkConfiguration.
abbrev pub publishing : Kinds
publishing netconf_create = true
publishing k = reading k

abbrev pub clearing : Kinds
clearing netconf_delete = true
clearing k = reading k

abbrev pub Reads : {A : Type 0} → M A → Type 0
Reads m = Makes reading m

module _ (w : World) where
  pub get_vm-Reads :
      (node : Text) (vm_id : ℤ) → Reads (call (w.vm_answer node vm_id) (World.get_vm node vm_id))
  get_vm-Reads node vm_id = search (makes_rules)

  pub get_node_names-Reads : Reads (call w.node_names_answer World.get_node_names)
  get_node_names-Reads = search (makes_rules)

  pub set_condition-Reads :
      (status reason message : Text) (m : Machine) → Reads (set_condition w status reason message m)
  unfolding set_condition
  set_condition-Reads status reason message m = search (makes_rules)

  pub update_network_status-Reads : (m : Machine) → Reads (update_network_status w m)
  unfolding update_network_status
  update_network_status-Reads m =
      Makes-bind (search (makes_rules))
        (λ answer. Makes-result answer (λ e. search (makes_rules)) (λ ifaces. search (makes_rules)))

  pub update_vm_status-Reads :
      (vm : Option Vm) (node : Text) (m : Machine) → Reads (update_vm_status w vm node m)
  unfolding update_vm_status
  update_vm_status-Reads none node m = search (makes_rules)
  update_vm_status-Reads (some vm) node m = search (makes_rules, update_network_status-Reads)

  pub generate_mac-Reads : Reads (generate_mac w)
  unfolding generate_mac
  generate_mac-Reads = search (makes_rules)

  pub get_vlan_tag-Reads : (m : Machine) → Reads (get_vlan_tag w m)
  unfolding get_vlan_tag
  get_vlan_tag-Reads m = search (makes_rules)

  find_iso-Reads : (storage path : Text) → Reads (find_iso w storage path)
  find_iso-Reads storage path =
      Makes-bind (search (makes_rules))
        (λ content. Makes-result content (λ e. search (makes_rules)) (λ isos. search (makes_rules)))

  find_storage-Reads : (storage path : Text) → Reads (find_storage w storage path)
  find_storage-Reads storage path =
      Makes-bind (search (makes_rules))
        (λ failure. Makes-option failure (find_iso-Reads storage path) (λ e. search (makes_rules)))

  find_image-Reads : (node storage path : Text) → Reads (find_image w node storage path)
  find_image-Reads node storage path = Makes-bind (search (makes_rules)) (λ failure.
      Makes-option failure (find_storage-Reads storage path) (λ e. search (makes_rules)))

  pub validate_iso-Reads : (node path : Text) → Reads (validate_iso w node path)
  unfolding validate_iso
  validate_iso-Reads node path = Makes-if _ (Makes-return none) (
      Makes-option (split_once path b':').1 (Makes-return _) (λ rest. find_image-Reads node _ path))

  pub check_image-Reads : (m : Machine) (node : Text) → Reads (check_image w m node)
  check_image-Reads m node = search (makes_rules, validate_iso-Reads)

  find_vmid-Reads :
      (rounds attempt : ℕ) (base : ℤ) (node : Text) → Reads (find_vmid w rounds attempt base node)
  unfolding find_vmid
  find_vmid-Reads zero attempt base node = search (makes_rules)
  find_vmid-Reads (suc rounds) attempt base node = Makes-bind (search (makes_rules)) (λ found.
      Makes-result found (λ e. search (makes_rules))
        (λ vm.
          Makes-option vm (search (makes_rules))
            (λ _. find_vmid-Reads rounds (attempt + 1) base node)))

  pub find_available_vmid-Reads : (m : Machine) (node : Text) → Reads (find_available_vmid w m node)
  unfolding find_available_vmid
  find_available_vmid-Reads m node = find_vmid-Reads _ _ _ node

  create-Makes :
      (m : Machine) (mac : Text) (vlan : ℤ)
      → Makes publishing (NetworkConfiguration.create w m mac vlan)
  unfolding NetworkConfiguration.create
  create-Makes m mac vlan = Makes-bind (search (makes_rules)) (λ found.
      Makes-result found
        (λ e. Makes-if _ (Makes-bind (Makes-call _ _ (λ a. refl)) created-Makes) (Makes-return _))
        (λ _. search (makes_rules)))
    where
      created-Makes : (o : Option Error) → Makes publishing (NetworkConfiguration.created w o)
      created-Makes none = search (makes_rules)
      created-Makes (some e) = search (makes_rules)

  pub publish_mac-Makes :
      (m : Machine) (mac : Text) (vlan : ℤ) → Makes publishing (publish_mac w m mac vlan)
  unfolding publish_mac
  publish_mac-Makes m mac vlan = search (makes_rules, create-Makes)

  pub get_ip-Reads : (m : Machine) → Reads (NetworkConfiguration.get_ip w m)
  unfolding NetworkConfiguration.get_ip
  get_ip-Reads m =
      Makes-bind (search (makes_rules))
        (λ found. Makes-result found (λ e. search (makes_rules)) (λ _. search (makes_rules)))

  pub refresh_ip-Reads : (m : Machine) → Reads (refresh_ip w m)
  unfolding refresh_ip
  refresh_ip-Reads m =
      Makes-if _
        (Makes-bind (get_ip-Reads m)
          (λ answer. Makes-result answer (λ e. Makes-return m) (λ ip. Makes-return _)))
        (Makes-return m)

  pub delete-Makes : (m : Machine) → Makes clearing (NetworkConfiguration.delete w m)
  unfolding NetworkConfiguration.delete
  delete-Makes m = Makes-bind (search (makes_rules)) (λ found.
      Makes-result found (λ e. search (makes_rules))
        (λ _. Makes-bind (search (makes_rules)) (λ o. deleted-Makes o)))
    where
      deleted-Makes : (o : Option Error) → Makes clearing (NetworkConfiguration.deleted w o)
      deleted-Makes none = search (makes_rules)
      deleted-Makes (some e) = search (makes_rules)
