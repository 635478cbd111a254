-- ===== src/Controller/Calls.antt =====
-- How many calls the parts of a reconciliation make.
pub mod Creation
pub mod Reconcile
use proxmox_operator.Base.{
  ℕ, zero, suc, ◌+◌, ◌≤◌, Option, none, some, Bool, true, false, if◌then◌else◌, arith,
}
use proxmox_operator.Base.Int.{ℤ}
use proxmox_operator.Base.Text.{Text}
use proxmox_operator.Base.Split.{split_once}
use proxmox_operator.Base.Errors.{Error, Result, ok, err}
use proxmox_operator.Crd.{Machine}
use proxmox_operator.NetworkConfiguration
use proxmox_operator.World.{World, Vm, Task, Log, M, ◌>>=◌, return, call, time}
use proxmox_operator.World.Calls.{
  Calls, Calls-return, Calls-call, Calls-more, Calls-bind, Calls-then, Calls-if, Calls-result,
  Calls-option,
}
use proxmox_operator.Controller.Status.{
  set_condition, update_status_with_retry, update_network_status, update_vm_status,
}
use proxmox_operator.Controller.Create.{
  Requeue, report, fail_after, generate_mac, get_vlan_tag, validate_iso, find_vmid,
  find_available_vmid, publish_mac, check_image, find_iso, find_storage, find_image, mark_failed,
  mark_missing, record_created,
}

module _ (w : World) where
  time-Calls : Calls 0 (time w)
  unfolding time
  time-Calls = record { few = λ log. omega arith }

  pub set_condition-Calls :
      (status reason message : Text) (m : Machine)
      → Calls 0 (set_condition w status reason message m)
  unfolding set_condition
  set_condition-Calls status reason message m = Calls-bind 0 0 time-Calls (λ now. Calls-return 0 _)

  pub update_status_with_retry-Calls : (m : Machine) → Calls 1 (update_status_with_retry w m)
  unfolding update_status_with_retry
  update_status_with_retry-Calls m = Calls-then _ _ 0 (λ answer.
      Calls-result answer (λ e. Calls-if _ (Calls-return 0 _) (Calls-return 0 _))
        (λ m'. Calls-return 0 _))

  -- A condition is set and the status is sent, and what follows makes no call.
  pub save-Calls :
      {A : Type 0} (status reason message : Text) (m : Machine) {k : Option Error × Machine → M A}
      → ((saved : Option Error × Machine) → Calls 0 (k saved))
      → Calls 1
          (set_condition w status reason message m >>= λ m'. update_status_with_retry w m' >>= k)
  save-Calls status reason message m h =
      Calls-bind 0 1 (set_condition-Calls status reason message m)
        (λ m'. Calls-bind 1 0 (update_status_with_retry-Calls m') h)

  pub report-Calls : (r : Requeue) (o : Option Error) → Calls 0 (report r o)
  report-Calls r none = Calls-return 0 _
  report-Calls r (some e) = Calls-return 0 _

  fail_after-Calls : (o : Option Error) (e : Error) → Calls 0 (fail_after o e)
  fail_after-Calls none e = Calls-return 0 _
  fail_after-Calls (some e') e = Calls-return 0 _

  pub update_vm_status-Calls :
      (vm : Option Vm) (node : Text) (m : Machine) → Calls 1 (update_vm_status w vm node m)
  unfolding update_vm_status update_network_status
  update_vm_status-Calls none node m = Calls-return 1 _
  update_vm_status-Calls (some vm) node m = Calls-bind 0 1 time-Calls (λ now.
      Calls-if _
        (Calls-then _ _ 0
          (λ answer. Calls-result answer (λ e. Calls-return 0 _) (λ ifaces. Calls-return 0 _)))
        (Calls-return 1 _))

  pub generate_mac-Calls : Calls 1 (generate_mac w)
  unfolding generate_mac
  generate_mac-Calls = Calls-if _ (Calls-then _ _ 0 (λ bytes. Calls-return 0 _)) (Calls-return 1 _)

  pub get_vlan_tag-Calls : (m : Machine) → Calls 1 (get_vlan_tag w m)
  unfolding get_vlan_tag
  get_vlan_tag-Calls m =
      Calls-if _ (Calls-then _ _ 0 (λ found. Calls-return 0 _))
        (Calls-then _ _ 0 (λ found. Calls-return 0 _))

  find_iso-Calls : (storage path : Text) → Calls 1 (find_iso w storage path)
  find_iso-Calls storage path = Calls-then _ _ 0 (λ content.
      Calls-result content (λ e. Calls-return 0 _)
        (λ isos. Calls-if _ (Calls-return 0 _) (Calls-return 0 _)))

  find_image-Calls : (node storage path : Text) → Calls 3 (find_image w node storage path)
  find_image-Calls node storage path = Calls-then _ _ 2 (λ failure.
      Calls-option failure
        (Calls-then _ _ 1
          (λ failure'. Calls-option failure' (find_iso-Calls storage path) (λ e. Calls-return 1 _)))
        (λ e. Calls-return 2 _))

  validate_iso-Calls : (node path : Text) → Calls 3 (validate_iso w node path)
  unfolding validate_iso
  validate_iso-Calls node path = Calls-if _ (Calls-return 3 _) (
      Calls-option (split_once path b':').1 (Calls-return 3 _)
        (λ rest. find_image-Calls node _ path))

  pub check_image-Calls : (m : Machine) (node : Text) → Calls 3 (check_image w m node)
  check_image-Calls m node = Calls-if _ (validate_iso-Calls node _) (Calls-return 3 _)

  find_vmid-Calls :
      (rounds attempt : ℕ) (base : ℤ) (node : Text)
      → Calls rounds (find_vmid w rounds attempt base node)
  unfolding find_vmid
  find_vmid-Calls zero attempt base node = Calls-return 0 _
  find_vmid-Calls (suc rounds) attempt base node =
      Calls-more (1 + rounds) (suc rounds) (omega arith) (
        Calls-then _ _ rounds (λ found.
          Calls-result found (λ e. Calls-return rounds _)
            (λ vm.
              Calls-option vm (Calls-return rounds _)
                (λ _. find_vmid-Calls rounds (attempt + 1) base node))))

  pub find_available_vmid-Calls :
      (m : Machine) (node : Text) → Calls 100 (find_available_vmid w m node)
  unfolding find_available_vmid
  find_available_vmid-Calls m node = find_vmid-Calls 100 0 _ node

  netconf_created-Calls : (o : Option Error) → Calls 0 (NetworkConfiguration.created w o)
  netconf_created-Calls none = Calls-return 0 _
  netconf_created-Calls (some e) = Calls-return 0 _

  create_netconf-Calls :
      (m : Machine) (mac : Text) (vlan : ℤ) → Calls 2 (NetworkConfiguration.create w m mac vlan)
  unfolding NetworkConfiguration.create
  create_netconf-Calls m mac vlan = Calls-then _ _ 1 (λ found.
      Calls-result found
        (λ e. Calls-if _ (Calls-then _ _ 0 netconf_created-Calls) (Calls-return 1 _))
        (λ addresses. Calls-return 1 _))

  pub get_ip-Calls : (m : Machine) → Calls 1 (NetworkConfiguration.get_ip w m)
  unfolding NetworkConfiguration.get_ip
  get_ip-Calls m = Calls-then _ _ 0 (λ found.
      Calls-result found (λ e. Calls-if _ (Calls-return 0 _) (Calls-return 0 _))
        (λ addresses. Calls-return 0 _))

  netconf_deleted-Calls : (o : Option Error) → Calls 0 (NetworkConfiguration.deleted w o)
  netconf_deleted-Calls none = Calls-return 0 _
  netconf_deleted-Calls (some e) = Calls-if _ (Calls-return 0 _) (Calls-return 0 _)

  pub delete_netconf-Calls : (m : Machine) → Calls 2 (NetworkConfiguration.delete w m)
  unfolding NetworkConfiguration.delete
  delete_netconf-Calls m = Calls-then _ _ 1 (λ found.
      Calls-result found (λ e. Calls-if _ (Calls-return 1 _) (Calls-return 1 _))
        (λ addresses. Calls-then _ _ 0 netconf_deleted-Calls))

  publish_mac-Calls : (m : Machine) (mac : Text) (vlan : ℤ) → Calls 2 (publish_mac w m mac vlan)
  unfolding publish_mac
  publish_mac-Calls m mac vlan = Calls-if _ (create_netconf-Calls m mac vlan) (Calls-return 2 _)

  pub mark_failed-Calls :
      (message : Option Text) (reason condition : Text) (e : Error) (m : Machine)
      → Calls 1 (mark_failed w message reason condition e m)
  unfolding mark_failed
  mark_failed-Calls message reason condition e m = save-Calls _ _ _ _ (λ saved. Calls-return 0 _)

  pub mark_missing-Calls : (e : Error) (m : Machine) → Calls 1 (mark_missing w e m)
  unfolding mark_missing
  mark_missing-Calls e m = save-Calls _ _ _ _ (λ saved. fail_after-Calls saved.0 _)

  pub record_created-Calls :
      (m : Machine) (vm : Option Vm) (node : Text) (vm_id : ℤ) (mac : Text) (vlan : ℤ)
      → Calls 4 (record_created w m vm node vm_id mac vlan)
  unfolding record_created
  record_created-Calls m vm node vm_id mac vlan =
      Calls-bind 2 2 (publish_mac-Calls m mac vlan) (λ _. Calls-bind 0 2 time-Calls (λ now.
        Calls-bind 1 1 (update_vm_status-Calls vm node _)
          (λ m1. save-Calls _ _ _ m1 (λ saved. report-Calls _ saved.0))))
