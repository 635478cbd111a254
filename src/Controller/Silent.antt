-- ===== src/Controller/Silent.antt =====
-- The parts of the controller that write no status of a machine.
use proxmox_operator.Controller.Reads
use proxmox_operator.Controller.Reads.{reading, publishing, clearing, Reads}
use proxmox_operator.Base.{arith, ◌≡◌, ◌++◌, List, refl, Option, some, true, false}
use proxmox_operator.Base.Int.{ℤ}
use proxmox_operator.Base.Text.{text, Text}
use proxmox_operator.Base.Errors.{Error}
use proxmox_operator.Crd.{Machine}
use proxmox_operator.NetworkConfiguration
use proxmox_operator.World
use proxmox_operator.VmBuilder.{VmOption}
use proxmox_operator.World.{World, Vm, Task, M, ◌>>=◌, return, call, time}
use proxmox_operator.World.Makes.{
  Kind, status_write, Kinds, Makes-more, Makes, Makes-bind, Makes-result, Makes-time, makes_rules,
}
use proxmox_operator.Controller.Status.{set_condition, update_vm_status}
use proxmox_operator.Controller.Create.{
  generate_mac, get_vlan_tag, find_available_vmid, publish_mac, check_image,
}
use proxmox_operator.Controller.Terminate.{await_stopped}
use proxmox_operator.Controller.Reconcile.{release}
use proxmox_operator.Controller.Run.{refresh_ip}

-- All kinds but one.
abbrev pub no_status : Kinds
no_status status_write = false
no_status _ = true

abbrev pub Silent : {A : Type 0} → M A → Type 0
Silent m = Makes no_status m

pub Reads-Silent : {A : Type 0} {m : M A} → Reads m → Silent m
Reads-Silent p = Makes-more none_sent p
  where
    none_sent : (k : Kind) → reading k ≡ true → no_status k ≡ true
    none_sent status_write h = absurd (ground (arith, h))
    none_sent _ h = refl

module _ (w : World) where
  pub time-Silent : Silent (time w)
  time-Silent = Makes-time w

  pub get_vm-Silent :
      (node : Text) (vm_id : ℤ) → Silent (call (w.vm_answer node vm_id) (World.get_vm node vm_id))
  get_vm-Silent node vm_id = Reads-Silent (Reads.get_vm-Reads w node vm_id)

  pub create_vm-Silent :
      (node : Text) (vm_id : ℤ) (options : List VmOption)
      → Silent (call (w.created_answer node vm_id options) (World.create_vm node vm_id options))
  create_vm-Silent node vm_id options = search (makes_rules)

  pub stop_vm-Silent :
      (node : Text) (vm_id : ℤ)
      → Silent (call (w.stopped_answer node vm_id) (World.stop_vm node vm_id))
  stop_vm-Silent node vm_id = search (makes_rules)

  pub delete_vm-Silent :
      (node : Text) (vm_id : ℤ)
      → Silent (call (w.deleted_answer node vm_id) (World.delete_vm node vm_id))
  delete_vm-Silent node vm_id = search (makes_rules)

  pub wait-Silent : (task : Task) → Silent (call (w.waited_answer task) (World.wait task))
  wait-Silent task = search (makes_rules)

  pub get_node_names-Silent : Silent (call w.node_names_answer World.get_node_names)
  get_node_names-Silent = Reads-Silent (Reads.get_node_names-Reads w)

  pub set_condition-Silent :
      (status reason message : Text) (m : Machine)
      → Silent (set_condition w status reason message m)
  set_condition-Silent status reason message m =
      Reads-Silent (Reads.set_condition-Reads w status reason message m)

  pub update_vm_status-Silent :
      (vm : Option Vm) (node : Text) (m : Machine) → Silent (update_vm_status w vm node m)
  update_vm_status-Silent vm node m = Reads-Silent (Reads.update_vm_status-Reads w vm node m)

  pub generate_mac-Silent : Silent (generate_mac w)
  generate_mac-Silent = Reads-Silent (Reads.generate_mac-Reads w)

  pub get_vlan_tag-Silent : (m : Machine) → Silent (get_vlan_tag w m)
  get_vlan_tag-Silent m = Reads-Silent (Reads.get_vlan_tag-Reads w m)

  pub check_image-Silent : (m : Machine) (node : Text) → Silent (check_image w m node)
  check_image-Silent m node = Reads-Silent (Reads.check_image-Reads w m node)

  pub find_available_vmid-Silent :
      (m : Machine) (node : Text) → Silent (find_available_vmid w m node)
  find_available_vmid-Silent m node = Reads-Silent (Reads.find_available_vmid-Reads w m node)

  pub publish_mac-Silent : (m : Machine) (mac : Text) (vlan : ℤ) → Silent (publish_mac w m mac vlan)
  publish_mac-Silent m mac vlan = Makes-more more (Reads.publish_mac-Makes w m mac vlan)
    where
      more : (k : Kind) → publishing k ≡ true → no_status k ≡ true
      more status_write h = absurd (ground (arith, h))
      more _ h = refl

  pub refresh_ip-Silent : (m : Machine) → Silent (refresh_ip w m)
  refresh_ip-Silent m = Reads-Silent (Reads.refresh_ip-Reads w m)

  pub delete-Silent : (m : Machine) → Silent (NetworkConfiguration.delete w m)
  delete-Silent m = Makes-more more (Reads.delete-Makes w m)
    where
      more : (k : Kind) → clearing k ≡ true → no_status k ≡ true
      more status_write h = absurd (ground (arith, h))
      more _ h = refl

  -- The end of `stopVM` where the request fails.
  pub failed_stop-Silent :
      (e : Error) (m : Machine)
      → Silent {A = Option Error × Machine} (
          set_condition w
            (text "False")
            (text "DeletionFailed")
            (text "Failed to stop VM: " ++ e.message)
            m
          >>= λ m'. return (some e, m'))
  failed_stop-Silent e m = search (makes_rules, set_condition-Silent)

  pub await_stopped-Silent : (m : Machine) (task : Task) → Silent (await_stopped w m task)
  await_stopped-Silent m task = Makes-bind (search (makes_rules)) (λ done.
      Makes-result done (λ e. search (makes_rules, set_condition-Silent))
        (λ task'. search (makes_rules)))

  pub release-Silent : Silent (release w)
  unfolding release
  release-Silent = Makes-bind (search (makes_rules)) (λ found.
      Makes-result found (λ e. search (makes_rules))
        (λ m.
          Makes-bind (search (makes_rules)) (λ answer.
            Makes-result answer (λ e. search (makes_rules)) (λ m'. search (makes_rules)))))
