-- ===== src/Controller/VmCalls.antt =====
-- The calls of a run that concern VMs and their tasks, and the handlers that make none.
pub mod Creation
pub mod Triple
use proxmox_operator.Base.{
  List, [], ◌∷◌, ◌≡◌, refl, ◌∙◌, Option, none, some, Bool, true, false, if◌then◌else◌, arith,
}
use proxmox_operator.Base.Int.{ℤ}
use proxmox_operator.Base.Text.{Text}
use proxmox_operator.Base.Errors.{Result, Error, ok, err}
use proxmox_operator.Crd.{Machine}
use proxmox_operator.NetworkConfiguration
use proxmox_operator.World.{
  World, Vm, Call, Log, get_vm, create_vm, stop_vm, delete_vm, wait, M, ◌>>=◌, call, return, time,
}
use proxmox_operator.Controller.Status.{
  update_status_with_retry, set_condition, update_network_status, update_vm_status,
}
use proxmox_operator.Controller.Create.{
  generate_mac, get_vlan_tag, validate_iso, mark_failed, mark_missing, publish_mac, record_created,
  report, Requeue,
}

abbrev pub vm_calls : Log → Log
vm_calls [] = []
vm_calls (get_vm node vm_id a ∷ log) = get_vm node vm_id a ∷ vm_calls log
vm_calls (create_vm node vm_id o a ∷ log) = create_vm node vm_id o a ∷ vm_calls log
vm_calls (stop_vm node vm_id a ∷ log) = stop_vm node vm_id a ∷ vm_calls log
vm_calls (delete_vm node vm_id a ∷ log) = delete_vm node vm_id a ∷ vm_calls log
vm_calls (wait task a ∷ log) = wait task a ∷ vm_calls log
vm_calls (_ ∷ log) = vm_calls log

-- The program makes no such call.
pub record Quiet {A : Type 0} (m : M A) : Type 0 where
  pub quiet : (log : Log) → vm_calls (m log).1 ≡ vm_calls log

pub Quiet-return : {A : Type 0} → (a : A) → Quiet (return a)
unfolding return
Quiet-return a = record { quiet = λ log. refl }

pub Quiet-bind :
    {A B : Type 0} {m : M A} {f : A → M B} → Quiet m → ((a : A) → Quiet (f a)) → Quiet (m >>= f)
unfolding ◌>>=◌
Quiet-bind {m = m} q r = record { quiet = λ log. (r (m log).0).quiet (m log).1 ∙ q.quiet log }

pub Quiet-if : {A : Type 0} {m n : M A} (b : Bool) → Quiet m → Quiet n → Quiet (if b then m else n)
Quiet-if true q r = q
Quiet-if false q r = r

Quiet-time : (w : World) → Quiet (time w)
unfolding time
Quiet-time w = record { quiet = λ log. refl }

module _ (w : World) where
  pub update_status_with_retry-Quiet : (m : Machine) → Quiet (update_status_with_retry w m)
  unfolding update_status_with_retry ◌>>=◌ call return
  update_status_with_retry-Quiet m = record { quiet = λ log. ground arith }

  pub set_condition-Quiet :
      (status reason message : Text) (m : Machine) → Quiet (set_condition w status reason message m)
  unfolding set_condition
  set_condition-Quiet status reason message m = Quiet-bind (Quiet-time w) (λ now. Quiet-return _)

  update_network_status-Quiet : (m : Machine) → Quiet (update_network_status w m)
  unfolding update_network_status ◌>>=◌ call return
  update_network_status-Quiet m = record { quiet = λ log. ground arith }

  pub update_vm_status-Quiet :
      (vm : Option Vm) (node : Text) (m : Machine) → Quiet (update_vm_status w vm node m)
  unfolding update_vm_status
  update_vm_status-Quiet none node m = Quiet-return m
  update_vm_status-Quiet (some vm) node m =
      Quiet-bind (Quiet-time w) (λ now. Quiet-if _ (update_network_status-Quiet _) (Quiet-return _))

  create_netconf-Quiet :
      (m : Machine) (mac : Text) (vlan : ℤ) → Quiet (NetworkConfiguration.create w m mac vlan)
  unfolding NetworkConfiguration.create ◌>>=◌ call return
  create_netconf-Quiet m mac vlan = record { quiet = λ log. ground arith }

  pub delete_netconf-Quiet : (m : Machine) → Quiet (NetworkConfiguration.delete w m)
  unfolding NetworkConfiguration.delete ◌>>=◌ call return
  delete_netconf-Quiet m = record { quiet = λ log. ground arith }

  pub get_ip-Quiet : (m : Machine) → Quiet (NetworkConfiguration.get_ip w m)
  unfolding NetworkConfiguration.get_ip ◌>>=◌ call return
  get_ip-Quiet m = record { quiet = λ log. ground arith }

  pub generate_mac-Quiet : Quiet (generate_mac w)
  unfolding generate_mac ◌>>=◌ call return
  generate_mac-Quiet = record { quiet = λ log. ground arith }

  pub get_vlan_tag-Quiet : (m : Machine) → Quiet (get_vlan_tag w m)
  unfolding get_vlan_tag ◌>>=◌ call return
  get_vlan_tag-Quiet m = record { quiet = λ log. ground arith }

  pub validate_iso-Quiet : (node path : Text) → Quiet (validate_iso w node path)
  unfolding validate_iso ◌>>=◌ call return
  validate_iso-Quiet node path = record { quiet = λ log. ground arith }

  pub report-Quiet : (r : Requeue) (o : Option Error) → Quiet (report r o)
  report-Quiet r none = Quiet-return _
  report-Quiet r (some e) = Quiet-return _

  pub mark_failed-Quiet :
      (message : Option Text) (reason condition : Text) (e : Error) (m : Machine)
      → Quiet (mark_failed w message reason condition e m)
  unfolding mark_failed
  mark_failed-Quiet message reason condition e m =
      Quiet-bind (set_condition-Quiet _ _ _ _)
        (λ m'. Quiet-bind (update_status_with_retry-Quiet m') (λ _. Quiet-return _))

  pub mark_missing-Quiet : (e : Error) (m : Machine) → Quiet (mark_missing w e m)
  unfolding mark_missing ◌>>=◌ call return set_condition update_status_with_retry time
  mark_missing-Quiet e m = record { quiet = λ log. ground arith }

  pub publish_mac-Quiet : (m : Machine) (mac : Text) (vlan : ℤ) → Quiet (publish_mac w m mac vlan)
  unfolding publish_mac
  publish_mac-Quiet m mac vlan = Quiet-if _ (create_netconf-Quiet m mac vlan) (Quiet-return none)

  pub record_created-Quiet :
      (m : Machine) (vm : Option Vm) (node : Text) (vm_id : ℤ) (mac : Text) (vlan : ℤ)
      → Quiet (record_created w m vm node vm_id mac vlan)
  unfolding record_created
  record_created-Quiet m vm node vm_id mac vlan = Quiet-bind (publish_mac-Quiet m mac vlan) (λ _.
      Quiet-bind (Quiet-time w) (λ now. Quiet-bind (update_vm_status-Quiet vm node _) (λ m1.
        Quiet-bind (set_condition-Quiet _ _ _ m1)
          (λ m2. Quiet-bind (update_status_with_retry-Quiet m2) (λ saved. report-Quiet _ _)))))
