-- ===== src/Tests/Lifetimes.antt =====
-- The theorems on the life of a machine, in a cluster that stores its status.
use proxmox_operator.Base.{◌≡◌, ◌≤◌, refl, true, [], ◌∷◌, arith}
use proxmox_operator.Base.Errors.{ok}
use proxmox_operator.Crd.{Machine}
use proxmox_operator.World
use proxmox_operator.World.{World, Log, update_status}
use proxmox_operator.Controller.Reconcile.{reconcile}
use proxmox_operator.Controller.Lifecycle.{is_new}
use proxmox_operator.Controller.VmCalls.{vm_calls}
use proxmox_operator.Controller.VmCalls.Creation.{creates}
use proxmox_operator.Controller.History.Store.{stored_phase, Serves}
use proxmox_operator.Controller.History.Lifetime.{
  born, lived, OnPath, Lifetime-OnPath, Lifetime-creates_once,
}
use proxmox_operator.Tests.Data.{web, empty_cluster}

-- The machine with the status that was sent last.
abbrev stored_web : Log → Machine
stored_web [] = web
stored_web (update_status m a ∷ log) = m
stored_web (_ ∷ log) = stored_web log

abbrev storing_cluster : World
storing_cluster = record empty_cluster { machine_answer = λ log. ok (stored_web log) }

stored_web-phase : (log : Log) → (stored_web log).status.phase ≡ stored_phase log
stored_web-phase [] = refl
stored_web-phase (World.get_machine a ∷ log) = stored_web-phase log
stored_web-phase (World.update m a ∷ log) = stored_web-phase log
stored_web-phase (World.update_status m a ∷ log) = refl
stored_web-phase (World.get_class n a ∷ log) = stored_web-phase log
stored_web-phase (World.get_network_namespace s n a ∷ log) = stored_web-phase log
stored_web-phase (World.list_network_namespaces s a ∷ log) = stored_web-phase log
stored_web-phase (World.get_netconf s n a ∷ log) = stored_web-phase log
stored_web-phase (World.create_netconf n a ∷ log) = stored_web-phase log
stored_web-phase (World.delete_netconf s n a ∷ log) = stored_web-phase log
stored_web-phase (World.get_node_names a ∷ log) = stored_web-phase log
stored_web-phase (World.get_vm n i a ∷ log) = stored_web-phase log
stored_web-phase (World.create_vm n i o a ∷ log) = stored_web-phase log
stored_web-phase (World.stop_vm n i a ∷ log) = stored_web-phase log
stored_web-phase (World.delete_vm n i a ∷ log) = stored_web-phase log
stored_web-phase (World.wait t a ∷ log) = stored_web-phase log
stored_web-phase (World.get_interfaces a ∷ log) = stored_web-phase log
stored_web-phase (World.get_node n a ∷ log) = stored_web-phase log
stored_web-phase (World.get_storage n a ∷ log) = stored_web-phase log
stored_web-phase (World.get_content a ∷ log) = stored_web-phase log
stored_web-phase (World.read_random a ∷ log) = stored_web-phase log
stored_web-phase (World.list_vitistacks a ∷ log) = stored_web-phase log
stored_web-phase (World.get_provider n a ∷ log) = stored_web-phase log
stored_web-phase (World.create_provider p a ∷ log) = stored_web-phase log

storing_cluster-Serves : Serves storing_cluster
storing_cluster-Serves = record {
  stores = record {
    stores_status = λ m m' log h. ground arith;
    keeps_status = λ m m' log h. ground arith;
  };
  serves = λ m log h. ground (arith, stored_web-phase log);
}

abbrev two_runs : Log
two_runs = (reconcile storing_cluster (reconcile storing_cluster []).1).1

Lifetime-creates_once_example :
    (creates (vm_calls two_runs) ≤ 1)
    × (is_new (stored_phase two_runs) ≡ true → creates (vm_calls two_runs) ≡ 0)
Lifetime-creates_once_example = Lifetime-creates_once 2 two_runs (
    lived storing_cluster storing_cluster-Serves
      (lived storing_cluster storing_cluster-Serves born))

Lifetime-OnPath_example : OnPath two_runs
Lifetime-OnPath_example = Lifetime-OnPath 2 two_runs (
    lived storing_cluster storing_cluster-Serves
      (lived storing_cluster storing_cluster-Serves born))
