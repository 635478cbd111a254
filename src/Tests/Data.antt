-- ===== src/Tests/Data.antt =====
-- A small cluster: one node, an administrator's settings, and a machine to be created on it.
use proxmox_operator.Base.{length, [], ◌∷◌, none, some, true, false}
use proxmox_operator.Base.Int.{pos}
use proxmox_operator.Base.Text.{text}
use proxmox_operator.Base.Errors.{Error, ok, err, not_found}
use proxmox_operator.Config.{Config, default_config}
use proxmox_operator.Crd.{
  unset, running, of_phase, Disk, Machine, MachineClass, MachineSpec, MachineStatus, proxmox,
}
use proxmox_operator.MacAddress.{Bytes6}
use proxmox_operator.NodeSelection.{Random}
use proxmox_operator.World.{Task, World}

-- A generator that always draws 0.
abbrev pub zero_random : Random
zero_random = record { intn = λ n. 0; intn_lt = λ n h. h }

abbrev pub two_nodes : Config
two_nodes = record default_config { proxmox_allowed_nodes = text "pve1, pve2" }

abbrev pub some_bytes : Bytes6
some_bytes = record { b0 = 1; b1 = 2; b2 = 0xab; b3 = 4; b4 = 5; b5 = 6 }

abbrev pub root_disk : Disk
root_disk = record { name = text "root"; size_gb = pos 20; boot = true }

abbrev pub data_disk : Disk
data_disk = record { name = text "data"; size_gb = pos 100; boot = false }

abbrev pub web_spec : MachineSpec
web_spec = record {
  provider = proxmox;
  machine_class = text "small";
  name = text "web";
  cpu_cores = pos 2;
  memory = pos 0;
  disks = root_disk ∷ data_disk ∷ [];
  interfaces = [];
  network_namespace_name = [];
  image_id = [];
}

abbrev new_status : MachineStatus
new_status = record {
  phase = unset;
  state = of_phase unset;
  message = [];
  provider_id = [];
  machine_id = [];
  provider = none;
  region = [];
  zone = [];
  hostname = [];
  cpus = pos 0;
  memory = pos 0;
  creation_time = none;
  last_updated = 0;
  failure_reason = none;
  failure_message = none;
  conditions = [];
  disks = [];
  network_interfaces = [];
  ip_addresses = [];
  ipv6_addresses = [];
  private_ip_addresses = [];
  public_ip_addresses = [];
}

abbrev pub web : Machine
web = record {
  name = text "web";
  namespace = text "default";
  uid = text "a1";
  api_version = text "vitistack.io/v1alpha1";
  kind = text "Machine";
  deleting = false;
  finalizers = text "vitistack.io/proxmox-machine" ∷ [];
  spec = web_spec;
  status = new_status;
}

abbrev pub small : MachineClass
small = record { enabled = true; cpu_cores = pos 1; memory = pos 1024 }

-- The machine with a VM.
abbrev pub running_web : Machine
running_web = record web {
  status = record new_status {
    phase = running;
    provider_id = text "proxmox://pve1/2146";
    machine_id = text "2146";
  };
}

abbrev pub missing_error : Error
missing_error = record { reason = not_found; message = text "VM not found" }

abbrev pub done : Task
done = record { task_id = text "UPID:1"; exit_status = text "OK" }

-- Everything works, and no VM is there yet.
abbrev pub empty_cluster : World
empty_cluster = record {
  config = default_config;
  random = zero_random;
  has_mac_generator = true;
  now = λ log. length log;
  scan_scaled = λ s n. none;
  machine_answer = λ log. ok web;
  update_answer = λ m log. ok m;
  update_status_answer = λ m log. ok m;
  class_answer = λ name log. ok small;
  vlan_answer = λ namespace name log. ok (pos 0);
  vlans_answer = λ namespace log. ok [];
  netconf_answer = λ namespace name log. err missing_error;
  netconf_created_answer = λ n log. none;
  netconf_deleted_answer = λ namespace name log. none;
  node_names_answer = λ log. ok (text "pve1" ∷ []);
  vm_answer = λ node vm_id log. err missing_error;
  created_answer = λ node vm_id options log. ok done;
  stopped_answer = λ node vm_id log. ok done;
  deleted_answer = λ node vm_id log. ok done;
  waited_answer = λ task log. ok done;
  interfaces_answer = λ log. ok [];
  node_answer = λ node log. none;
  storage_answer = λ name log. none;
  content_answer = λ log. ok [];
  random_answer = λ log. ok some_bytes;
  vitistacks_answer = λ log. ok [];
  provider_answer = λ name log. some missing_error;
  provider_created_answer = λ p log. none;
}

-- The same with a stopped VM under each ID.
abbrev pub full_cluster : World
full_cluster = record empty_cluster {
  vm_answer = λ node vm_id log. ok (
      some (record {
        vm_name = text "web";
        vm_status = text "stopped";
        vm_cpus = pos 2;
        max_mem = 1073741824;
        agent = false;
        vm_disks = none;
      }));
}
