-- ===== src/World.antt =====
-- What the controller meets outside: the Kubernetes API, the Proxmox API behind `ProxmoxClient`, the
-- clock and the sources of randomness. None of it is code of this repository, so an answer of the
-- outside is whatever the record `World` says: it answers a call, given all calls before it. A run is the
-- list of its calls with their answers, newest first.
-- Since a theorem speaks of every `World`, it speaks of every way in which the calls may be answered.
pub mod Makes
pub mod Triple
pub mod Calls
use proxmox_operator.Base.{ℕ, List, ◌∷◌, Option, Bool}
use proxmox_operator.Base.Int.{ℤ}
use proxmox_operator.Base.Text.{Text}
use proxmox_operator.Base.Errors.{Result, Error}
use proxmox_operator.Config.{Config}
use proxmox_operator.Crd.{Machine, MachineClass, Vitistack, MachineProvider}
use proxmox_operator.MacAddress.{Bytes6}
use proxmox_operator.NodeSelection.{Random}
use proxmox_operator.VmBuilder.{VmOption}

-- The disks of `VirtualMachineConfig`: maps from names to texts, each in the order in which the
-- program's loop visits it.
pub record VmDisks : Type 0 where
  pub scsis : List (Text × Text)
  pub virtios : List (Text × Text)
  pub satas : List (Text × Text)
  pub ides : List (Text × Text)
  pub unuseds : List (Text × Text)

pub record Vm : Type 0 where
  pub vm_name : Text
  pub vm_status : Text
  pub vm_cpus : ℤ
  pub max_mem : ℕ
  pub agent : Bool
  pub vm_disks : Option VmDisks

pub record Task : Type 0 where
  pub task_id : Text
  pub exit_status : Text

pub record AgentAddress : Type 0 where
  pub address_type : Text
  pub address : Text

pub record AgentInterface : Type 0 where
  pub interface_name : Text
  pub hardware_address : Text
  pub addresses : List AgentAddress

pub record OwnerReference : Type 0 where
  pub owner_api_version : Text
  pub owner_kind : Text
  pub owner_name : Text
  pub owner_uid : Text
  pub controller : Bool
  pub block_owner_deletion : Bool

pub record NetConfInterface : Type 0 where
  pub interface_name : Text
  pub mac_address : Text
  pub vlan : Text

-- The custom resource NetworkConfiguration, as the operator writes it.
pub record NetConf : Type 0 where
  pub name : Text
  pub namespace : Text
  pub labels : List (Text × Text)
  pub owners : List OwnerReference
  pub network_namespace_name : Text
  pub spec_name : Text
  pub provider : Text
  pub interfaces : List NetConfInterface

pub data Call : Type 0 where
  get_machine : Result Machine → Call
  update : Machine → Result Machine → Call
  update_status : Machine → Result Machine → Call
  get_class : Text → Result MachineClass → Call
  get_network_namespace : Text → Text → Result ℤ → Call
  list_network_namespaces : Text → Result (List ℤ) → Call
  -- The answer to a read is the IPv4 addresses of each interface in the resource's status.
  get_netconf : Text → Text → Result (List (List Text)) → Call
  create_netconf : NetConf → Option Error → Call
  delete_netconf : Text → Text → Option Error → Call
  get_node_names : Result (List Text) → Call
  get_vm : Text → ℤ → Result (Option Vm) → Call
  create_vm : Text → ℤ → List VmOption → Result Task → Call
  stop_vm : Text → ℤ → Result Task → Call
  delete_vm : Text → ℤ → Result Task → Call
  wait : Task → Result Task → Call
  get_interfaces : Result (List AgentInterface) → Call
  get_node : Text → Option Error → Call
  get_storage : Text → Option Error → Call
  get_content : Result (List Text) → Call
  read_random : Result Bytes6 → Call
  list_vitistacks : Result (List Vitistack) → Call
  -- The answer `none` means that it is there.
  get_provider : Text → Option Error → Call
  create_provider : MachineProvider → Option Error → Call

abbrev pub Log : Type 0
Log = List Call

-- Each answer depends on what is asked for and on all that was called before.
pub record World : Type 0 where
  pub config : Config
  pub random : Random
  -- The reconciler has a `MacAddressGenerator`.
  pub has_mac_generator : Bool
  -- `metav1.Now()` after the given calls.
  pub now : Log → ℕ
  -- `int64(size * float64(multiplier))`, where `fmt.Sscanf(s, "%f", &size)` reads the size; none if it
  -- fails.
  pub scan_scaled : Text → ℕ → Option ℤ
  pub machine_answer : Log → Result Machine
  pub update_answer : Machine → Log → Result Machine
  pub update_status_answer : Machine → Log → Result Machine
  pub class_answer : Text → Log → Result MachineClass
  pub vlan_answer : Text → Text → Log → Result ℤ
  pub vlans_answer : Text → Log → Result (List ℤ)
  pub netconf_answer : Text → Text → Log → Result (List (List Text))
  pub netconf_created_answer : NetConf → Log → Option Error
  pub netconf_deleted_answer : Text → Text → Log → Option Error
  pub node_names_answer : Log → Result (List Text)
  pub vm_answer : Text → ℤ → Log → Result (Option Vm)
  pub created_answer : Text → ℤ → List VmOption → Log → Result Task
  pub stopped_answer : Text → ℤ → Log → Result Task
  pub deleted_answer : Text → ℤ → Log → Result Task
  pub waited_answer : Task → Log → Result Task
  pub interfaces_answer : Log → Result (List AgentInterface)
  pub node_answer : Text → Log → Option Error
  pub storage_answer : Text → Log → Option Error
  pub content_answer : Log → Result (List Text)
  pub random_answer : Log → Result Bytes6
  pub vitistacks_answer : Log → Result (List Vitistack)
  pub provider_answer : Text → Log → Option Error
  pub provider_created_answer : MachineProvider → Log → Option Error

-- A program that makes calls.
abbrev pub M : Type 0 → Type 0
M A = Log → A × Log

infixl 5 ◌>>=◌ ◌>>◌
unfoldable pub ◌>>=◌ : {A B : Type 0} → M A → (A → M B) → M B
◌>>=◌ m f log = let (a, log') = m log in f a log'

abbrev pub ◌>>◌ : {A B : Type 0} → M A → M B → M B
m >> k = m >>= λ _. k

unfoldable pub return : {A : Type 0} → A → M A
return a log = (a, log)

-- A call with an answer of the world, which goes into the log.
unfoldable pub call : {A : Type 0} → (Log → A) → (A → Call) → M A
call answer entry log = (answer log, entry (answer log) ∷ log)

-- The time.
unfoldable pub time : World → M ℕ
time w log = (w.now log, log)
