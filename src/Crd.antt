-- ===== src/Crd.antt =====
-- What the operator reads and writes of the custom resources of vitistack/common: of each Go struct the
-- fields that the operator uses. The phases are the constants of that package, which are distinct
-- strings, with "" and every other string beside them.
use proxmox_operator.Base.{ℕ, List, Option, Bool, true, false}
use proxmox_operator.Base.Int.{ℤ}
use proxmox_operator.Base.Text.{Text}

pub data Provider : Type 0 where
  proxmox : Provider
  other_provider : Text → Provider

-- `MachineProviderTypeProxmox`
abbrev pub is_proxmox : Provider → Bool
is_proxmox proxmox = true
is_proxmox _ = false

pub data Phase : Type 0 where
  unset pending creating running stopping stopped terminating terminated failed : Phase
  other_phase : Text → Phase

-- The field `State`: a phase constant or a text.
pub data State : Type 0 where
  of_phase : Phase → State
  of_text : Text → State

pub record Disk : Type 0 where
  pub name : Text
  pub size_gb : ℤ
  pub boot : Bool

pub record MachineSpec : Type 0 where
  pub provider : Provider
  pub machine_class : Text
  pub name : Text
  pub cpu_cores : ℤ
  pub memory : ℤ
  pub disks : List Disk
  pub interfaces : List Text
  pub network_namespace_name : Text
  pub image_id : Text

pub record Condition : Type 0 where
  pub type : Text
  pub status : Text
  pub last_transition_time : ℕ
  pub reason : Text
  pub message : Text

pub record StatusDisk : Type 0 where
  pub name : Text
  pub device : Text
  pub type : Text
  pub label : Text
  pub size : ℤ

pub record StatusInterface : Type 0 where
  pub name : Text
  pub mac_address : Text
  pub type : Text
  pub state : Text
  pub ip_addresses : List Text
  pub ipv6_addresses : List Text

pub record MachineStatus : Type 0 where
  pub phase : Phase
  pub state : State
  pub message : Text
  pub provider_id : Text
  pub machine_id : Text
  pub provider : Option Provider
  pub region : Text
  pub zone : Text
  pub hostname : Text
  pub cpus : ℤ
  pub memory : ℤ
  pub creation_time : Option ℕ
  pub last_updated : ℕ
  pub failure_reason : Option Text
  pub failure_message : Option Text
  pub conditions : List Condition
  pub disks : List StatusDisk
  pub network_interfaces : List StatusInterface
  pub ip_addresses : List Text
  pub ipv6_addresses : List Text
  pub private_ip_addresses : List Text
  pub public_ip_addresses : List Text

pub record Machine : Type 0 where
  pub name : Text
  pub namespace : Text
  pub uid : Text
  pub api_version : Text
  pub kind : Text
  pub deleting : Bool
  pub finalizers : List Text
  pub spec : MachineSpec
  pub status : MachineStatus

pub record MachineClass : Type 0 where
  pub enabled : Bool
  pub cpu_cores : ℤ
  pub memory : ℤ

pub record Vitistack : Type 0 where
  pub name : Text
  pub display_name : Text
  pub region : Text
  pub zone : Text
  pub infrastructure : Text
  pub country : Text

-- A MachineProvider, as the operator writes and reads it. The parameters of its authentication are a
-- function, which is "" at a missing key.
pub record MachineProvider : Type 0 where
  pub name : Text
  pub labels : List (Text × Text)
  pub provider_type : Provider
  pub display_name : Text
  pub region : Text
  pub zones : List Text
  pub endpoint_url : Text
  pub insecure_skip_verify : Bool
  pub authentication_type : Text
  pub parameters : Text → Text
  pub default_tags : List (Text × Text)
