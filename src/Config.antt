-- ===== src/Config.antt =====
-- internal/settings/settings.go and internal/consts/consts.go: the settings as viper hands them to
-- the operator.
pub mod Printing
use proxmox_operator.Base.{Bool, true, false}
use proxmox_operator.Base.Int.{ℤ, pos}
use proxmox_operator.Base.Text.{Text, text}

pub record Config : Type 0 where
  pub ip_source : Text
  pub name_machine_provider : Text
  pub max_concurrent_reconciles : ℤ
  pub proxmox_endpoint : Text
  pub proxmox_username : Text
  pub proxmox_password : Text
  pub proxmox_token_id : Text
  pub proxmox_token_secret : Text
  pub proxmox_insecure_tls : Bool
  pub proxmox_vm_id_start : ℤ
  pub proxmox_allowed_nodes : Text
  pub proxmox_node_selection : Text
  pub proxmox_default_storage : Text
  pub proxmox_default_network : Text
  pub proxmox_network_model : Text
  pub proxmox_default_cpu_type : Text
  pub proxmox_enable_numa : Bool
  pub proxmox_scsi_controller : Text
  pub proxmox_enable_qemu_agent : Bool
  pub proxmox_start_on_create : Bool
  pub proxmox_default_vlan : ℤ
  pub proxmox_default_mtu : ℤ
  pub mac_set : Text

-- The defaults that `Init` registers; a setting with no default is the empty text.
abbrev pub default_config : Config
default_config = record {
  ip_source = text "proxmox";
  name_machine_provider = text "proxmox-provider";
  max_concurrent_reconciles = pos 5;
  proxmox_endpoint = text "";
  proxmox_username = text "";
  proxmox_password = text "";
  proxmox_token_id = text "";
  proxmox_token_secret = text "";
  proxmox_insecure_tls = false;
  proxmox_vm_id_start = pos 2000;
  proxmox_allowed_nodes = text "";
  proxmox_node_selection = text "first";
  proxmox_default_storage = text "local-lvm";
  proxmox_default_network = text "vmbr0";
  proxmox_network_model = text "virtio";
  proxmox_default_cpu_type = text "x86-64-v2-AES";
  proxmox_enable_numa = true;
  proxmox_scsi_controller = text "virtio-scsi-single";
  proxmox_enable_qemu_agent = true;
  proxmox_start_on_create = true;
  proxmox_default_vlan = pos 0;
  proxmox_default_mtu = pos 0;
  mac_set = text "24";
}

-- internal/consts/consts.go
abbrev pub default_disk_size_gb : ℤ
default_disk_size_gb = pos 50

abbrev pub disk_slot_scsi0 : Text
disk_slot_scsi0 = text "scsi0"

abbrev pub net_slot0 : Text
net_slot0 = text "net0"

abbrev pub default_network_model : Text
default_network_model = text "virtio"
