-- ===== src/Tests/Vms.antt =====
-- The theorems on the parts of a VM at concrete data: its disks and its network configuration.
use proxmox_operator.VmBuilder.{network_value}
use proxmox_operator.Base.Split.{split}
use proxmox_operator.VmBuilder.Network.{model_of, fields, network_value-fields}
use proxmox_operator.VmBuilder.Names.{build_options-Distinct}
use proxmox_operator.Controller.Create.{validate_iso}
use proxmox_operator.Controller.Create.Image.{IsStored, validate_iso_iff}
use proxmox_operator.Base.{◌↔◌, ◌⊎◌, false, ◌≡◌, refl, [], ◌∷◌, ◌++◌, none, arith}
use proxmox_operator.Base.Int.{pos}
use proxmox_operator.Base.Text.{text, has_prefix}
use proxmox_operator.Base.Decimal.{itoa}
use proxmox_operator.Config.{default_config, disk_slot_scsi0}
use proxmox_operator.VmBuilder.{NetworkConfig, build_options, disk_option, build_storage_options}
use proxmox_operator.VmBuilder.Disks.{
  controller, data_disks, names, Distinct, build_storage_options_disks,
}
use proxmox_operator.DiskStatus.{map_proxmox_disk_to_device}
use proxmox_operator.DiskStatus.Device.{map_proxmox_disk_to_device_letter}
use proxmox_operator.NetworkConfiguration
use proxmox_operator.World.{◌>>=◌, call, return}
use proxmox_operator.Tests.Data.{small, root_disk, data_disk, web_spec, web, empty_cluster}

build_storage_options_disks_example :
    build_storage_options default_config web_spec
    ≡ controller default_config
      ++ record (disk_option default_config.proxmox_default_storage 0 root_disk) {
        name = disk_slot_scsi0;
      }
        ∷ data_disks default_config.proxmox_default_storage 1 (data_disk ∷ [])
build_storage_options_disks_example =
    build_storage_options_disks default_config web_spec root_disk (data_disk ∷ []) refl

abbrev net : NetworkConfig
net = record { mac_address = text "02:24:ab:04:05:06"; vlan = pos 7; mtu = pos 0 }

build_options-Distinct_example : Distinct (names (build_options default_config web_spec small net))
build_options-Distinct_example = build_options-Distinct default_config web_spec small net

map_proxmox_disk_to_device_letter_example :
    (map_proxmox_disk_to_device (text "scsi" ++ itoa (pos 26)) ≡ text "/dev/sd" ++ 123 ∷ [])
    × (map_proxmox_disk_to_device (text "virtio" ++ itoa (pos 26)) ≡ text "/dev/vd" ++ 123 ∷ [])
map_proxmox_disk_to_device_letter_example = map_proxmox_disk_to_device_letter 26 (omega arith)

create_works : (NetworkConfiguration.create empty_cluster web (text "02:24") (pos 7) []).0 ≡ none
unfolding NetworkConfiguration.create ◌>>=◌ call return
create_works = refl

delete_works : (NetworkConfiguration.delete empty_cluster web []).0 ≡ none
unfolding NetworkConfiguration.delete ◌>>=◌ call return
delete_works = refl

network_value-fields_example :
    split (network_value default_config net) b','
    ≡ model_of default_config ∷ fields default_config net
unfolding text
network_value-fields_example =
    network_value-fields default_config net (ground arith) (ground arith) (ground arith)

validate_iso_iff_example :
    ((validate_iso empty_cluster (text "pve1") (text "local:iso/talos.iso") []).0 ≡ none) ↔ (
      (has_prefix (text "local:iso/talos.iso") (text "local:") ≡ false)
      ⊎ IsStored empty_cluster (text "pve1") (text "local:iso/talos.iso") [])
validate_iso_iff_example =
    validate_iso_iff empty_cluster (text "pve1") (text "local:iso/talos.iso") []
