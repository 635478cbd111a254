-- ===== src/Tests/Network.antt =====
-- Addresses of each form.
use mathlib.Core.List.{map, List, Perm}
use proxmox_operator.World.{AgentInterface}
use proxmox_operator.Network.{is_private_ip}
use proxmox_operator.Controller.Status.{put_interfaces}
use proxmox_operator.Controller.Status.Addresses.{
  keep, is_external, answered, recorded, IsExternal, addresses_of, put_interfaces-Perm,
}
use proxmox_operator.Tests.Data.{web}
use proxmox_operator.Base.{◌++◌, All, ◌≡◌, refl, [], ◌∷◌, none, some, true, false}
use proxmox_operator.Base.Text.{text}
use proxmox_operator.Base.Split.{split}
use proxmox_operator.Base.Decimal.{parse_nat}
use proxmox_operator.Network.Parse.{dotted_field, parse_ip, mapped}

parse_ip_v4_test : parse_ip (text "172.16.254.1") ≡ some (mapped (172 ∷ 16 ∷ 254 ∷ 1 ∷ []))
unfolding parse_ip dotted_field text split parse_nat
parse_ip_v4_test = refl

parse_ip_zero_test : parse_ip (text "10.0.0.01") ≡ none
unfolding parse_ip dotted_field text split parse_nat
parse_ip_zero_test = refl

parse_ip_v6_test :
    parse_ip (text "fe80::1:2")
    ≡ some (0xfe ∷ 0x80 ∷ 0 ∷ 0 ∷ 0 ∷ 0 ∷ 0 ∷ 0 ∷ 0 ∷ 0 ∷ 0 ∷ 0 ∷ 0 ∷ 1 ∷ 0 ∷ 2 ∷ [])
unfolding parse_ip text
parse_ip_v6_test = refl

parse_ip_mixed_test : parse_ip (text "::ffff:10.1.2.3") ≡ some (mapped (10 ∷ 1 ∷ 2 ∷ 3 ∷ []))
unfolding parse_ip dotted_field text split parse_nat
parse_ip_mixed_test = refl

parse_ip_bad_test :
    (parse_ip (text "1::2::3") ≡ none)
    × (parse_ip (text "fe80::1%eth0") ≡ none)
    × (parse_ip (text "1:2:3:4:5:6:7:8:9") ≡ none)
    × (parse_ip (text "host") ≡ none)
unfolding parse_ip dotted_field text split parse_nat
parse_ip_bad_test = (refl, refl, refl, refl)

-- What the guest agent says of a machine with a private and a public address.
abbrev agent_answer : List AgentInterface
agent_answer =
    record { interface_name = text "lo"; hardware_address = []; addresses = [] }
    ∷ record {
      interface_name = text "eth0";
      hardware_address = text "02:24:ab:04:05:06";
      addresses =
          record { address_type = text "ipv4"; address = text "10.0.0.5" }
          ∷ record { address_type = text "ipv4"; address = text "8.8.8.8" }
          ∷ [];
    }
    ∷ []

put_interfaces-Perm_example :
    let t = put_interfaces agent_answer web.status in
    (map recorded t.network_interfaces ≡ map answered (keep is_external agent_answer))
    × All IsExternal t.network_interfaces
    × (addresses_of t.network_interfaces ≡ t.ip_addresses)
    × Perm t.ip_addresses (t.private_ip_addresses ++ t.public_ip_addresses)
    × All (λ ip. is_private_ip ip ≡ true) t.private_ip_addresses
    × All (λ ip. is_private_ip ip ≡ false) t.public_ip_addresses
put_interfaces-Perm_example = put_interfaces-Perm agent_answer web.status
