-- ===== src/Tests/Helpers.antt =====
-- The helpers' theorems at concrete data: provider IDs, MAC addresses, nodes and IP addresses.
use proxmox_operator.Base.{◌≡◌, refl, [], ◌∷◌, map, some, true, false, arith}
use mathlib.Core.List.{Memᴰ}
use proxmox_operator.Base.Int.{pos, IsInt64}
use proxmox_operator.Base.Text.{Text, text, eq_text, trim_space, has_prefix, Lacks}
use proxmox_operator.Base.Split.{split}
use proxmox_operator.Base.Decimal.{atoi, parse_nat}
use proxmox_operator.Base.Errors.{ok}
use proxmox_operator.ProviderId
use proxmox_operator.ProviderId.RoundTrip.{with_host, parse-build, parse_sound}
use proxmox_operator.MacAddress.{set_octet, parse_uint8, generate_mac_address}
use proxmox_operator.MacAddress.Format.{generate_mac_address_octets}
use proxmox_operator.NodeSelection.{select_node, filter_allowed_nodes, keep_allowed, slice_contains}
use proxmox_operator.NodeSelection.Choice.{IsAllowed, select_node-IsAllowed, select_node_first}
use proxmox_operator.Network.{is_private_ip, to4, categorize_ips}
use proxmox_operator.Network.Parse.{parse_ip, mapped, dotted_field}
use proxmox_operator.Network.Private.{is_rfc1918, is_private_ip_v4}
use proxmox_operator.Network.Categories.{first_such, is_v4, is_v6, categorize_ips_first}
use proxmox_operator.Tests.Data.{zero_random, two_nodes, some_bytes}

pve1-Lacks : Lacks b'/' (text "pve1")
unfolding text
pve1-Lacks = ground arith

parse-build_example :
    ProviderId.parse (ProviderId.build (text "pve1") (pos 2146)) ≡ ok (text "pve1", pos 2146)
parse-build_example = parse-build (text "pve1") (pos 2146) pve1-Lacks (omega arith)

parse_sound_example :
    (host number : Text) × (ProviderId.build (text "pve1") (pos 2146)
      ≡ with_host host (text "pve1") number)
    × Lacks b'/' host
    × Lacks b'/' (text "pve1")
    × (atoi number ≡ some (pos 2146))
    × IsInt64 (pos 2146)
parse_sound_example =
    parse_sound (ProviderId.build (text "pve1") (pos 2146)) (text "pve1") (pos 2146)
      parse-build_example

generate_mac_address_octets_example :
    (mac : Text) × (generate_mac_address (text "24") (ok some_bytes) ≡ ok mac)
    × (map parse_uint8 (split mac b':')
        ≡ some 2 ∷ some (set_octet (text "24")) ∷ some 0xab ∷ some 4 ∷ some 5 ∷ some 6 ∷ [])
generate_mac_address_octets_example =
    generate_mac_address_octets (text "24") some_bytes (ground arith)

first_allowed : filter_allowed_nodes two_nodes (text "pve0" ∷ text "pve2" ∷ []) ≡ text "pve2" ∷ []
unfolding filter_allowed_nodes keep_allowed slice_contains text eq_text split trim_space
first_allowed = refl

selected_first :
    select_node zero_random two_nodes (text "pve0" ∷ text "pve2" ∷ []) ≡ ok (text "pve2")
selected_first =
    select_node_first zero_random two_nodes (text "pve0") (text "pve2" ∷ []) (text "pve2") []
      first_allowed (unfold text eq_text in refl) (unfold text eq_text in refl)

select_node-IsAllowed_example :
    Memᴰ (text "pve2") (text "pve0" ∷ text "pve2" ∷ []) × IsAllowed two_nodes (text "pve2")
select_node-IsAllowed_example =
    select_node-IsAllowed zero_random two_nodes (text "pve0" ∷ text "pve2" ∷ []) (text "pve2")
      selected_first

ten_parses : parse_ip (text "10.1.2.3") ≡ some (mapped (10 ∷ 1 ∷ 2 ∷ 3 ∷ []))
unfolding parse_ip dotted_field text split parse_nat
ten_parses = refl

is_private_ip_v4_example : is_private_ip (text "10.1.2.3") ≡ is_rfc1918 10 1
is_private_ip_v4_example =
    is_private_ip_v4 (text "10.1.2.3") (mapped (10 ∷ 1 ∷ 2 ∷ 3 ∷ [])) 10 1 2 3 ten_parses
      (unfold to4 has_prefix in refl) (ground arith)

dns_parses :
    parse_ip (text "2001:4860:4860::8888")
    ≡ some
        (0x20 ∷ 0x01 ∷ 0x48 ∷ 0x60 ∷ 0x48 ∷ 0x60 ∷ 0 ∷ 0 ∷ 0 ∷ 0 ∷ 0 ∷ 0 ∷ 0 ∷ 0 ∷ 0x88 ∷ 0x88 ∷ [])
unfolding parse_ip text
dns_parses = refl

categorize_ips_first_example :
    categorize_ips (text "fe80::1" ∷ text "10.1.2.3" ∷ text "10.1.2.4" ∷ []) ≡ record {
      public_ipv4 =
          first_such (is_v4 false) (text "fe80::1" ∷ text "10.1.2.3" ∷ text "10.1.2.4" ∷ []);
      private_ipv4 =
          first_such (is_v4 true) (text "fe80::1" ∷ text "10.1.2.3" ∷ text "10.1.2.4" ∷ []);
      public_ipv6 =
          first_such (is_v6 false) (text "fe80::1" ∷ text "10.1.2.3" ∷ text "10.1.2.4" ∷ []);
      private_ipv6 =
          first_such (is_v6 true) (text "fe80::1" ∷ text "10.1.2.3" ∷ text "10.1.2.4" ∷ []);
    }
categorize_ips_first_example =
    categorize_ips_first (text "fe80::1" ∷ text "10.1.2.3" ∷ text "10.1.2.4" ∷ [])
