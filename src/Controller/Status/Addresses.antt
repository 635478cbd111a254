-- ===== src/Controller/Status/Addresses.antt =====
-- The addresses in the status, where the guest agent has answered.
use mathlib.Core.List.{Perm, perm_middle}
use mathlib.Core.List.Perm
use proxmox_operator.Base.{
  ◌≡◌, refl, ap, ◌∙◌, not, ◌&&◌, if◌then◌else◌, map, arith, List, [], ◌∷◌, ◌++◌, Bool, true, false,
  Bool-cases, inl, inr, All,
}
use proxmox_operator.Base.Text.{Text, text, eq_text, has_prefix}
use proxmox_operator.Crd.{MachineStatus, StatusInterface}
use proxmox_operator.Network.{is_private_ip}
use proxmox_operator.World.{AgentAddress, AgentInterface}
use proxmox_operator.Controller.Status.{
  ipv4_addresses, ipv6_addresses, interface_status, external_interfaces, interface_statuses,
  all_ipv4, by_privacy, put_interfaces,
}

by_privacy-All : (b : Bool) (ips : List Text) → All (λ ip. is_private_ip ip ≡ b) (by_privacy b ips)
unfolding by_privacy
by_privacy-All b [] = tt
by_privacy-All true (ip ∷ ips) = elim (Bool-cases (is_private_ip ip)) [
  | inl e ↦ rw (e, by_privacy) (e, by_privacy-All true ips)
  | inr e ↦ rw (e, by_privacy) (by_privacy-All true ips)
]
by_privacy-All false (ip ∷ ips) = elim (Bool-cases (is_private_ip ip)) [
  | inl e ↦ rw (e, by_privacy) (by_privacy-All false ips)
  | inr e ↦ rw (e, by_privacy) (e, by_privacy-All false ips)
]

-- Every address is in one of the two lists, as often as it is there.
by_privacy-Perm : (ips : List Text) → Perm ips (by_privacy true ips ++ by_privacy false ips)
unfolding by_privacy
by_privacy-Perm [] = Perm.nil
by_privacy-Perm (ip ∷ ips) = elim (Bool-cases (is_private_ip ip)) [
  | inl e ↦ rw (e, by_privacy) (Perm.cons ip (by_privacy-Perm ips))
  | inr e ↦
      rw (e, by_privacy)
        (Perm.trans (Perm.cons ip (by_privacy-Perm ips))
          (Perm.symm (perm_middle (by_privacy true ips) (by_privacy false ips))))
]

abbrev pub addresses_of : List StatusInterface → List Text
addresses_of [] = []
addresses_of (i ∷ is) = i.ip_addresses ++ addresses_of is

addresses_of-interface_statuses :
    (is : List AgentInterface) → addresses_of (interface_statuses is) ≡ all_ipv4 is
unfolding interface_statuses interface_status all_ipv4
addresses_of-interface_statuses [] = refl
addresses_of-interface_statuses (i ∷ is) =
    ap (λ l. ipv4_addresses i.addresses ++ l) (addresses_of-interface_statuses is)

abbrev pub IsExternal : StatusInterface → Type 0
IsExternal i = eq_text i.name (text "lo") ≡ false

interface_statuses-IsExternal :
    (is : List AgentInterface) → All IsExternal (interface_statuses (external_interfaces is))
unfolding interface_statuses interface_status external_interfaces
interface_statuses-IsExternal [] = tt
interface_statuses-IsExternal (i ∷ is) = elim (Bool-cases (eq_text i.interface_name (text "lo"))) [
  | inl e ↦ rw (e, external_interfaces) (interface_statuses-IsExternal is)
  | inr e ↦ rw (e, external_interfaces) (e, interface_statuses-IsExternal is)
]

-- The answer read without the loop: the interfaces that are not named lo, each with its IPv4 addresses and with
-- the IPv6 addresses that are not link-local.
abbrev pub keep : {A : Type 0} → (A → Bool) → List A → List A
keep p [] = []
keep p (x ∷ xs) = if p x then x ∷ keep p xs else keep p xs

abbrev pub is_external : AgentInterface → Bool
is_external i = not (eq_text i.interface_name (text "lo"))

abbrev ipv4_of : AgentInterface → List Text
ipv4_of i =
    map (λ (a : AgentAddress). a.address)
      (keep (λ (a : AgentAddress). eq_text a.address_type (text "ipv4")) i.addresses)

abbrev ipv6_of : AgentInterface → List Text
ipv6_of i =
    map (λ (a : AgentAddress). a.address)
      (keep
        (λ (a : AgentAddress).
          eq_text a.address_type (text "ipv6") && not (has_prefix a.address (text "fe80:")))
        i.addresses)

-- The name, the MAC address, and the IPv4 and IPv6 addresses.
abbrev Shown : Type 0
Shown = Text × Text × List Text × List Text

abbrev pub answered : AgentInterface → Shown
answered i = (i.interface_name, i.hardware_address, ipv4_of i, ipv6_of i)

abbrev pub recorded : StatusInterface → Shown
recorded i = (i.name, i.mac_address, i.ip_addresses, i.ipv6_addresses)

ipv4_addresses_eq :
    (as_ : List AgentAddress)
    → ipv4_addresses as_
      ≡ map
          (λ (a : AgentAddress). a.address)
          (keep (λ (a : AgentAddress). eq_text a.address_type (text "ipv4")) as_)
unfolding ipv4_addresses
ipv4_addresses_eq [] = refl
ipv4_addresses_eq (a ∷ as_) = ground (arith, ipv4_addresses_eq as_)

ipv6_addresses_eq :
    (as_ : List AgentAddress)
    → ipv6_addresses as_
      ≡ map
          (λ (a : AgentAddress). a.address)
          (keep
            (λ (a : AgentAddress).
              eq_text a.address_type (text "ipv6") && not (has_prefix a.address (text "fe80:")))
            as_)
unfolding ipv6_addresses
ipv6_addresses_eq [] = refl
ipv6_addresses_eq (a ∷ as_) = ground (arith, ipv6_addresses_eq as_)

recorded-interface_status : (i : AgentInterface) → recorded (interface_status i) ≡ answered i
unfolding interface_status
recorded-interface_status i = rw (ipv4_addresses_eq i.addresses, ipv6_addresses_eq i.addresses) refl

external_interfaces_eq : (is : List AgentInterface) → external_interfaces is ≡ keep is_external is
unfolding external_interfaces
external_interfaces_eq [] = refl
external_interfaces_eq (i ∷ is) = ground (arith, external_interfaces_eq is)

recorded-interface_statuses :
    (is : List AgentInterface) → map recorded (interface_statuses is) ≡ map answered is
unfolding interface_statuses
recorded-interface_statuses [] = refl
recorded-interface_statuses (i ∷ is) =
    rw (recorded-interface_status i, recorded-interface_statuses is) refl

-- After the guest agent's answer the status has each interface of the answer but those named lo, in its order,
-- with its name, its MAC address, all of its IPv4 addresses, and its IPv6 addresses that do not begin with
-- fe80:. The status has no interface named lo, its own IPv4 addresses are those of
-- its interfaces, one after the other, and its private and its public addresses together are a permutation
-- of these: exactly the ones that `IsPrivateIP` takes for private are the private ones.
pub put_interfaces-Perm :
    (answer : List AgentInterface) (s : MachineStatus)
    → let t = put_interfaces answer s in
      (map recorded t.network_interfaces ≡ map answered (keep is_external answer))
      × All IsExternal t.network_interfaces
      × (addresses_of t.network_interfaces ≡ t.ip_addresses)
      × Perm t.ip_addresses (t.private_ip_addresses ++ t.public_ip_addresses)
      × All (λ ip. is_private_ip ip ≡ true) t.private_ip_addresses
      × All (λ ip. is_private_ip ip ≡ false) t.public_ip_addresses
unfolding put_interfaces
put_interfaces-Perm answer s = (
  recorded-interface_statuses (external_interfaces answer)
      ∙ ap (map answered) (external_interfaces_eq answer),
  interface_statuses-IsExternal answer,
  addresses_of-interface_statuses (external_interfaces answer),
  by_privacy-Perm _,
  by_privacy-All true _,
  by_privacy-All false _,
)
