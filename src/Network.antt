-- ===== src/Network.antt =====
-- internal/helpers/network/network.go: classes of IP addresses.
pub mod Parse
pub mod Private
pub mod Categories
use proxmox_operator.Base.{
  ℕ, ◌/◌, List, [], ◌∷◌, Option, none, some, Bool, true, false, ltb, length, arith, suc, ◌≤◌, drop,
  length-drop, ◌==◌, ◌&&◌, ◌||◌, if◌then◌else◌,
}
use proxmox_operator.Base.Int.{ℤ, pos, negsuc}
use proxmox_operator.Base.Text.{Text, is_empty, has_prefix}
use Parse.{parse_ip, mapped}

abbrev pub no_bytes : List ℕ → Bool
no_bytes [] = true
no_bytes (b ∷ bs) = false

-- `ip.To4()` of a parsed address: its four bytes, or `nil`, which is the empty slice.
unfoldable pub to4 : List ℕ → List ℕ
to4 ip = if length ip == 16 && has_prefix ip (mapped []) then drop 12 ip else []

pub below_tail : {m n : ℕ} → suc m ≤ suc n → m ≤ n
below_tail h = omega arith

-- `bytesCompare(a, b)`. The loop indexes `b` by the positions of `a`: it panics if `b` is shorter, so
-- the calls owe a proof that it is not.
unfoldable pub bytes_compare : (a b : List ℕ) → length a ≤ length b → ℤ
bytes_compare [] b h = pos 0
bytes_compare (x ∷ a) [] h = elim h [ ]
bytes_compare (x ∷ a) (y ∷ b) h =
    if ltb x y then negsuc 0 else if ltb y x then pos 1 else bytes_compare a b (below_tail h)

pub length-to4-le : (ip : List ℕ) → length (to4 ip) ≤ 4
unfolding to4
length-to4-le ip = ground (arith, length-drop 12 ip)

-- The comparison's result is at least, or at most, 0.
abbrev is_nonnegative : ℤ → Bool
is_nonnegative (pos n) = true
is_nonnegative (negsuc n) = false

abbrev is_nonpositive : ℤ → Bool
is_nonpositive (pos n) = n == 0
is_nonpositive (negsuc n) = true

abbrev bytes4 : ℕ → ℕ → ℕ → ℕ → List ℕ
bytes4 a b c d = a ∷ b ∷ c ∷ d ∷ []

-- The bytes lie between those of `start` and those of `end`, bounds included.
abbrev in_range :
    (bytes start end : List ℕ) → length bytes ≤ length start → length bytes ≤ length end → Bool
in_range bytes start end h k =
    is_nonnegative (bytes_compare bytes start h) && is_nonpositive (bytes_compare bytes end k)

-- The loop over the three ranges; the bounds are the bytes of the addresses that the program parses.
unfoldable pub in_private_ranges : (bytes : List ℕ) → length bytes ≤ 4 → Bool
in_private_ranges bytes h =
    in_range bytes (bytes4 10 0 0 0) (bytes4 10 255 255 255) h h
    || in_range bytes (bytes4 172 16 0 0) (bytes4 172 31 255 255) h h
    || in_range bytes (bytes4 192 168 0 0) (bytes4 192 168 255 255) h h

unfoldable pub is_private_ip : Text → Bool
is_private_ip s = elim (parse_ip s) [
  | none ↦ false
  | some ip ↦ in_private_ranges (to4 ip) (length-to4-le ip)
]

pub record IpAddresses : Type 0 where
  pub public_ipv4 : Text
  pub private_ipv4 : Text
  pub public_ipv6 : Text
  pub private_ipv6 : Text

-- `ip.IsPrivate()` of an address that is no IPv4 address: its first byte is 0xfc or 0xfd.
abbrev pub is_private_v6 : List ℕ → Bool
is_private_v6 [] = false
is_private_v6 (b ∷ bs) = b / 2 == 126

-- A field is set once: `if result.X == "" { result.X = ip }`.
abbrev pub keep_first : Text → Text → Text
keep_first old ip = if is_empty old then ip else old

-- One round of the loop of `CategorizeIPs`, for an address that has been parsed.
unfoldable pub categorize : IpAddresses → Text → List ℕ → IpAddresses
categorize r s ip =
    if no_bytes (to4 ip)
    then if is_private_v6 ip
      then record r { private_ipv6 = keep_first r.private_ipv6 s }
      else record r { public_ipv6 = keep_first r.public_ipv6 s }
    else if is_private_ip s
    then record r { private_ipv4 = keep_first r.private_ipv4 s }
    else record r { public_ipv4 = keep_first r.public_ipv4 s }

unfoldable pub categorize_ips_from : IpAddresses → List Text → IpAddresses
unfolding categorize
categorize_ips_from r [] = r
categorize_ips_from r (s ∷ ips) =
    categorize_ips_from (elim (parse_ip s) [ none ↦ r | some ip ↦ categorize r s ip ]) ips

abbrev no_addresses : IpAddresses
no_addresses = record { public_ipv4 = []; private_ipv4 = []; public_ipv6 = []; private_ipv6 = [] }

unfoldable pub categorize_ips : List Text → IpAddresses
unfolding categorize_ips_from
categorize_ips ips = categorize_ips_from no_addresses ips
