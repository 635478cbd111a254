-- ===== src/MacAddress/Format.antt =====
-- The form of a generated address, and the second octet.
use proxmox_operator.Base.{
  ℕ, zero, suc, ◌<◌, ◌≡◌, refl, [], ◌∷◌, Option, none, some, Bool, true, if◌then◌else◌, false,
  arith, map, ◌==◌, Option-cases, inl, inr,
}
use proxmox_operator.Base.Split.{split-append, split-eq_of_Lacks}
use proxmox_operator.Base.Text.{Text, text, Lacks, trim_space, trim_prefix, to_lower}
use proxmox_operator.Base.Split.{split}
use proxmox_operator.Base.Errors.{ok}
use proxmox_operator.MacAddress.{
  Bytes6, scan_hex, parse_uint8, set_octet, hex2, format_mac, generate_mac_address, value_or_zero,
}

-- The test holds for every number under the bound.
holds_under : (ℕ → Bool) → ℕ → Bool
holds_under test zero = true
holds_under test (suc bound) = if test bound then holds_under test bound else false

holds_under-at :
    (test : ℕ → Bool) (bound n : ℕ) → n < bound → holds_under test bound ≡ true → test n ≡ true
unfolding holds_under
holds_under-at test zero n lt h = absurd (omega arith)
holds_under-at test (suc bound) n lt h = ground (arith, holds_under-at test bound n)

scan_hex_lt : (s : Text) (n r : ℕ) → n < 256 → scan_hex s n ≡ some r → r < 256
unfolding scan_hex
scan_hex_lt [] n r h e = ground arith
scan_hex_lt (c ∷ s) n r h e = grind (arith, scan_hex_lt s)

value_or_zero-lt : (s : Text) → value_or_zero (parse_uint8 s) < 256
unfolding parse_uint8
value_or_zero-lt [] = omega arith
value_or_zero-lt (c ∷ s) = elim (Option-cases (scan_hex (c ∷ s) 0)) [
  | inl e ↦ rw e (omega arith)
  | inr (r, e) ↦ rw e (scan_hex_lt (c ∷ s) 0 r (omega arith) e)
]

-- The second octet is a byte, whatever the setting is.
pub set_octet-lt : (mac_set : Text) → set_octet mac_set < 256
unfolding set_octet
set_octet-lt mac_set = value_or_zero-lt _

eq_of_test : (a b : ℕ) → (a == b) ≡ true → a ≡ b
eq_of_test a b h = ground arith

-- The two spellings of a byte in MAC_SET.
abbrev reads_plain : ℕ → Bool
reads_plain n = set_octet (hex2 n) == n

abbrev reads_prefixed : ℕ → Bool
reads_prefixed n = set_octet (b'0' ∷ b'x' ∷ hex2 n) == n

plain_table : holds_under reads_plain 256 ≡ true
unfolding holds_under set_octet trim_space trim_prefix to_lower parse_uint8 text
plain_table = refl

prefixed_table : holds_under reads_prefixed 256 ≡ true
unfolding holds_under set_octet trim_space trim_prefix to_lower parse_uint8 text
prefixed_table = refl

abbrev is_some_of : ℕ → Option ℕ → Bool
is_some_of n none = false
is_some_of n (some m) = m == n

abbrev reads_hex2 : ℕ → Bool
reads_hex2 n = is_some_of n (parse_uint8 (hex2 n))

hex2_table : holds_under reads_hex2 256 ≡ true
unfolding holds_under parse_uint8
hex2_table = refl

eq_of_is_some_of : (n : ℕ) (o : Option ℕ) → is_some_of n o ≡ true → o ≡ some n
eq_of_is_some_of n none h = cc
eq_of_is_some_of n (some m) h = ground arith

parse_uint8-hex2 : (n : ℕ) → n < 256 → parse_uint8 (hex2 n) ≡ some n
parse_uint8-hex2 n h = eq_of_is_some_of n _ (holds_under-at reads_hex2 256 n h hex2_table)

hex2-Lacks : (n : ℕ) → n < 256 → Lacks b':' (hex2 n)
hex2-Lacks n h = ground arith

abbrev IsBytes6 : Bytes6 → Type 0
IsBytes6 b = (b.b0 < 256) × (b.b1 < 256) × (b.b2 < 256) × (b.b3 < 256) × (b.b4 < 256) × (b.b5 < 256)

split-format_mac :
    (b : Bytes6)
    → IsBytes6 b
    → split (format_mac b) b':'
      ≡ hex2 b.b0 ∷ hex2 b.b1 ∷ hex2 b.b2 ∷ hex2 b.b3 ∷ hex2 b.b4 ∷ hex2 b.b5 ∷ []
unfolding format_mac
split-format_mac b h = rw (
  split-append (hex2 b.b0) _ b':' (hex2-Lacks _ h.0),
  split-append (hex2 b.b1) _ b':' (hex2-Lacks _ h.1),
  split-append (hex2 b.b2) _ b':' (hex2-Lacks _ h.2),
  split-append (hex2 b.b3) _ b':' (hex2-Lacks _ h.3),
  split-append (hex2 b.b4) _ b':' (hex2-Lacks _ h.4),
  split-eq_of_Lacks (hex2 b.b5) b':' (hex2-Lacks _ h.5),
)

-- A generated address is six colon-separated hexadecimal bytes: 2, which marks a locally administered
-- unicast address, the second octet of the setting, and the last four of the bytes that were read.
pub generate_mac_address_octets :
    (mac_set : Text) (b : Bytes6)
    → IsBytes6 b
    → (mac : Text) × (generate_mac_address mac_set (ok b) ≡ ok mac)
      × (map parse_uint8 (split mac b':')
          ≡ some 2 ∷ some (set_octet mac_set) ∷ some b.b2 ∷ some b.b3 ∷ some b.b4 ∷ some b.b5 ∷ [])
unfolding generate_mac_address
generate_mac_address_octets mac_set b h = (_, refl, octets)
  where
    octets :
        map parse_uint8 (split (format_mac (record b { b0 = 0x02; b1 = set_octet mac_set })) b':')
        ≡ some 2 ∷ some (set_octet mac_set) ∷ some b.b2 ∷ some b.b3 ∷ some b.b4 ∷ some b.b5 ∷ []
    octets = rw (
      split-format_mac (record b { b0 = 0x02; b1 = set_octet mac_set })
          (omega arith, set_octet-lt mac_set, h.2, h.3, h.4, h.5),
      parse_uint8-hex2 2 (omega arith),
      parse_uint8-hex2 _ (set_octet-lt mac_set),
      parse_uint8-hex2 b.b2 h.2,
      parse_uint8-hex2 b.b3 h.3,
      parse_uint8-hex2 b.b4 h.4,
      parse_uint8-hex2 b.b5 h.5,
    )

-- The second octet is the byte that MAC_SET spells in two hexadecimal digits, with "0x" before them
-- or not.
pub set_octet-hex2 :
    (n : ℕ) → n < 256 → (set_octet (hex2 n) ≡ n) × (set_octet (b'0' ∷ b'x' ∷ hex2 n) ≡ n)
set_octet-hex2 n h = (
  eq_of_test _ n (holds_under-at reads_plain 256 n h plain_table),
  eq_of_test _ n (holds_under-at reads_prefixed 256 n h prefixed_table),
)
