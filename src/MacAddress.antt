-- ===== src/MacAddress.antt =====
-- pkg/macaddress: generated MAC addresses. The six random bytes are an argument.
pub mod Format
use proxmox_operator.Base.{
  ℕ, ◌+◌, ◌-◌, ◌*◌, ◌/◌, ◌%◌, List, [], ◌∷◌, ◌++◌, Option, none, some, leb, ltb, ◌&&◌,
  if◌then◌else◌, length,
}
use proxmox_operator.Base.Text.{Text, text, is_empty, trim_space, trim_prefix, to_lower}
use proxmox_operator.Base.Errors.{Result, ok, err, ◌>>=◌}

pub record Bytes6 : Type 0 where
  pub b0 : ℕ
  pub b1 : ℕ
  pub b2 : ℕ
  pub b3 : ℕ
  pub b4 : ℕ
  pub b5 : ℕ

-- The value of a hexadecimal digit of either case.
abbrev hex_value : ℕ → Option ℕ
hex_value c =
    if leb b'0' c && leb c b'9'
    then some (c - b'0')
    else if leb b'a' c && leb c b'f'
    then some (c - 87)
    else if leb b'A' c && leb c b'F'
    then some (c - 55)
    else none

-- The digits behind the number `n`, kept below 256.
unfoldable pub scan_hex : Text → ℕ → Option ℕ
scan_hex [] n = some n
scan_hex (c ∷ s) n = elim (hex_value c) [
  | none ↦ none
  | some d ↦ let rest = scan_hex s (n * 16 + d) in if ltb (n * 16 + d) 256 then rest else none
]

-- `strconv.ParseUint(s, 16, 8)`; `none` is its error.
unfoldable pub parse_uint8 : Text → Option ℕ
unfolding scan_hex
parse_uint8 [] = none
parse_uint8 (c ∷ s) = scan_hex (c ∷ s) 0

-- `s[len(s)-2:]`, where the text has two bytes or more.
unfoldable pub last_two : Text → Text
last_two [] = []
last_two (a ∷ []) = a ∷ []
last_two (a ∷ b ∷ []) = a ∷ b ∷ []
last_two (a ∷ b ∷ c ∷ s) = last_two (b ∷ c ∷ s)

-- `val, _ := strconv.ParseUint(s, 16, 8)`
abbrev value_or_zero : Option ℕ → ℕ
value_or_zero none = 0
value_or_zero (some n) = n

abbrev or_default : Text → Option ℕ → Text
or_default s none = text "12"
or_default s (some n) = s

-- The second octet, from the setting MAC_SET.
unfoldable pub set_octet : Text → ℕ
set_octet mac_set =
    let trimmed = trim_space mac_set in
    let given = if is_empty trimmed then text "12" else trimmed in
    let bare = trim_prefix (to_lower given) (text "0x") in
    let short = if ltb 2 (length bare) then last_two bare else bare in
    let valid = or_default short (parse_uint8 short) in value_or_zero (parse_uint8 valid)

abbrev hex_digit : ℕ → ℕ
hex_digit d = if ltb d 10 then 48 + d else 87 + d

-- `%02x` of a byte.
abbrev pub hex2 : ℕ → Text
hex2 b = hex_digit (b / 16) ∷ hex_digit (b % 16) ∷ []

-- `fmt.Sprintf("%02x:%02x:%02x:%02x:%02x:%02x", …)`
unfoldable pub format_mac : Bytes6 → Text
format_mac b =
    hex2 b.b0
    ++ b':'
      ∷ (hex2 b.b1
          ++ b':' ∷ (hex2 b.b2 ++ b':' ∷ (hex2 b.b3 ++ b':' ∷ (hex2 b.b4 ++ b':' ∷ hex2 b.b5))))

-- `generateMacAddress`; the argument is what `rand.Read` leaves in the buffer, or its error.
unfoldable pub generate_mac_address : Text → Result Bytes6 → Result Text
generate_mac_address mac_set read = do
  b ← read
  ok (format_mac (record b { b0 = 0x02; b1 = set_octet mac_set }))
