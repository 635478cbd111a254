-- ===== src/Network/Parse.antt =====
-- `net.ParseIP` of Go's standard library: an address as its sixteen bytes.
use proxmox_operator.Base.{
  ℕ, zero, suc, ◌+◌, ◌-◌, ◌*◌, ◌/◌, ◌%◌, List, [], ◌∷◌, ◌++◌, Option, none, some, Bool, leb, ltb,
  ◌==◌, ◌&&◌, if◌then◌else◌, length,
}
use proxmox_operator.Base.Text.{Text}
use proxmox_operator.Base.Split.{split}
use proxmox_operator.Base.Decimal.{parse_nat}

-- A decimal field of a dotted address: one to three digits, no leading zero, at most 255.
abbrev below_256 : Option ℕ → Option ℕ
below_256 none = none
below_256 (some n) = if ltb n 256 then some n else none

unfoldable pub dotted_field : Text → Option ℕ
dotted_field [] = none
dotted_field (c ∷ []) = below_256 (parse_nat (c ∷ []))
dotted_field (c ∷ d ∷ s) = if c == b'0' then none else below_256 (parse_nat (c ∷ d ∷ s))

abbrev four : Option ℕ → Option ℕ → Option ℕ → Option ℕ → Option (List ℕ)
four (some a) (some b) (some c) (some d) = some (a ∷ b ∷ c ∷ d ∷ [])
four _ _ _ _ = none

fields_of : List Text → Option (List ℕ)
fields_of (a ∷ b ∷ c ∷ d ∷ []) =
    four (dotted_field a) (dotted_field b) (dotted_field c) (dotted_field d)
fields_of _ = none

-- The four bytes of a dotted address.
unfoldable parse_ipv4 : Text → Option (List ℕ)
unfolding fields_of
parse_ipv4 s = fields_of (split s b'.')

-- The sixteen bytes of an IPv4 address in IPv6 form.
abbrev pub mapped : List ℕ → List ℕ
mapped bytes = 0 ∷ 0 ∷ 0 ∷ 0 ∷ 0 ∷ 0 ∷ 0 ∷ 0 ∷ 0 ∷ 0 ∷ 0xff ∷ 0xff ∷ bytes

abbrev hex_value : ℕ → Option ℕ
hex_value c =
    if leb b'0' c && leb c b'9'
    then some (c - b'0')
    else if leb b'a' c && leb c b'f'
    then some (c - 87)
    else if leb b'A' c && leb c b'F'
    then some (c - 55)
    else none

-- A run of hexadecimal digits: how many, their value, and the text behind them.
hex_run : Text → ℕ → ℕ → ℕ × ℕ × Text
hex_run [] n acc = (n, acc, [])
hex_run (c ∷ s) n acc = elim (hex_value c) [
  | none ↦ (n, acc, c ∷ s)
  | some d ↦ hex_run s (n + 1) (acc * 16 + d)
]

replicate_zero : ℕ → List ℕ
replicate_zero zero = []
replicate_zero (suc n) = 0 ∷ replicate_zero n

-- The bytes before the ellipsis, zeros, and the bytes behind it; `none` in the middle is no
-- ellipsis, and then there must be sixteen bytes. An ellipsis stands for one group at least.
expand : List ℕ → Option (List ℕ) → Option (List ℕ)
unfolding replicate_zero
expand bytes none = if length bytes == 16 then some bytes else none
expand bytes (some before) =
    if ltb (length before + length bytes) 16
    then some (before ++ replicate_zero (16 - (length before + length bytes)) ++ bytes)
    else none

-- The bytes read so far since the ellipsis, and those before it, if one was read.
abbrev total : List ℕ → Option (List ℕ) → ℕ
total bytes none = length bytes
total bytes (some before) = length before + length bytes

abbrev group : ℕ → List ℕ
group acc = acc / 256 ∷ acc % 256 ∷ []

-- A dotted address in place of the last two groups.
dotted_tail : Text → List ℕ → Option (List ℕ) → Option (List ℕ)
dotted_tail s bytes before =
    let room : Bool = elim before [
      | none ↦ length bytes == 12
      | some b ↦ leb (length b + length bytes) 12
    ] in
    let tail : Option (List ℕ) = parse_ipv4 s in
    if room then elim tail [ none ↦ none | some v4 ↦ expand (bytes ++ v4) before ] else none

-- The groups of an IPv6 address; each round reads one group and there are at most eight, so nine
-- rounds are enough. The next rounds are the argument `next` of the helpers.
abbrev Rounds : Type 0
Rounds = Text → List ℕ → Option (List ℕ) → Option (List ℕ)

behind_ellipsis : Rounds → Rounds
behind_ellipsis next rest bytes (some b) = none
behind_ellipsis next [] bytes none = expand [] (some bytes)
behind_ellipsis next (c ∷ rest) bytes none = next (c ∷ rest) [] (some bytes)

behind_colon : Rounds → Rounds
behind_colon next [] bytes before = none
behind_colon next (c ∷ rest) bytes before =
    if c == b':' then behind_ellipsis next rest bytes before else next (c ∷ rest) bytes before

-- `s` is the text with the group in front.
behind_group : Rounds → Text → ℕ → Rounds
behind_group next s acc [] bytes before = expand (bytes ++ group acc) before
behind_group next s acc (c ∷ rest) bytes before =
    if c == b'.'
    then dotted_tail s bytes before
    else if c == b':'
    then behind_colon next rest (bytes ++ group acc) before
    else none

read_group : Rounds → Text → ℕ × ℕ × Text → List ℕ → Option (List ℕ) → Option (List ℕ)
read_group next s (zero, acc, rest) bytes before = none
read_group next s (suc n, acc, rest) bytes before =
    if ltb n 4 then behind_group next s acc rest bytes before else none

groups : ℕ → Rounds
groups zero s bytes before = none
groups (suc fuel) s bytes before =
    let round = read_group (groups fuel) s (hex_run s 0 0) bytes before in
    if ltb (total bytes before) 16 then round else none

parse_ipv6 : Text → Option (List ℕ)
unfolding groups read_group behind_group behind_colon behind_ellipsis dotted_tail expand hex_run
parse_ipv6 (a ∷ b ∷ s) =
    if a == b':' && b == b':'
    then behind_ellipsis (groups 9) s [] none
    else groups 9 (a ∷ b ∷ s) [] none
parse_ipv6 s = groups 9 s [] none

-- The first of the bytes `.`, `:` and `%` says which kind of address it is. An address with a zone
-- is refused.
kind : Text → Text → Option (List ℕ)
unfolding parse_ipv6
kind s [] = none
kind s (c ∷ rest) =
    if c == b'.'
    then elim (parse_ipv4 s) [ none ↦ none | some v4 ↦ some (mapped v4) ]
    else if c == b':'
    then parse_ipv6 s
    else if c == b'%'
    then none
    else kind s rest

unfoldable pub parse_ip : Text → Option (List ℕ)
unfolding kind parse_ipv4
parse_ip s = kind s s
