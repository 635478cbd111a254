-- ===== src/Base/Decimal.antt =====
-- Decimal numbers: `%d`, `strconv.Itoa` and `strconv.Atoi`.
pub mod RoundTrip
use mathlib.Core.Path.{◌≡◌, refl}
use mathlib.Core.Bool.{Bool, ◌&&◌}
use mathlib.Core.Logic.{inl, inr}
use native.Mathlib.Omega.{arith}
use mathlib.Core.Option.{Option, none, some}
use mathlib.Core.List.{[], ◌∷◌, ◌++◌}
use Prim.Native.Nat.{ℕ, zero, suc, ◌+◌, ◌-◌, ◌*◌, ◌/◌, ◌%◌, ◌^◌}
use proxmox_operator.Base.Tests.{ltb, leb, ◌==◌, if◌then◌else◌, Bool-cases}
use proxmox_operator.Base.Int.{ℤ, pos, negsuc, IsInt64}
use proxmox_operator.Base.Text.{Text, text}

-- The digits of `n`; the fuel `n` is enough, since a tenth is smaller.
unfoldable pub digits_on : ℕ → ℕ → Text
digits_on zero n = (b'0' + n) ∷ []
digits_on (suc fuel) n =
    let rest = digits_on fuel (n / 10) ++ (b'0' + n % 10) ∷ [] in
    if ltb n 10 then (b'0' + n) ∷ [] else rest

unfoldable pub digits : ℕ → Text
unfolding digits_on
digits n = digits_on n n

-- `%d` of an int.
unfoldable pub itoa : ℤ → Text
itoa (pos n) = digits n
itoa (negsuc n) = b'-' ∷ digits (suc n)

abbrev pub is_digit : ℕ → Bool
is_digit c = leb b'0' c && leb c b'9'

-- The digits behind the number `n`.
unfoldable pub scan : Text → ℕ → Option ℕ
scan [] n = some n
scan (c ∷ s) n = if is_digit c then scan s (n * 10 + (c - b'0')) else none

-- One or more digits.
unfoldable pub parse_nat : Text → Option ℕ
unfolding scan
parse_nat [] = none
parse_nat (c ∷ s) = scan (c ∷ s) 0

abbrev negate : ℕ → ℤ
negate zero = pos 0
negate (suc n) = negsuc n

-- A number outside 64 bits is an error.
abbrev as_positive : Option ℕ → Option ℤ
as_positive none = none
as_positive (some n) = if ltb n (2 ^ 63) then some (pos n) else none

abbrev as_negative : Option ℕ → Option ℤ
as_negative none = none
as_negative (some n) = if leb n (2 ^ 63) then some (negate n) else none

-- `strconv.Atoi`; `none` is its error.
unfoldable pub atoi : Text → Option ℤ
unfolding parse_nat
atoi [] = none
atoi (c ∷ s) =
    if c == b'-'
    then as_negative (parse_nat s)
    else if c == b'+'
    then as_positive (parse_nat s)
    else as_positive (parse_nat (c ∷ s))

atoi_range_test : atoi (text "9223372036854775808") ≡ none
unfolding atoi text
atoi_range_test = refl

atoi_sign_test : (atoi (text "-12") ≡ some (negsuc 11)) × (atoi (text "+7") ≡ some (pos 7))
unfolding atoi text
atoi_sign_test = (refl, refl)

itoa_test : itoa (negsuc 119) ≡ text "-120"
unfolding itoa digits text
itoa_test = refl

as_positive-IsInt64 : (o : Option ℕ) (x : ℤ) → as_positive o ≡ some x → IsInt64 x
as_positive-IsInt64 none x h = cc
as_positive-IsInt64 (some n) (pos m) h = ground arith
as_positive-IsInt64 (some n) (negsuc m) h = ground arith

as_negative-IsInt64 : (o : Option ℕ) (x : ℤ) → as_negative o ≡ some x → IsInt64 x
as_negative-IsInt64 none x h = cc
as_negative-IsInt64 (some zero) (pos m) h = ground arith
as_negative-IsInt64 (some zero) (negsuc m) h = ground arith
as_negative-IsInt64 (some (suc n)) (pos m) h = ground arith
as_negative-IsInt64 (some (suc n)) (negsuc m) h = ground arith

-- What is read is in the range.
pub atoi-IsInt64 : (s : Text) (x : ℤ) → atoi s ≡ some x → IsInt64 x
unfolding atoi
atoi-IsInt64 [] x h = cc
atoi-IsInt64 (c ∷ s) x h = elim (Bool-cases (c == b'-')) [
  | inl e ↦ as_negative-IsInt64 (parse_nat s) x (rw e at h)
  | inr e ↦ elim (Bool-cases (c == b'+')) [
    | inl p ↦ as_positive-IsInt64 (parse_nat s) x (rw (p) at (rw e at h))
    | inr p ↦ as_positive-IsInt64 (parse_nat (c ∷ s)) x (rw (p) at (rw e at h))
  ]
]
