-- ===== src/Base/Decimal/RoundTrip.antt =====
-- Reading of what is printed.
use mathlib.Core.Path.{◌≡◌, refl, ap}
use mathlib.Core.Logic.{◌≢◌}
use mathlib.Core.Option.{some}
use mathlib.Core.List.{[], ◌∷◌, ◌++◌, append_assoc, append-nil, concat-ne-nil}
use native.Mathlib.Omega.{arith}
use Prim.Native.Nat.{ℕ, zero, suc, ◌+◌, ◌/◌, ◌%◌, ◌≤◌, ◌<◌}
use proxmox_operator.Base.Lists.{All, All-append}
use proxmox_operator.Base.Int.{ℤ, pos, negsuc, IsInt64}
use proxmox_operator.Base.Text.{Text, Lacks}
use proxmox_operator.Base.Decimal.{digits_on, digits, itoa, scan, parse_nat, as_positive, atoi}

scan-digits_on :
    (fuel n : ℕ) (rest : Text) → n ≤ fuel → scan (digits_on fuel n ++ rest) 0 ≡ scan rest n
unfolding digits_on scan
scan-digits_on zero n rest h = ground arith
scan-digits_on (suc fuel) n rest h = ground (
  arith,
  append_assoc (digits_on fuel (n / 10)) ((b'0' + n % 10) ∷ []) rest,
  scan-digits_on fuel (n / 10) ((b'0' + n % 10) ∷ rest),
)

abbrev pub IsDigit : ℕ → Type 0
IsDigit c = (b'0' ≤ c) × (c ≤ b'9')

digits_on-IsDigit : (fuel n : ℕ) → n ≤ fuel → All IsDigit (digits_on fuel n)
unfolding digits_on
digits_on-IsDigit zero n h = ground arith
digits_on-IsDigit (suc fuel) n h = ground (
  arith,
  digits_on-IsDigit fuel (n / 10),
  All-append IsDigit (digits_on fuel (n / 10)) ((b'0' + n % 10) ∷ []),
)

digits_on-ne-nil : (fuel n : ℕ) → digits_on fuel n ≢ []
unfolding digits_on
digits_on-ne-nil zero n = ground arith
digits_on-ne-nil (suc fuel) n =
    ground (arith, concat-ne-nil (b'0' + n % 10) (digits_on fuel (n / 10)))

parse_nat-scan : (t : Text) → t ≢ [] → parse_nat t ≡ scan t 0
unfolding parse_nat
parse_nat-scan [] h = absurd (h refl)
parse_nat-scan (c ∷ s) h = refl

parse_nat-digits : (n : ℕ) → parse_nat (digits n) ≡ some n
unfolding digits
parse_nat-digits n =
    rw (parse_nat-scan _ (digits_on-ne-nil n n), ← append-nil (digits_on n n))
      (rw (scan-digits_on n n [] (omega arith)) (unfold scan in refl))

-- Different numbers are printed differently.
pub digits-injective : (m n : ℕ) → digits m ≡ digits n → m ≡ n
digits-injective m n e = ground (arith, ap parse_nat e, parse_nat-digits m, parse_nat-digits n)

pub digits-IsDigit : (n : ℕ) → All IsDigit (digits n)
unfolding digits
digits-IsDigit n = digits_on-IsDigit n n (omega arith)

atoi_of_digits : (t : Text) → t ≢ [] → All IsDigit t → atoi t ≡ as_positive (parse_nat t)
unfolding atoi
atoi_of_digits [] h d = absurd (h refl)
atoi_of_digits (c ∷ s) h d = ground arith

-- Every int in the range of 64 bits is read back from its decimal print.
pub atoi-itoa : (x : ℤ) → IsInt64 x → atoi (itoa x) ≡ some x
unfolding itoa
atoi-itoa (pos n) h =
    rw (atoi_of_digits (digits n) (unfold digits in digits_on-ne-nil n n) (digits-IsDigit n))
      (rw (parse_nat-digits n) (ground arith))
atoi-itoa (negsuc n) h = unfold atoi in (rw (parse_nat-digits (suc n)) (ground arith))

IsDigit-ne : (sep : ℕ) (t : Text) → sep < b'0' → All IsDigit t → All (λ c. c ≢ sep) t
IsDigit-ne sep [] h d = tt
IsDigit-ne sep (c ∷ t) h d = (ground arith, IsDigit-ne sep t h d.1)

-- The print of an int holds no byte below the digits but the sign.
pub itoa-Lacks : (x : ℤ) (sep : ℕ) → sep < b'0' → sep ≢ b'-' → Lacks sep (itoa x)
unfolding itoa
itoa-Lacks (pos n) sep h _ = IsDigit-ne sep (digits n) h (digits-IsDigit n)
itoa-Lacks (negsuc n) sep h k =
    (ground arith, IsDigit-ne sep (digits (suc n)) h (digits-IsDigit (suc n)))
