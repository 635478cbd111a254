-- ===== src/VmBuilder/Placed.antt =====
-- Lists of options whose names are distinct, since they stand in a fixed order.
use proxmox_operator.Base.{
  ℕ, suc, ◌<◌, ◌≤◌, ◌≡◌, ◌≢◌, refl, ap, List, [], ◌∷◌, ◌++◌, Bool, true, false, if◌then◌else◌,
  arith, All, All-append,
}
use proxmox_operator.Base.Text.{Text, text, has_prefix}
use proxmox_operator.VmBuilder.{VmOption, Value, option, option_if}
use proxmox_operator.VmBuilder.Disks.{Distinct, names}

-- The place of an option among the others, by how its name begins.
unfoldable pub place : Text → ℕ
place s =
    if has_prefix s (text "cores")
    then 0
    else if has_prefix s (text "cpu")
    then 1
    else if has_prefix s (text "numa")
    then 2
    else if has_prefix s (text "memory")
    then 3
    else if has_prefix s (text "scsihw")
    then 4
    else if has_prefix s (text "scsi")
    then 5
    else if has_prefix s (text "net0")
    then 6
    else if has_prefix s (text "cdrom")
    then 7
    else if has_prefix s (text "name")
    then 8
    else if has_prefix s (text "agent")
    then 9
    else 10

-- The names are distinct, and their places are from a on and below b.
pub record Placed (a b : ℕ) (os : List VmOption) : Type 0 where
  pub distinct : Distinct (names os)
  pub inside : All (λ s. (a ≤ place s) × (place s < b)) (names os)

Distinct-append :
    (n : ℕ) (xs ys : List Text)
    → Distinct xs
    → Distinct ys
    → All (λ s. place s < n) xs
    → All (λ s. n ≤ place s) ys
    → Distinct (xs ++ ys)
Distinct-append n [] ys dx dy below above = dy
Distinct-append n (x ∷ xs) ys (ne, dx) dy (b, below) above =
    (All-append _ xs ys ne (apart ys above), Distinct-append n xs ys dx dy below above)
  where
    apart : (zs : List Text) → All (λ s. n ≤ place s) zs → All (λ y. x ≢ y) zs
    apart [] a = tt
    apart (z ∷ zs) (h, a) = ((λ e. absurd (omega (arith, ap place e))), apart zs a)

names-append : (xs ys : List VmOption) → names (xs ++ ys) ≡ names xs ++ names ys
names-append [] ys = refl
names-append (x ∷ xs) ys = ap (λ l. x.name ∷ l) (names-append xs ys)

abbrev pub Between : ℕ → ℕ → Text → Type 0
Between a b s = (a ≤ place s) × (place s < b)

All-below : (a b : ℕ) (xs : List Text) → All (Between a b) xs → All (λ s. place s < b) xs
All-below a b [] h = tt
All-below a b (x ∷ xs) ((l, u), h) = (u, All-below a b xs h)

All-above : (a b : ℕ) (xs : List Text) → All (Between a b) xs → All (λ s. a ≤ place s) xs
All-above a b [] h = tt
All-above a b (x ∷ xs) ((l, u), h) = (l, All-above a b xs h)

All-widen :
    (a b c d : ℕ) (xs : List Text) → a ≤ b → c ≤ d → All (Between b c) xs → All (Between a d) xs
All-widen a b c d [] h k p = tt
All-widen a b c d (x ∷ xs) h k ((l, u), p) =
    ((omega arith, omega arith), All-widen a b c d xs h k p)

pub Placed-append :
    (a b c : ℕ) {xs ys : List VmOption}
    → a ≤ b
    → b ≤ c
    → Placed a b xs
    → Placed b c ys
    → Placed a c (xs ++ ys)
Placed-append a b c {xs} {ys} h k p q = record {
  distinct = rw (names-append xs ys) (
      Distinct-append b (names xs) (names ys) p.distinct q.distinct
        (All-below a b (names xs) p.inside) (All-above b c (names ys) q.inside));
  inside = rw (names-append xs ys) (
      All-append _ (names xs) (names ys) (All-widen a a b c (names xs) (omega arith) k p.inside)
        (All-widen a b c c (names ys) h (omega arith) q.inside));
}

pub Placed-option :
    (a : ℕ) (name : Text) (value : Value) → place name ≡ a → Placed a (suc a) (option name value)
Placed-option a name value e = record {
  distinct = (tt, tt);
  inside = ((omega (arith, e), omega (arith, e)), tt);
}

pub Placed-option_if :
    (a : ℕ) (test : Bool) (name : Text) (value : Value)
    → place name ≡ a
    → Placed a (suc a) (option_if test name value)
Placed-option_if a true name value e = Placed-option a name value e
Placed-option_if a false name value e = record { distinct = tt; inside = tt }

pub Placed-if :
    (a b : ℕ) (test : Bool) {xs ys : List VmOption}
    → Placed a b xs
    → Placed a b ys
    → Placed a b (if test then xs else ys)
Placed-if a b true p q = p
Placed-if a b false p q = q
