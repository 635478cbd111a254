-- ===== src/Base/Split.antt =====
-- `strings.Split` and `strings.SplitN(…, 2)` at a separator of one byte.
use mathlib.Core.Path.{◌≡◌, refl}
use mathlib.Core.Logic.{◌≢◌}
use mathlib.Core.Option.{Option, none, some}
use mathlib.Core.List.{List, [], ◌∷◌, ◌++◌}
use native.Mathlib.Omega.{arith}
use Prim.Native.Nat.{ℕ}
use proxmox_operator.Base.Tests.{◌==◌, if◌then◌else◌}
use proxmox_operator.Base.Lists.{All}
use proxmox_operator.Base.Text.{Text, Lacks}

-- The byte joins the first part.
abbrev onto_first : ℕ → List Text → List Text
onto_first c [] = (c ∷ []) ∷ []
onto_first c (p ∷ ps) = (c ∷ p) ∷ ps

-- `strings.Split(s, sep)`: at least one part.
unfoldable pub split : Text → ℕ → List Text
split [] sep = [] ∷ []
split (c ∷ s) sep = let rest = split s sep in if c == sep then [] ∷ rest else onto_first c rest

-- The parts with the separator between them.
unfoldable pub join : List Text → ℕ → Text
join [] sep = []
join (p ∷ []) sep = p
join (p ∷ q ∷ ps) sep = p ++ sep ∷ join (q ∷ ps) sep

pub split-append : (p s : Text) (sep : ℕ) → Lacks sep p → split (p ++ sep ∷ s) sep ≡ p ∷ split s sep
unfolding split
split-append [] s sep h = ground arith
split-append (c ∷ p) s sep h = ground (arith, split-append p s sep h.1)

pub split-eq_of_Lacks : (p : Text) (sep : ℕ) → Lacks sep p → split p sep ≡ p ∷ []
unfolding split
split-eq_of_Lacks [] sep h = refl
split-eq_of_Lacks (c ∷ p) sep h = ground (arith, split-eq_of_Lacks p sep h.1)

split-ne-nil : (s : Text) (sep : ℕ) → split s sep ≢ []
unfolding split
split-ne-nil [] sep = ground arith
split-ne-nil (c ∷ s) sep = ground (arith, split-ne-nil s sep)

onto_first-Lacks :
    (c sep : ℕ) (ps : List Text) → c ≢ sep → All (Lacks sep) ps → All (Lacks sep) (onto_first c ps)
onto_first-Lacks c sep [] h all = ((h, tt), tt)
onto_first-Lacks c sep (p ∷ ps) h all = ((h, all.0), all.1)

-- No part holds the separator.
pub split-Lacks : (s : Text) (sep : ℕ) → All (Lacks sep) (split s sep)
unfolding split
split-Lacks [] sep = (tt, tt)
split-Lacks (c ∷ s) sep = ground (arith, split-Lacks s sep, onto_first-Lacks c sep (split s sep))

join-onto_first :
    (c sep : ℕ) (ps : List Text) → ps ≢ [] → join (onto_first c ps) sep ≡ c ∷ join ps sep
unfolding join
join-onto_first c sep [] h = absurd (h refl)
join-onto_first c sep (p ∷ []) h = refl
join-onto_first c sep (p ∷ q ∷ ps) h = refl

join_nil_first : (sep : ℕ) (ps : List Text) → ps ≢ [] → join ([] ∷ ps) sep ≡ sep ∷ join ps sep
unfolding join
join_nil_first sep [] h = absurd (h refl)
join_nil_first sep (p ∷ ps) h = refl

-- The parts spell the text.
pub join-split : (s : Text) (sep : ℕ) → join (split s sep) sep ≡ s
unfolding split
join-split [] sep = unfold join in refl
join-split (c ∷ s) sep = ground (
  arith,
  join-split s sep,
  join-onto_first c sep (split s sep),
  join_nil_first sep (split s sep),
  split-ne-nil s sep,
)

-- `strings.SplitN(s, sep, 2)`: the text before the first separator, and the text behind it, if
-- there is one.
unfoldable pub split_once : Text → ℕ → Text × Option Text
split_once [] sep = ([], none)
split_once (c ∷ s) sep =
    let (before, after) = split_once s sep in if c == sep then ([], some s) else (c ∷ before, after)

pub split_once-append :
    (p s : Text) (sep : ℕ) → Lacks sep p → split_once (p ++ sep ∷ s) sep ≡ (p, some s)
unfolding split_once
split_once-append [] s sep h = ground arith
split_once-append (c ∷ p) s sep h = ground (arith, split_once-append p s sep h.1)

split_once-Lacks : (p : Text) (sep : ℕ) → Lacks sep p → split_once p sep ≡ (p, none)
unfolding split_once
split_once-Lacks [] sep h = refl
split_once-Lacks (c ∷ p) sep h = ground (arith, split_once-Lacks p sep h.1)
