-- ===== src/NodeSelection.antt =====
-- internal/services/nodeselection/nodeselection.go: the node on which a VM is placed.
pub mod Choice
use proxmox_operator.Base.{
  ℕ, zero, suc, ◌<◌, List, [], ◌∷◌, ◌++◌, map, arith, length, Bool, false, ◌||◌, if◌then◌else◌,
}
use proxmox_operator.Base.Text.{Text, text, eq_text, is_empty, trim_space}
use proxmox_operator.Base.Split.{split}
use proxmox_operator.Base.Errors.{Result, ok, err, errorf}
use proxmox_operator.Config.{Config}

-- `rand.Intn`: for a positive bound a number below it.
pub record Random : Type 0 where
  pub intn : ℕ → ℕ
  pub intn_lt : (n : ℕ) → 0 < n → intn n < n

pub below_tail : {i n : ℕ} → suc i < suc n → i < n
below_tail h = omega arith

-- `xs[i]`, at an index in range.
unfoldable pub nth : (xs : List Text) (i : ℕ) → i < length xs → Text
nth [] i h = elim h [ ]
nth (x ∷ xs) zero h = x
nth (x ∷ xs) (suc i) h = nth xs i (below_tail h)

-- `slices.Contains(xs, x)`
unfoldable pub slice_contains : List Text → Text → Bool
slice_contains [] x = false
slice_contains (y ∷ ys) x = eq_text y x || slice_contains ys x

-- The loop of `filterAllowedNodes`.
unfoldable pub keep_allowed : List Text → List Text → List Text
keep_allowed allowed [] = []
keep_allowed allowed (node ∷ nodes) =
    let rest = keep_allowed allowed nodes in
    if slice_contains allowed node then node ∷ rest else rest

-- The entries of the comma-separated setting, without the blanks around them.
abbrev pub allowed_names : Text → List Text
allowed_names setting = map trim_space (split setting b',')

unfoldable pub filter_allowed_nodes : Config → List Text → List Text
filter_allowed_nodes cfg nodes =
    if is_empty cfg.proxmox_allowed_nodes
    then nodes
    else keep_allowed (allowed_names cfg.proxmox_allowed_nodes) nodes

pub length_pos : (c : Text) (cs : List Text) → 0 < length (c ∷ cs)
length_pos c cs = omega arith

module _ (r : Random) where
  -- `candidates[rand.Intn(len(candidates))]`
  abbrev random_node : Text → List Text → Text
  random_node c cs =
      nth (c ∷ cs) (r.intn (length (c ∷ cs))) (r.intn_lt (length (c ∷ cs)) (length_pos c cs))

  -- The candidates are `c ∷ cs`: the caller has checked that there is one.
  unfoldable pub select_by_strategy : Text → Text → List Text → Text
  select_by_strategy strategy c cs =
      if eq_text strategy (text "first")
      then c
      else if eq_text strategy (text "random")
      then random_node c cs
      else if eq_text strategy (text "round-robin")
      then random_node c cs
      else c

  -- The strategy is the setting, or "first" if it is empty.
  select_candidate : Config → List Text → Result Text
  select_candidate cfg [] =
      err (
        errorf (text "no allowed Proxmox nodes available from list: " ++ cfg.proxmox_allowed_nodes))
  select_candidate cfg (c ∷ cs) =
      let setting = cfg.proxmox_node_selection in
      let strategy = if is_empty setting then text "first" else setting in
      ok (select_by_strategy strategy c cs)

  unfoldable pub select_node : Config → List Text → Result Text
  unfolding select_candidate
  select_node cfg [] = err (errorf (text "no Proxmox nodes available"))
  select_node cfg (n ∷ ns) = select_candidate cfg (filter_allowed_nodes cfg (n ∷ ns))
