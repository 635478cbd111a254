-- ===== src/NodeSelection/Choice.antt =====
-- Which node is chosen, and when none is.
use mathlib.Core.Bool.{false≢true}
use mathlib.Core.List.{Memᴰ}
use mathlib.Core.Path.{subst}
use proxmox_operator.Base.{
  ℕ, zero, suc, ◌<◌, ◌≡◌, refl, ◌⊎◌, inl, inr, List, [], ◌∷◌, arith, length, Bool-cases, true,
  false, sym, ap,
}
use proxmox_operator.Base.Text.{
  Text, text, eq_text, eq_text_iff, eq_text_refl, is_empty, is_empty-cases,
}
use proxmox_operator.Base.Errors.{ok}
use proxmox_operator.Config.{Config}
use proxmox_operator.NodeSelection.{
  Random, below_tail, nth, slice_contains, keep_allowed, allowed_names, filter_allowed_nodes,
  select_by_strategy, random_node, select_candidate, select_node,
}

-- The node may be used: no list of allowed nodes is set, or the node's name is an entry of it.
abbrev pub IsAllowed : Config → Text → Type 0
IsAllowed cfg node =
    (cfg.proxmox_allowed_nodes ≡ []) ⊎ Memᴰ node (allowed_names cfg.proxmox_allowed_nodes)

nth-Memᴰ : (xs : List Text) (i : ℕ) (h : i < length xs) → Memᴰ (nth xs i h) xs
unfolding nth
nth-Memᴰ [] i h = elim h [ ]
nth-Memᴰ (x ∷ xs) zero h = Memᴰ.head refl
nth-Memᴰ (x ∷ xs) (suc i) h = Memᴰ.tail (nth-Memᴰ xs i (below_tail h))

module _ (r : Random) (strategy c : Text) (cs : List Text) where
  random-Memᴰ : Memᴰ (random_node r c cs) (c ∷ cs)
  random-Memᴰ = nth-Memᴰ (c ∷ cs) _ _

  select_by_strategy-Memᴰ : Memᴰ (select_by_strategy r strategy c cs) (c ∷ cs)
  unfolding select_by_strategy
  select_by_strategy-Memᴰ = elim (Bool-cases (eq_text strategy (text "first"))) [
    | inl p ↦ rw p (Memᴰ.head refl)
    | inr p ↦ elim (Bool-cases (eq_text strategy (text "random"))) [
      | inl q ↦ rw (p, q) random-Memᴰ
      | inr q ↦ elim (Bool-cases (eq_text strategy (text "round-robin"))) [
        | inl s ↦ rw (p, q, s) random-Memᴰ
        | inr s ↦ rw (p, q, s) (Memᴰ.head refl)
      ]
    ]
  ]

slice_contains-Memᴰ : (xs : List Text) (x : Text) → slice_contains xs x ≡ true → Memᴰ x xs
unfolding slice_contains
slice_contains-Memᴰ [] x h = absurd (false≢true h)
slice_contains-Memᴰ (y ∷ ys) x h = elim (Bool-cases (eq_text y x)) [
  | inl e ↦ Memᴰ.head (sym ((eq_text_iff y x).0 e))
  | inr e ↦ Memᴰ.tail (slice_contains-Memᴰ ys x (rw e at h))
]

Memᴰ-slice_contains : (xs : List Text) (x : Text) → Memᴰ x xs → slice_contains xs x ≡ true
unfolding slice_contains
Memᴰ-slice_contains [] x m = elim m [ ]
Memᴰ-slice_contains (y ∷ ys) x (Memᴰ.head e) = rw (e, eq_text_refl y)
Memᴰ-slice_contains (y ∷ ys) x (Memᴰ.tail m) = ground (arith, Memᴰ-slice_contains ys x m)

keep_allowed-Memᴰ :
    (allowed nodes : List Text) (x : Text)
    → Memᴰ x (keep_allowed allowed nodes)
    → Memᴰ x nodes × Memᴰ x allowed
unfolding keep_allowed
keep_allowed-Memᴰ allowed [] x m = elim m [ ]
keep_allowed-Memᴰ allowed (n ∷ ns) x m = elim (Bool-cases (slice_contains allowed n)) [
  | inl e ↦ kept (slice_contains-Memᴰ allowed n e) (keep_allowed-Memᴰ allowed ns x) (rw e at m)
  | inr e ↦ let (there, may) = keep_allowed-Memᴰ allowed ns x (rw e at m) in (Memᴰ.tail there, may)
]
  where
    kept :
        Memᴰ n allowed
        → (Memᴰ x (keep_allowed allowed ns) → Memᴰ x ns × Memᴰ x allowed)
        → Memᴰ x (n ∷ keep_allowed allowed ns)
        → Memᴰ x (n ∷ ns) × Memᴰ x allowed
    kept a ih (Memᴰ.head e) = (Memᴰ.head e, rw e a)
    kept a ih (Memᴰ.tail t) = let (there, may) = ih t in (Memᴰ.tail there, may)

filter_allowed_nodes-IsAllowed :
    (cfg : Config) (nodes : List Text) (x : Text)
    → Memᴰ x (filter_allowed_nodes cfg nodes)
    → Memᴰ x nodes × IsAllowed cfg x
unfolding filter_allowed_nodes
filter_allowed_nodes-IsAllowed cfg nodes x m = elim (is_empty-cases cfg.proxmox_allowed_nodes) [
  | inl e ↦ (rw (ap is_empty e) at m, inl e)
  | inr e ↦
      let (there, may) =
        keep_allowed-Memᴰ (allowed_names cfg.proxmox_allowed_nodes) nodes x (rw e at m) in
      (there, inr may)
]

keep_allowed-complete :
    (allowed nodes : List Text) (x : Text)
    → Memᴰ x nodes
    → Memᴰ x allowed
    → Memᴰ x (keep_allowed allowed nodes)
unfolding keep_allowed
keep_allowed-complete allowed [] x m a = elim m [ ]
keep_allowed-complete allowed (n ∷ ns) x (Memᴰ.head e) a =
    rw (Memᴰ-slice_contains allowed n (rw e at a)) (Memᴰ.head e)
keep_allowed-complete allowed (n ∷ ns) x (Memᴰ.tail m) a =
    elim (Bool-cases (slice_contains allowed n)) [
      | inl e ↦ rw e (Memᴰ.tail (keep_allowed-complete allowed ns x m a))
      | inr e ↦ rw e (keep_allowed-complete allowed ns x m a)
    ]

filter_allowed_nodes-complete :
    (cfg : Config) (nodes : List Text) (x : Text)
    → Memᴰ x nodes
    → IsAllowed cfg x
    → Memᴰ x (filter_allowed_nodes cfg nodes)
unfolding filter_allowed_nodes
filter_allowed_nodes-complete cfg nodes x m (inl e) = rw (ap is_empty e) m
filter_allowed_nodes-complete cfg nodes x m (inr a) =
    elim (is_empty-cases cfg.proxmox_allowed_nodes) [
      | inl e ↦ rw (ap is_empty e) m
      | inr e ↦ rw e (keep_allowed-complete (allowed_names cfg.proxmox_allowed_nodes) nodes x m a)
    ]

ok-injective : (a b : Text) → ok a ≡ ok b → a ≡ b
ok-injective a b h = cc

select_candidate-Memᴰ :
    (r : Random) (cfg : Config) (candidates : List Text) (node : Text)
    → select_candidate r cfg candidates ≡ ok node
    → Memᴰ node candidates
unfolding select_candidate
select_candidate-Memᴰ r cfg [] node h = absurd (cc)
select_candidate-Memᴰ r cfg (c ∷ cs) node h =
    subst (λ x. Memᴰ x (c ∷ cs)) (ok-injective _ node h) (select_by_strategy-Memᴰ r _ c cs)

select_candidate_complete :
    (r : Random) (cfg : Config) (candidates : List Text) (x : Text)
    → Memᴰ x candidates
    → (chosen : Text) × (select_candidate r cfg candidates ≡ ok chosen)
unfolding select_candidate
select_candidate_complete r cfg [] x m = elim m [ ]
select_candidate_complete r cfg (c ∷ cs) x m = (_, refl)

-- The node that `SelectNode` returns is one of the nodes it was given and may be used, whatever the
-- strategy is and whatever is drawn.
pub select_node-IsAllowed :
    (r : Random) (cfg : Config) (nodes : List Text) (node : Text)
    → select_node r cfg nodes ≡ ok node
    → Memᴰ node nodes × IsAllowed cfg node
unfolding select_node
select_node-IsAllowed r cfg [] node h = absurd (cc)
select_node-IsAllowed r cfg (n ∷ ns) node h =
    filter_allowed_nodes-IsAllowed cfg (n ∷ ns) node (select_candidate-Memᴰ r cfg _ node h)

-- `SelectNode` returns a node as soon as one of the nodes it was given may be used.
pub select_node_complete :
    (r : Random) (cfg : Config) (nodes : List Text) (node : Text)
    → Memᴰ node nodes
    → IsAllowed cfg node
    → (chosen : Text) × (select_node r cfg nodes ≡ ok chosen)
unfolding select_node
select_node_complete r cfg [] node m a = elim m [ ]
select_node_complete r cfg (n ∷ ns) node m a =
    select_candidate_complete r cfg _ node (filter_allowed_nodes-complete cfg (n ∷ ns) node m a)

select_by_strategy_first :
    (r : Random) (strategy c : Text) (cs : List Text)
    → eq_text strategy (text "random") ≡ false
    → eq_text strategy (text "round-robin") ≡ false
    → select_by_strategy r strategy c cs ≡ c
unfolding select_by_strategy
select_by_strategy_first r strategy c cs p q = elim (Bool-cases (eq_text strategy (text "first"))) [
  | inl e ↦ rw e
  | inr e ↦ rw (e, p, q)
]

select_candidate_first :
    (r : Random) (cfg : Config) (c : Text) (cs : List Text)
    → eq_text cfg.proxmox_node_selection (text "random") ≡ false
    → eq_text cfg.proxmox_node_selection (text "round-robin") ≡ false
    → select_candidate r cfg (c ∷ cs) ≡ ok c
unfolding select_candidate
select_candidate_first r cfg c cs p q = elim (is_empty-cases cfg.proxmox_node_selection) [
  | inl e ↦ rw (ap is_empty e) (
      ap ok (
        select_by_strategy_first r (text "first") c cs (unfold eq_text text in refl)
          (unfold eq_text text in refl)))
  | inr e ↦ rw e (ap ok (select_by_strategy_first r cfg.proxmox_node_selection c cs p q))
]

-- Under the strategy "first", under none and under any that is neither "random" nor "round-robin", the
-- choice is the first of the nodes that may be used, whatever is drawn.
pub select_node_first :
    (r : Random) (cfg : Config) (n : Text) (ns : List Text) (c : Text) (cs : List Text)
    → filter_allowed_nodes cfg (n ∷ ns) ≡ c ∷ cs
    → eq_text cfg.proxmox_node_selection (text "random") ≡ false
    → eq_text cfg.proxmox_node_selection (text "round-robin") ≡ false
    → select_node r cfg (n ∷ ns) ≡ ok c
unfolding select_node
select_node_first r cfg n ns c cs e p q = rw e (select_candidate_first r cfg c cs p q)
