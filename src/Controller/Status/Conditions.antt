-- ===== src/Controller/Status/Conditions.antt =====
-- The conditions of a machine: what `setCondition` changes.
use proxmox_operator.Base.{
  ℕ, ◌≡◌, refl, inl, inr, List, [], ◌∷◌, true, false, if◌then◌else◌, Bool-cases, arith,
}
use proxmox_operator.Base.Text.{Text, text, eq_text, eq_text_refl}
use proxmox_operator.Crd.{Condition, Machine}
use proxmox_operator.Controller.Status.{put_ready, put_condition}

-- The conditions of another type than "Ready", in their order.
abbrev pub others : List Condition → List Condition
others [] = []
others (c ∷ cs) = if eq_text c.type (text "Ready") then others cs else c ∷ others cs

-- The first condition of the type "Ready" has this status, time, reason and message.
abbrev pub IsReady : ℕ → Text → Text → Text → List Condition → Type 0
IsReady now status reason message [] = ⊥
IsReady now status reason message (c ∷ cs) = elim (eq_text c.type (text "Ready")) [
  | true ↦
      (c.status ≡ status)
      × (c.last_transition_time ≡ now)
      × (c.reason ≡ reason)
      × (c.message ≡ message)
  | false ↦ IsReady now status reason message cs
]

put_ready-others :
    (new : Condition) (cs : List Condition)
    → eq_text new.type (text "Ready") ≡ true
    → others (put_ready new cs) ≡ others cs
unfolding put_ready
put_ready-others new [] h = ground arith
put_ready-others new (c ∷ cs) h = ground (arith, put_ready-others new cs h)

put_ready-IsReady :
    (new : Condition) (cs : List Condition)
    → eq_text new.type (text "Ready") ≡ true
    → IsReady new.last_transition_time new.status new.reason new.message (put_ready new cs)
unfolding put_ready
put_ready-IsReady new [] h = ground arith
put_ready-IsReady new (c ∷ cs) h = elim (Bool-cases (eq_text c.type (text "Ready"))) [
  | inl e ↦ ground arith
  | inr e ↦ ground (arith, put_ready-IsReady new cs h)
]

-- Setting the condition keeps the conditions of all other types, in their order, and the rest of the
-- machine's phase, message and IDs; afterwards the first condition of the type "Ready" has the new
-- status, time, reason and message.
pub put_condition_lem :
    (now : ℕ) (status reason message : Text) (m : Machine)
    → let s = (put_condition now status reason message m).status in
      (others s.conditions ≡ others m.status.conditions)
      × IsReady now status reason message s.conditions
      × (s.phase ≡ m.status.phase)
      × (s.message ≡ m.status.message)
      × (s.provider_id ≡ m.status.provider_id)
      × (s.machine_id ≡ m.status.machine_id)
unfolding put_condition
put_condition_lem now status reason message m = (
  put_ready-others _ _ (eq_text_refl (text "Ready")),
  put_ready-IsReady _ _ (eq_text_refl (text "Ready")),
  refl,
  refl,
  refl,
  refl,
)
