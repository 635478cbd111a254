-- ===== src/NetworkConfiguration/Calls.antt =====
-- The calls with which a machine's NetworkConfiguration is created and deleted.
use proxmox_operator.Base.{
  ◌≡◌, refl, ◌⊎◌, inl, inr, List, ◌∷◌, Option, none, some, true, Bool-cases, Option-cases, arith,
}
use proxmox_operator.Base.Int.{ℤ}
use proxmox_operator.Base.Text.{Text}
use proxmox_operator.Base.Errors.{Error, ok, err, is_not_found, Result-cases}
use proxmox_operator.Crd.{Machine}
use proxmox_operator.NetworkConfiguration.{build_netconf, create, delete}
use proxmox_operator.World.{
  World, Log, get_netconf, create_netconf, delete_netconf, ◌>>=◌, call, return,
}

-- Creating the resource without an error leaves one there: it was read, or it was not found and the
-- request to create it, under the machine's name and with its MAC address and VLAN, was accepted.
pub create_succeeds :
    (w : World) (m : Machine) (mac : Text) (vlan : ℤ) (log : Log)
    → (create w m mac vlan log).0 ≡ none
    → let after = (create w m mac vlan log).1 in
      ((a : List (List Text)) × (after ≡ get_netconf m.namespace m.name (ok a) ∷ log))
      ⊎ ((e : Error) × (is_not_found e ≡ true)
          × (after
              ≡ create_netconf (build_netconf m mac vlan) none
                ∷ get_netconf m.namespace m.name (err e)
                ∷ log))
unfolding create ◌>>=◌ call return
create_succeeds w m mac vlan log h = elim (Result-cases (w.netconf_answer m.namespace m.name log)) [
  | inr (a, p) ↦ inl (a, ground arith)
  | inl (e, p) ↦ elim (Bool-cases (is_not_found e)) [
    | inl b ↦ inr (e, b, ground arith)
    | inr b ↦ absurd (ground arith)
  ]
]

-- Deleting it without an error leaves none: it was not found, or it was read and the request to delete it
-- was accepted, or answered that it is not found.
pub delete_succeeds :
    (w : World) (m : Machine) (log : Log)
    → (delete w m log).0 ≡ none
    → let after = (delete w m log).1 in
      ((e : Error) × (is_not_found e ≡ true)
        × (after ≡ get_netconf m.namespace m.name (err e) ∷ log))
      ⊎ ((a : List (List Text)) × (answer : Option Error) × ((answer ≡ none)
            ⊎ ((e : Error) × (answer ≡ some e) × (is_not_found e ≡ true)))
          × (after
              ≡ delete_netconf m.namespace m.name answer
                ∷ get_netconf m.namespace m.name (ok a)
                ∷ log))
unfolding delete ◌>>=◌ call return
delete_succeeds w m log h = elim (Result-cases (w.netconf_answer m.namespace m.name log)) [
  | inl (e, p) ↦ elim (Bool-cases (is_not_found e)) [
    | inl b ↦ inl (e, b, ground arith)
    | inr b ↦ absurd (ground arith)
  ]
  | inr (a, p) ↦
      elim (Option-cases (
        w.netconf_deleted_answer m.namespace m.name
          (get_netconf m.namespace m.name (ok a) ∷ log))) [
            | inl q ↦ inr (a, none, inl refl, ground arith)
            | inr (e, q) ↦ elim (Bool-cases (is_not_found e)) [
              | inl b ↦ inr (a, some e, inr (e, refl, b), ground arith)
              | inr b ↦ absurd (ground arith)
            ]
          ]
]
