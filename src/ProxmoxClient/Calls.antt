-- ===== src/ProxmoxClient/Calls.antt =====
-- internal/services/proxmox/client.go, lines 208 to 269: the calls of the client, over those of the library
-- go-proxmox. The library is a parameter, with a state that its calls may change. Its virtual machine may be
-- nil without an error, which is `none`.
use proxmox_operator.Base.{◌≡◌, ◌↔◌, inl, inr, List, map, Option, none, some, arith}
use proxmox_operator.Base.Int.{ℤ}
use proxmox_operator.Base.Text.{Text}
use proxmox_operator.Base.Errors.{Error, Result, ok, err, Result-cases}
use proxmox_operator.VmBuilder.{VmOption}

pub record Library : Type 1 where
  pub State : Type 0
  pub Node : Type 0
  pub VirtualMachine : Type 0
  pub Task : Type 0
  pub node : Text → State → Result Node × State
  pub new_virtual_machine : Node → ℤ → List VmOption → State → Result Task × State
  pub virtual_machine : Node → ℤ → State → Result (Option VirtualMachine) × State
  pub delete : Option VirtualMachine → State → Result Task × State
  pub start : Option VirtualMachine → State → Result Task × State
  pub stop : Option VirtualMachine → State → Result Task × State
  pub NodeStatus : Type 0
  pub node_name : NodeStatus → Text
  pub nodes : State → Result (List NodeStatus) × State

module _ (lib : Library) where
  abbrev pub L : Type 0 → Type 0
  L A = lib.State → Result A × lib.State

  -- An error is returned at once.
  abbrev go_on : {A B : Type 0} → Result A → (A → L B) → L B
  go_on (err e) f s = (err e, s)
  go_on (ok a) f s = f a s

  infixl 5 ◌>>=◌
  abbrev ◌>>=◌ : {A B : Type 0} → L A → (A → L B) → L B
  (m >>= f) s = let (r, s') = m s in go_on r f s'

  unfoldable pub create_vm : Text → ℤ → List VmOption → L lib.Task
  create_vm name vm_id options = lib.node name >>= λ n. lib.new_virtual_machine n vm_id options

  unfoldable pub get_vm : Text → ℤ → L (Option lib.VirtualMachine)
  get_vm name vm_id = lib.node name >>= λ n. lib.virtual_machine n vm_id

  unfoldable pub delete_vm : Text → ℤ → L lib.Task
  delete_vm name vm_id = get_vm name vm_id >>= lib.delete

  unfoldable pub start_vm : Text → ℤ → L lib.Task
  start_vm name vm_id = get_vm name vm_id >>= lib.start

  unfoldable pub stop_vm : Text → ℤ → L lib.Task
  stop_vm name vm_id = get_vm name vm_id >>= lib.stop

  abbrev names_of : Result (List lib.NodeStatus) → Result (List Text)
  names_of (err e) = err e
  names_of (ok nodes) = ok (map lib.node_name nodes)

  unfoldable pub get_node_names : L (List Text)
  get_node_names s = let (r, s') = lib.nodes s in (names_of r, s')

  abbrev error_of : {A : Type 0} → Result A → Option Error
  error_of (err e) = some e
  error_of (ok a) = none

  -- The result is its error.
  unfoldable pub test_connection : lib.State → Option Error × lib.State
  test_connection s = let (r, s') = lib.nodes s in (error_of r, s')

  -- The connection passes its test exactly if the names of the nodes can be read.
  test_connection-get_node_names :
      (s : lib.State)
      → ((test_connection s).0 ≡ none) ↔ ((names : List Text) × ((get_node_names s).0 ≡ ok names))
  unfolding test_connection get_node_names
  test_connection-get_node_names s = elim (Result-cases (lib.nodes s).0) [
    | inl (e, p) ↦ ((λ h. absurd (ground arith)), (λ (names, h). absurd (ground arith)))
    | inr (nodes, p) ↦
        ((λ h. (map lib.node_name nodes, ground arith)), (λ (names, h). ground arith))
  ]
