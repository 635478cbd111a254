-- ===== src/Controller/Create/Inputs.antt =====
-- machine_reconcile_phases.go, lines 361 to 422, and machine_controller.go, lines 694 to 818: what a VM is
-- created with, and the check of its image.
use proxmox_operator.Base.{
  ℕ, zero, suc, ◌+◌, ◌%◌, List, [], ◌∷◌, ◌++◌, Option, none, some, Bool, false, not, ◌||◌,
  if◌then◌else◌,
}
use proxmox_operator.Base.Int.{ℤ, pos, int64, ◌+ℤ◌}
use proxmox_operator.Base.Text.{Text, text, eq_text, is_empty, has_prefix}
use proxmox_operator.Base.Split.{split_once, join}
use proxmox_operator.Base.Errors.{Error, Result, ok, err, errorf, wrap}
use proxmox_operator.Crd.{Machine}
use proxmox_operator.MacAddress.{generate_mac_address}
use proxmox_operator.NodeSelection
use proxmox_operator.World.{
  World, get_network_namespace, list_network_namespaces, get_vm, get_node, get_storage, get_content,
  read_random, M, ◌>>=◌, return, call,
}

-- The sum of the bytes of the UID.
unfoldable pub sum_bytes : Text → ℕ
sum_bytes [] = 0
sum_bytes (c ∷ s) = c + sum_bytes s

abbrev pub max_attempts : ℕ
max_attempts = 100

-- The error of `selectNode` when the names cannot be read, and the choice among them otherwise.
abbrev pub choose : World → Result (List Text) → Result Text
choose w (ok names) = NodeSelection.select_node w.random w.config names
choose w (err e) = err (wrap (text "failed to get Proxmox nodes: ") e)

-- The list holds the text.
unfoldable pub is_listed : Text → List Text → Bool
is_listed x [] = false
is_listed x (y ∷ ys) = eq_text y x || is_listed x ys

-- The VLAN of the named NetworkNamespace, or the default if it cannot be read.
abbrev vlan_or : ℤ → Result ℤ → ℤ
vlan_or default (ok vlan) = vlan
vlan_or default (err e) = default

-- The VLAN of the first NetworkNamespace, or the default if there is none or the list cannot be read.
abbrev first_vlan_or : ℤ → Result (List ℤ) → ℤ
first_vlan_or default (ok []) = default
first_vlan_or default (ok (vlan ∷ vlans)) = vlan
first_vlan_or default (err e) = default

module _ (w : World) where
  -- `generateVMID`
  unfoldable pub generate_vmid : Machine → ℤ
  generate_vmid m = int64 (w.config.proxmox_vm_id_start +ℤ pos (sum_bytes m.uid % 1000))

  -- The loop of `findAvailableVMID` with `rounds` rounds left; 0 if no ID is free.
  unfoldable pub find_vmid : ℕ → ℕ → ℤ → Text → M ℤ
  find_vmid zero attempt base node = return (pos 0)
  find_vmid (suc rounds) attempt base node = do
    found ←
        call (w.vm_answer node (int64 (base +ℤ pos attempt)))
          (get_vm node (int64 (base +ℤ pos attempt)))
    elim found [
      | err e ↦ return (int64 (base +ℤ pos attempt))
      | ok vm ↦ elim vm [
        | none ↦ return (int64 (base +ℤ pos attempt))
        | some _ ↦ find_vmid rounds (attempt + 1) base node
      ]
    ]

  unfoldable pub find_available_vmid : Machine → Text → M ℤ
  find_available_vmid m node = find_vmid max_attempts 0 (generate_vmid m) node

  -- `generateMACAddress`
  unfoldable pub generate_mac : M (Result Text)
  generate_mac =
      if w.has_mac_generator
      then (call w.random_answer read_random >>= λ bytes.
          return (generate_mac_address w.config.mac_set bytes))
      else return (ok [])

  -- `getVLANTag`
  unfoldable pub get_vlan_tag : Machine → M ℤ
  get_vlan_tag m =
      if not (is_empty m.spec.network_namespace_name)
      then (call (w.vlan_answer m.namespace m.spec.network_namespace_name)
            (get_network_namespace m.namespace m.spec.network_namespace_name)
          >>= λ found. return (vlan_or w.config.proxmox_default_vlan found))
      else (call (w.vlans_answer m.namespace) (list_network_namespaces m.namespace) >>= λ found.
          return (first_vlan_or w.config.proxmox_default_vlan found))

  -- `getMTU`
  abbrev pub get_mtu : Machine → ℤ
  get_mtu m = w.config.proxmox_default_mtu

  -- The last step of `validateISO`: the contents of the storage.
  abbrev pub find_iso : Text → Text → M (Option Error)
  find_iso storage path = call w.content_answer get_content >>= λ content. elim content [
    | err e ↦
        return (some (wrap (text "failed to get storage content for " ++ storage ++ text ": ") e))
    | ok isos ↦
        if is_listed path isos
        then return none
        else return (
            some (
              errorf (
                text "ISO not found in storage "
                ++ storage
                ++ text ": "
                ++ path
                ++ text " (available: ["
                ++ join isos b' '
                ++ text "])")))
  ]

  abbrev pub find_storage : Text → Text → M (Option Error)
  find_storage storage path = call (w.storage_answer storage) (get_storage storage) >>= λ failure.
      elim failure [
        | some e ↦ return (some (wrap (text "failed to get storage " ++ storage ++ text ": ") e))
        | none ↦ find_iso storage path
      ]

  abbrev pub find_image : (node storage path : Text) → M (Option Error)
  find_image node storage path = call (w.node_answer node) (get_node node) >>= λ failure.
      elim failure [
        | some e ↦ return (some (wrap (text "failed to get node client: ") e))
        | none ↦ find_storage storage path
      ]

  -- `validateISO`; the result is its error.
  unfoldable pub validate_iso : Text → Text → M (Option Error)
  validate_iso node path =
      let (storage, rest) = split_once path b':' in
      if not (has_prefix path (text "local:")) then return none else elim rest [
        | none ↦ return (some (errorf (text "invalid ISO path format: " ++ path)))
        | some _ ↦ find_image node storage path
      ]
