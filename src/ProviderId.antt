-- ===== src/ProviderId.antt =====
-- internal/helpers/providerid/providerid.go: provider IDs of the form proxmox://node/vmID.
pub mod RoundTrip
use proxmox_operator.Base.{List, [], ◌∷◌, ◌++◌, Option, none, some, if◌then◌else◌}
use proxmox_operator.Base.Int.{ℤ}
use proxmox_operator.Base.Text.{Text, text, eq_text, is_empty}
use proxmox_operator.Base.Split.{split}
use proxmox_operator.Base.Decimal.{itoa, atoi}
use proxmox_operator.Base.Errors.{Result, ok, err, errorf}

abbrev provider_prefix : Text
provider_prefix = text "proxmox://"

-- `fmt.Sprintf("%s%s/%d", ProviderPrefix, node, vmID)`
unfoldable pub build : Text → ℤ → Text
build node vm_id = provider_prefix ++ node ++ b'/' ∷ itoa vm_id

-- The error message that names the provider ID.
abbrev bad_format : Text → Result (Text × ℤ)
bad_format provider_id = err (
    errorf
      (text "invalid ProviderID format: " ++ provider_id ++ text " (expected proxmox://node/vmID)"))

-- The vmID is the last part.
parse_vm_id : Text → Text → Result (Text × ℤ)
parse_vm_id node part = elim (atoi part) [
  | none ↦ err (errorf (text "invalid VM ID in ProviderID: " ++ part))
  | some vm_id ↦ ok (node, vm_id)
]

-- Four parts, the first of which is "proxmox:".
parse_parts : Text → List Text → Result (Text × ℤ)
unfolding parse_vm_id
parse_parts provider_id (scheme ∷ host ∷ node ∷ number ∷ []) =
    if eq_text scheme (text "proxmox:") then parse_vm_id node number else bad_format provider_id
parse_parts provider_id _ = bad_format provider_id

unfoldable pub parse : Text → Result (Text × ℤ)
unfolding parse_parts
parse provider_id =
    if is_empty provider_id
    then err (errorf (text "empty ProviderID"))
    else parse_parts provider_id (split provider_id b'/')
