-- ===== src/InitializeService.antt =====
-- internal/services/initializeservice/initializeservice.go: the test of the connection at the start, and
-- the MachineProvider that the operator writes for itself. The file's `isSet` is that of the client.
pub mod Connection
pub mod Provider
use proxmox_operator.Base.{
  List, [], ◌∷◌, ◌++◌, Option, none, some, Bool, not, ◌&&◌, ◌||◌, if◌then◌else◌,
}
use proxmox_operator.Base.Text.{Text, text, eq_text, is_empty}
use proxmox_operator.Base.Errors.{Error, Result, ok, err, errorf, wrap, is_not_found}
use proxmox_operator.Config.{Config}
use proxmox_operator.Crd.{Vitistack, MachineProvider, proxmox}
use proxmox_operator.ProxmoxClient.{
  is_set, Client, with_endpoint, with_token, with_insecure_tls, new_proxmox_client,
  new_proxmox_client_from_config,
}
use proxmox_operator.World.{
  World, get_node_names, list_vitistacks, get_provider, create_provider, M, ◌>>=◌, return, call,
}

abbrev pub has_credentials : Config → Bool
has_credentials c = is_set c.proxmox_username && is_set c.proxmox_password

abbrev pub has_token : Config → Bool
has_token c = is_set c.proxmox_token_id && is_set c.proxmox_token_secret

-- The client that is tested: with the token if both parts of it are set.
unfoldable pub tested_client : Config → Result Client
tested_client c =
    if has_token c
    then new_proxmox_client (
        with_endpoint c.proxmox_endpoint
        ∷ with_token c.proxmox_token_id c.proxmox_token_secret
        ∷ with_insecure_tls c.proxmox_insecure_tls
        ∷ [])
    else new_proxmox_client_from_config c.proxmox_endpoint c.proxmox_username c.proxmox_password []
        [] c.proxmox_insecure_tls

-- The name under which the operator's MachineProvider is shown.
abbrev shown_name : Text → Vitistack → Text
shown_name name v =
    if eq_text (text "Proxmox Provider - " ++ v.display_name) (text "Proxmox Provider - ")
    then text "Proxmox Provider - " ++ name
    else text "Proxmox Provider - " ++ v.display_name

abbrev country_tag : Text → List (Text × Text)
country_tag country = if is_empty country then [] else (text "country", country) ∷ []

-- `buildMachineProviderFromVitiStack`, where `proxmox_type` is the text of
-- `MachineProviderTypeProxmox`. The new object has no parameters for its authentication.
unfoldable pub build_machine_provider_from_vitistack :
    (proxmox_type : Text) → Config → (name : Text) → Vitistack → MachineProvider
build_machine_provider_from_vitistack proxmox_type c provider_name v = record {
  name = provider_name;
  labels =
      (text "vitistack.io/vitistack", v.name)
      ∷ (text "vitistack.io/provider-type", proxmox_type)
      ∷ (text "vitistack.io/operator", text "proxmox-operator")
      ∷ [];
  provider_type = proxmox;
  display_name = shown_name provider_name v;
  region = v.region;
  zones = if is_empty v.zone then [] else v.zone ∷ [];
  endpoint_url = c.proxmox_endpoint;
  insecure_skip_verify = c.proxmox_insecure_tls;
  authentication_type = text "token";
  parameters = λ key. [];
  default_tags =
      (text "vitistack", v.name)
      ∷ (text "region", v.region)
      ∷ (text "infrastructure", v.infrastructure)
      ∷ country_tag v.country;
}

module _ (w : World) where
  -- `TestConnection` of the client: the names of the nodes are asked for, and only an error counts.
  unfoldable pub test_connection : M (Option Error)
  test_connection = call w.node_names_answer get_node_names >>= λ answer. elim answer [
    | ok names ↦ return none
    | err e ↦ return (some e)
  ]

  abbrev connected : Option Error → M (Option Error)
  connected none = return none
  connected (some e) = return (some (wrap (text "failed to connect to Proxmox: ") e))

  -- `CheckProxmoxConnection`; the result is its error.
  unfoldable pub check_proxmox_connection : M (Option Error)
  check_proxmox_connection =
      if not (is_set w.config.proxmox_endpoint)
      then return (some (errorf (text "proxmox configuration incomplete: endpoint is required")))
      else if not (has_credentials w.config) && not (has_token w.config)
      then return (
          some (
            errorf (
              text
                "proxmox configuration incomplete: either username/password or token authentication is required")))
      else elim (tested_client w.config) [
        | err e ↦ return (some (wrap (text "failed to create Proxmox client: ") e))
        | ok client ↦ test_connection >>= connected
      ]

  abbrev pub provider_created : Option Error → M (Option Error)
  provider_created none = return none
  provider_created (some e) = return (some (wrap (text "failed to create MachineProvider: ") e))

  -- The answer to the look-up of the provider: only one that is not found is created.
  abbrev pub create_missing :
      (proxmox_type name : Text) → Vitistack → Option Error → M (Option Error)
  create_missing proxmox_type name v none = return none
  create_missing proxmox_type name v (some e) =
      if not (is_not_found e)
      then return (some (wrap (text "failed to check existing MachineProvider: ") e))
      else call
          (w.provider_created_answer
            (build_machine_provider_from_vitistack proxmox_type w.config name v))
          (create_provider (build_machine_provider_from_vitistack proxmox_type w.config name v))
        >>= provider_created

  -- `EnsureMachineProvider` from the first Vitistack on.
  unfoldable pub ensure_for : (proxmox_type name : Text) → Vitistack → M (Option Error)
  ensure_for proxmox_type name v =
      call (w.provider_answer name) (get_provider name) >>= create_missing proxmox_type name v

  abbrev pub ensure_from : Text → Result (List Vitistack) → M (Option Error)
  ensure_from proxmox_type (err e) = return none
  ensure_from proxmox_type (ok []) = return none
  ensure_from proxmox_type (ok (v ∷ vs)) = ensure_for proxmox_type w.config.name_machine_provider v

  -- `EnsureMachineProvider`; the result is its error.
  unfoldable pub ensure_machine_provider : (proxmox_type : Text) → M (Option Error)
  ensure_machine_provider proxmox_type =
      if is_empty w.config.name_machine_provider
      then return none
      else call w.vitistacks_answer list_vitistacks >>= ensure_from proxmox_type
