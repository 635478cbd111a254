-- ===== src/ProxmoxClient.antt =====
-- internal/services/proxmox/client.go: how a client of the Proxmox API is configured. The client that the
-- library makes is what it is made of; the HTTP client's timeout is fixed.
pub mod Making
pub mod Calls
use proxmox_operator.Base.{List, [], ◌∷◌, ◌++◌, Bool, true, false, not, ◌&&◌, ◌||◌, if◌then◌else◌}
use proxmox_operator.Base.Text.{Text, text, eq_text, is_empty, trim_space}
use proxmox_operator.Crd.{MachineProvider, is_proxmox}
use proxmox_operator.Base.Errors.{Result, ok, err, errorf}

unfoldable pub is_set : Text → Bool
is_set s = not (is_empty (trim_space s))

pub record ClientConfig : Type 0 where
  pub endpoint : Text
  pub username : Text
  pub password : Text
  pub insecure : Bool
  pub token_id : Text
  pub token_secret : Text

abbrev empty_config : ClientConfig
empty_config = record {
  endpoint = [];
  username = [];
  password = [];
  insecure = false;
  token_id = [];
  token_secret = [];
}

-- The functional options.
pub data ClientOption : Type 0 where
  with_endpoint : Text → ClientOption
  with_credentials : Text → Text → ClientOption
  with_token : Text → Text → ClientOption
  with_insecure_tls : Bool → ClientOption

abbrev apply_option : ClientOption → ClientConfig → ClientConfig
apply_option (with_endpoint e) c = record c { endpoint = e }
apply_option (with_credentials u p) c = record c { username = u; password = p }
apply_option (with_token t s) c = record c { token_id = t; token_secret = s }
apply_option (with_insecure_tls b) c = record c { insecure = b }

abbrev apply_options : List ClientOption → ClientConfig → ClientConfig
apply_options [] c = c
apply_options (o ∷ os) c = apply_options os (apply_option o c)

pub data Authentication : Type 0 where
  token : Text → Text → Authentication
  credentials : Text → Text → Authentication

pub record Client : Type 0 where
  pub url : Text
  pub authentication : Authentication
  pub skips_verification : Bool

abbrev client_with : ClientConfig → Authentication → Result Client
client_with c a =
    ok (record { url = c.endpoint; authentication = a; skips_verification = c.insecure })

-- `NewProxmoxClient` behind the loop over the options.
unfoldable pub make_client : ClientConfig → Result Client
make_client c =
    if not (is_set c.endpoint)
    then err (errorf (text "endpoint is required"))
    else if not (is_set c.token_id) && not (is_set c.username)
    then err (errorf (text "authentication is required (either token or username/password)"))
    else if is_set c.token_id && is_set c.token_secret
    then client_with c (token c.token_id c.token_secret)
    else if is_set c.username && is_set c.password
    then client_with c (credentials c.username c.password)
    else err (errorf (text "either token (ID and secret) or username/password must be provided"))

unfoldable pub new_proxmox_client : List ClientOption → Result Client
new_proxmox_client opts = make_client (apply_options opts empty_config)

-- The options that `NewProxmoxClientFromConfig` chooses for the authentication.
unfoldable pub choose_options : Text → Text → Text → Text → List ClientOption
choose_options username password token_id token_secret =
    if not (is_empty token_id) && not (is_empty token_secret)
    then with_token token_id token_secret ∷ []
    else if not (is_empty username) && not (is_empty password)
    then with_credentials username password ∷ []
    else []

unfoldable pub new_proxmox_client_from_config :
    (endpoint username password token_id token_secret : Text) → Bool → Result Client
new_proxmox_client_from_config endpoint username password token_id token_secret insecure =
    new_proxmox_client (
      with_endpoint endpoint
      ∷ with_insecure_tls insecure
      ∷ choose_options username password token_id token_secret)

unfoldable pub new_proxmox_client_from_provider : MachineProvider → Result Client
new_proxmox_client_from_provider s =
    let token_id = s.parameters (text "tokenID") in
    let token_secret = s.parameters (text "tokenSecret") in
    let username = s.parameters (text "username") in
    let password = s.parameters (text "password") in
    let tls = with_insecure_tls s.insecure_skip_verify in
    if not (is_proxmox s.provider_type)
    then err (errorf (text "provider type is not proxmox"))
    else if eq_text s.authentication_type (text "token")
    then if is_empty token_id || is_empty token_secret
      then err (errorf (text "tokenID and tokenSecret required for token authentication"))
      else new_proxmox_client
          (with_endpoint s.endpoint_url ∷ with_token token_id token_secret ∷ tls ∷ [])
    else if is_empty username || is_empty password
    then err (errorf (text "username and password required for credentials authentication"))
    else new_proxmox_client
        (with_endpoint s.endpoint_url ∷ with_credentials username password ∷ tls ∷ [])
