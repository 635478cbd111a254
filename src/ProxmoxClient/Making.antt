-- ===== src/ProxmoxClient/Making.antt =====
-- When a client is made, and with which authentication.
use proxmox_operator.Base.{
  ◌≡◌, Option, some, none, Bool-cases, inl, inr, List, [], ◌∷◌, Bool, true, false, not, ◌&&◌,
  if◌then◌else◌, arith,
}
use proxmox_operator.Base.Text.{Text, text, eq_text, is_empty, trim_space, trim_left}
use proxmox_operator.Crd.{MachineProvider, is_proxmox}
use proxmox_operator.Base.Errors.{Result, ok, err}
use proxmox_operator.ProxmoxClient.{
  is_set, ClientOption, with_endpoint, with_token, with_credentials, with_insecure_tls, Client,
  Authentication, token, credentials, make_client, new_proxmox_client, choose_options,
  new_proxmox_client_from_config, new_proxmox_client_from_provider,
}

abbrev pub client_of : Result Client → Option Client
client_of (ok c) = some c
client_of (err e) = none

-- The options for all that a client can be given.
abbrev pub all_options :
    (endpoint username password token_id token_secret : Text) → Bool → List ClientOption
all_options endpoint username password token_id token_secret insecure =
    with_endpoint endpoint
    ∷ with_credentials username password
    ∷ with_token token_id token_secret
    ∷ with_insecure_tls insecure
    ∷ []

-- The token if both parts of it are set, and otherwise the user name and the password if these are.
abbrev pub preferred : (username password token_id token_secret : Text) → Option Authentication
preferred username password token_id token_secret =
    if is_set token_id && is_set token_secret
    then some (token token_id token_secret)
    else if is_set username && is_set password
    then some (credentials username password)
    else none

abbrev pub client_with : Text → Bool → Option Authentication → Option Client
client_with endpoint insecure none = none
client_with endpoint insecure (some a) =
    some (record { url = endpoint; authentication = a; skips_verification = insecure })

-- A client is made exactly if the endpoint is set and the token with its secret or the user name with
-- the password; it then has this endpoint and TLS setting, and the token if both parts of it are set.
pub new_proxmox_client_lem :
    (endpoint username password token_id token_secret : Text) (insecure : Bool)
    → client_of
        (new_proxmox_client (all_options endpoint username password token_id token_secret insecure))
      ≡ (if is_set endpoint
          then client_with endpoint insecure (preferred username password token_id token_secret)
          else none)
unfolding new_proxmox_client make_client
new_proxmox_client_lem endpoint username password token_id token_secret insecure = ground arith

-- The text is empty or holds more than white space.
abbrev pub IsPlain : Text → Type 0
IsPlain s = is_set s ≡ not (is_empty s)

-- From texts none of which is blank without being empty, `NewProxmoxClientFromConfig` makes the client
-- that is made when all of them are given, or none as well.
pub new_proxmox_client_from_config_lem :
    (endpoint username password token_id token_secret : Text) (insecure : Bool)
    → IsPlain username
    → IsPlain password
    → IsPlain token_id
    → IsPlain token_secret
    → client_of
        (new_proxmox_client_from_config endpoint username password token_id token_secret insecure)
      ≡ client_of (
          new_proxmox_client
            (all_options endpoint username password token_id token_secret insecure))
unfolding new_proxmox_client_from_config choose_options new_proxmox_client make_client is_set
    trim_space trim_left
new_proxmox_client_from_config_lem endpoint username password token_id token_secret insecure a b c
      d =
    elim (Bool-cases (is_empty token_id)) [ inl e ↦ ground arith | inr e ↦ ground arith ]

-- With a token ID that is blank but not empty, and a secret that is not empty, it makes no client, even
-- where a user name and a password are given.
pub new_proxmox_client_from_config_blank :
    (endpoint username password token_id token_secret : Text) (insecure : Bool)
    → is_empty token_id ≡ false
    → is_set token_id ≡ false
    → is_empty token_secret ≡ false
    → client_of
        (new_proxmox_client_from_config endpoint username password token_id token_secret insecure)
      ≡ none
unfolding new_proxmox_client_from_config choose_options new_proxmox_client make_client is_set
    trim_space trim_left
new_proxmox_client_from_config_blank endpoint username password token_id token_secret insecure a b
      c =
    ground arith

-- The authentication that the provider's type of authentication asks for.
abbrev pub asked_for : MachineProvider → Authentication
asked_for s =
    if eq_text s.authentication_type (text "token")
    then token (s.parameters (text "tokenID")) (s.parameters (text "tokenSecret"))
    else credentials (s.parameters (text "username")) (s.parameters (text "password"))

-- A client made from a MachineProvider means that its type is that of Proxmox and its endpoint is set; the
-- client has the provider's endpoint and TLS setting, and the authentication of the type that it names:
-- the token for "token", and user name and password for every other type.
pub new_proxmox_client_from_provider_sound :
    (s : MachineProvider) (c : Client)
    → client_of (new_proxmox_client_from_provider s) ≡ some c
    → (is_proxmox s.provider_type ≡ true)
      × (is_set s.endpoint_url ≡ true)
      × (c.url ≡ s.endpoint_url)
      × (c.skips_verification ≡ s.insecure_skip_verify)
      × (c.authentication ≡ asked_for s)
unfolding new_proxmox_client_from_provider new_proxmox_client make_client is_set trim_space
    trim_left
new_proxmox_client_from_provider_sound s c h =
    (ground arith, ground arith, ground arith, ground arith, ground arith)
