-- ===== src/InitializeService/Connection.antt =====
-- When the test of the connection passes, and what that means for the operator's client.
use proxmox_operator.Base.{
  ◌≡◌, refl, ◌∷◌, ◌↔◌, inl, inr, List, [], none, Bool, true, false, arith, ◌&&◌, ◌||◌,
}
use proxmox_operator.Base.Text.{Text, is_empty, trim_space, trim_left}
use proxmox_operator.Base.Errors.{ok, Result-cases}
use proxmox_operator.Config.{Config}
use proxmox_operator.ProxmoxClient.{
  is_set, Client, make_client, new_proxmox_client, choose_options, new_proxmox_client_from_config,
}
use proxmox_operator.ProxmoxClient.Making.{client_of, preferred, client_with}
use proxmox_operator.World.{World, Log, ◌>>=◌, call, return}
use proxmox_operator.InitializeService.{
  has_credentials, has_token, tested_client, test_connection, check_proxmox_connection,
}

-- The settings name an endpoint and one way to authenticate.
abbrev pub complete : Config → Bool
complete c = is_set c.proxmox_endpoint && (has_credentials c || has_token c)

is_set-not_empty : (s : Text) → is_set s ≡ true → is_empty s ≡ false
unfolding is_set trim_space trim_left
is_set-not_empty [] h = absurd (ground arith)
is_set-not_empty (c ∷ s) h = refl

is_set-nil : is_set [] ≡ false
unfolding is_set trim_space trim_left
is_set-nil = refl

-- From complete settings the client is made, with the token if it is set.
tested_client-complete :
    (c : Config)
    → complete c ≡ true
    → client_of (tested_client c)
      ≡ client_with c.proxmox_endpoint c.proxmox_insecure_tls (
          preferred c.proxmox_username c.proxmox_password c.proxmox_token_id c.proxmox_token_secret)
unfolding tested_client new_proxmox_client make_client new_proxmox_client_from_config choose_options
tested_client-complete c h =
    ground
      (arith, is_set-nil, is_set-not_empty c.proxmox_username, is_set-not_empty c.proxmox_password)

tested_client-made : (c : Config) → complete c ≡ true → (k : Client) × (tested_client c ≡ ok k)
tested_client-made c h = elim (Result-cases (tested_client c)) [
  | inl (e, p) ↦ absurd (ground (arith, tested_client-complete c h))
  | inr (k, p) ↦ (k, p)
]

-- The test passes exactly if the settings are complete and the nodes are read without an error.
pub check_proxmox_connection_lem :
    (w : World) (log : Log)
    → ((check_proxmox_connection w log).0 ≡ none)
      ↔ ((complete w.config ≡ true) × (names : List Text) × (w.node_names_answer log ≡ ok names))
unfolding check_proxmox_connection test_connection ◌>>=◌ call return
check_proxmox_connection_lem w log = (
  λ h. elim (Result-cases (w.node_names_answer log)) [
    | inl (e, p) ↦ absurd (ground (arith, tested_client-made w.config))
    | inr (names, p) ↦ (ground arith, names, p)
  ],
  λ (c, names, p). let (k, q) = tested_client-made w.config c in ground arith,
)

-- What `main` makes its client of.
