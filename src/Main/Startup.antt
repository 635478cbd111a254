-- ===== src/Main/Startup.antt =====
-- When the operator starts.
use proxmox_operator.Base.{◌≡◌, Option, none, some, true, arith, ◌∙◌, inl, inr}
use proxmox_operator.Base.Errors.{ok, Result-cases}
use proxmox_operator.Config.{Config}
use proxmox_operator.ProxmoxClient.{Client}
use proxmox_operator.ProxmoxClient.Making.{
  preferred, client_with, IsPlain, new_proxmox_client_from_config_lem, new_proxmox_client_lem,
}
use proxmox_operator.World.{World, Log, ◌>>=◌, return}
use proxmox_operator.InitializeService.{check_proxmox_connection}
use proxmox_operator.InitializeService.Connection.{complete, check_proxmox_connection_lem}
use proxmox_operator.Main.{start_operator, check_prerequisites, operator_client}

-- None of the four texts for the authentication is blank without being empty.
abbrev pub AllPlain : Config → Type 0
AllPlain c =
    IsPlain c.proxmox_username
    × IsPlain c.proxmox_password
    × IsPlain c.proxmox_token_id
    × IsPlain c.proxmox_token_secret

-- What the settings ask for.
abbrev pub wanted : Config → Option Client
wanted c =
    client_with c.proxmox_endpoint c.proxmox_insecure_tls
      (preferred c.proxmox_username c.proxmox_password c.proxmox_token_id c.proxmox_token_secret)

operator_client-complete :
    (c : Config)
    → AllPlain c
    → complete c ≡ true
    → (k : Client) × (operator_client c ≡ ok k) × (wanted c ≡ some k)
operator_client-complete c (pu, pp, pt, ps) h =
    let chosen =
      new_proxmox_client_from_config_lem c.proxmox_endpoint c.proxmox_username c.proxmox_password
        c.proxmox_token_id c.proxmox_token_secret c.proxmox_insecure_tls pu pp pt ps
      ∙ new_proxmox_client_lem c.proxmox_endpoint c.proxmox_username c.proxmox_password
          c.proxmox_token_id c.proxmox_token_secret c.proxmox_insecure_tls in
    elim (Result-cases (operator_client c)) [
      | inl (e, p) ↦ absurd (ground (arith, chosen))
      | inr (k, p) ↦ (k, p, ground (arith, chosen))
    ]

-- Where the four texts for the authentication are empty or not blank, the CustomResourceDefinitions are
-- installed, the manager is made and the test of the connection passes, the operator starts: its client
-- has the endpoint and the TLS setting of the configuration, and the token if both parts of it are set,
-- else the user name and the password.
pub start_operator_starts :
    (w : World) (log : Log)
    → AllPlain w.config
    → (check_proxmox_connection w log).0 ≡ none
    → (k : Client) × ((start_operator w none none log).0 ≡ ok k) × (wanted w.config ≡ some k)
unfolding start_operator check_prerequisites ◌>>=◌ return
start_operator_starts w log plain h =
    let done = ((check_proxmox_connection_lem w log).0 h).0 in
    let (k, made, a) = operator_client-complete w.config plain done in (k, ground arith, a)
