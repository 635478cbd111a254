-- ===== src/Tests/Startup.antt =====
-- The theorems on the start of the operator at concrete settings.
use proxmox_operator.Base.{
  arith, false, if◌then◌else◌, ◌≡◌, ◌↔◌, List, refl, [], ◌∷◌, Option, none, some, true,
}
use proxmox_operator.Base.Text.{eq_text, Text, text, trim_space}
use proxmox_operator.Base.Errors.{Error, ok}
use proxmox_operator.Config.{Config, default_config}
use proxmox_operator.Config.Printing.{
  is_secret, print_environment_settings, print_environment_settings_eq,
}
use proxmox_operator.Crd.{Vitistack}
use proxmox_operator.ProxmoxClient.{is_set, Client, token, new_proxmox_client_from_provider}
use proxmox_operator.ProxmoxClient.Making.{client_of}
use proxmox_operator.World.{World}
use proxmox_operator.InitializeService.{
  check_proxmox_connection, ensure_machine_provider, build_machine_provider_from_vitistack,
}
use proxmox_operator.InitializeService.Connection.{complete, check_proxmox_connection_lem}
use proxmox_operator.InitializeService.Provider.{
  Ensured, ensure_machine_provider-Ensured, build_machine_provider_from_vitistack-no_client,
}
use proxmox_operator.Main.{start_operator, Runtime, returned, main, operator_client}
use proxmox_operator.Main.Options.{default_flags, TlsConfig, manager_options}
use proxmox_operator.Main.Serving.{configure, left_protos, manager_options_lem}
use proxmox_operator.Main.Ending.{Works, main_lem}
use proxmox_operator.Main.Startup.{AllPlain, wanted, start_operator_starts}
use proxmox_operator.Tests.Data.{empty_cluster}

abbrev settings : Config
settings = record default_config {
  proxmox_endpoint = text "https://pve:8006/api2/json";
  proxmox_token_id = text "root@pam!operator";
  proxmox_token_secret = text "key";
}

abbrev north : Vitistack
north = record {
  name = text "north";
  display_name = text "North";
  region = text "no";
  zone = text "az1";
  infrastructure = text "prod";
  country = text "Norway";
}

-- The cluster with these settings and a Vitistack.
abbrev site : World
site = record empty_cluster { config = settings; vitistacks_answer = λ log. ok (north ∷ []) }

check_proxmox_connection_lem_example :
    ((check_proxmox_connection site []).0 ≡ none)
    ↔ ((complete settings ≡ true) × (names : List Text) × (site.node_names_answer [] ≡ ok names))
check_proxmox_connection_lem_example = check_proxmox_connection_lem site []

settings-complete : complete settings ≡ true
unfolding is_set trim_space text
settings-complete = refl

settings-AllPlain : AllPlain settings
unfolding is_set trim_space text
settings-AllPlain = (refl, refl, refl, refl)

start_operator_starts_example :
    (k : Client) × ((start_operator site none none []).0 ≡ ok k) × (wanted settings ≡ some k)
start_operator_starts_example =
    start_operator_starts site [] settings-AllPlain
      ((check_proxmox_connection_lem site []).1 (settings-complete, _, refl))

ensure_machine_provider-Ensured_example :
    Ensured site
      (text "proxmox")
      []
      (ensure_machine_provider site (text "proxmox") []).0
      (ensure_machine_provider site (text "proxmox") []).1
ensure_machine_provider-Ensured_example = ensure_machine_provider-Ensured site (text "proxmox") []

build_machine_provider_from_vitistack-no_client_example :
    client_of (
      new_proxmox_client_from_provider (
        build_machine_provider_from_vitistack
          (text "proxmox")
          settings
          (text "proxmox-provider")
          north))
    ≡ none
build_machine_provider_from_vitistack-no_client_example =
    build_machine_provider_from_vitistack-no_client (text "proxmox") settings
      (text "proxmox-provider") north

-- Two environments that differ in the password.
abbrev environment : Text → Text → Option Text
environment password key =
    if eq_text key (text "PROXMOX_PASSWORD") then some password else some (text "value")

same_public :
    (key : Text) → is_secret key ≡ false → environment (text "a") key ≡ environment (text "b") key
same_public key h = ground arith

print_environment_settings_eq_example :
    print_environment_settings (environment (text "a"))
    ≡ print_environment_settings (environment (text "b"))
print_environment_settings_eq_example =
    print_environment_settings_eq (environment (text "a")) (environment (text "b")) same_public

-- A manager whose calls all succeed.
abbrev working : Runtime
working = record {
  new_manager = λ o. none;
  complete = λ o. none;
  add_healthz_check = λ name. none;
  add_readyz_check = λ name. none;
  add_initializer = none;
  start = λ k. none;
}

abbrev no_error : Option Error
no_error = none

abbrev site_client : Client
site_client = record {
  url = settings.proxmox_endpoint;
  authentication = token settings.proxmox_token_id settings.proxmox_token_secret;
  skips_verification = false;
}

main_lem_example : ((main site working default_flags no_error []).0 ≡ returned site_client) ↔ (
    (no_error ≡ none)
    × ((check_proxmox_connection site []).0 ≡ none)
    × (working.new_manager (manager_options default_flags) ≡ none)
    × (operator_client settings ≡ ok site_client)
    × Works working settings site_client)
main_lem_example = main_lem site working default_flags no_error [] site_client

abbrev plain_http2 : TlsConfig
plain_http2 = record { next_protos = text "h2" ∷ [] }

manager_options_lem_example :
    let o = manager_options default_flags in
    ((configure o.metrics.tls_options plain_http2).next_protos
      ≡ left_protos default_flags (text "h2" ∷ []))
    × ((configure o.webhook_server.tls_options plain_http2).next_protos
        ≡ left_protos default_flags (text "h2" ∷ []))
    × (o.metrics.has_filter ≡ o.metrics.secure_serving)
    × (o.metrics.secure_serving ≡ default_flags.secure_metrics)
    × (o.metrics.cert_dir ≡ default_flags.metrics_cert_path)
    × (o.webhook_server.cert_dir ≡ default_flags.webhook_cert_path)
manager_options_lem_example = manager_options_lem default_flags plain_http2
