-- ===== src/Tests/Clients.antt =====
-- The theorems on the client of the Proxmox API at concrete data.
use proxmox_operator.Base.{◌≡◌, refl, some, none, true, []}
use proxmox_operator.Base.Text.{Text, text, eq_text, trim_space}
use proxmox_operator.Crd.{MachineProvider, proxmox, is_proxmox}
use proxmox_operator.ProxmoxClient.{
  is_set, Client, new_proxmox_client, new_proxmox_client_from_config, make_client,
  new_proxmox_client_from_provider,
}
use proxmox_operator.ProxmoxClient.Making.{
  client_of, all_options, asked_for, new_proxmox_client_from_config_lem,
  new_proxmox_client_from_config_blank, new_proxmox_client_from_provider_sound,
}

abbrev url : Text
url = text "https://pve:8006/api2/json"

abbrev by_name : MachineProvider
by_name = record {
  name = text "proxmox";
  labels = [];
  display_name = [];
  region = [];
  zones = [];
  default_tags = [];
  provider_type = proxmox;
  endpoint_url = url;
  insecure_skip_verify = true;
  authentication_type = text "credentials";
  parameters = λ key. text "root";
}

new_proxmox_client_from_config_lem_example :
    client_of (new_proxmox_client_from_config url (text "root") (text "pw") [] (text "key") true)
    ≡ client_of
        (new_proxmox_client (all_options url (text "root") (text "pw") [] (text "key") true))
new_proxmox_client_from_config_lem_example =
    new_proxmox_client_from_config_lem url (text "root") (text "pw") [] (text "key") true
      (unfold is_set trim_space text in refl) (unfold is_set trim_space text in refl)
      (unfold is_set trim_space text in refl) (unfold is_set trim_space text in refl)

new_proxmox_client_from_config_blank_example :
    client_of
      (new_proxmox_client_from_config url (text "root") (text "pw") (text " ") (text "key") true)
    ≡ none
new_proxmox_client_from_config_blank_example =
    new_proxmox_client_from_config_blank url (text "root") (text "pw") (text " ") (text "key") true
      (unfold text in refl) (unfold is_set trim_space text in refl) (unfold text in refl)

abbrev named_client : Client
named_client = record { url = url; authentication = asked_for by_name; skips_verification = true }

made_by_name : client_of (new_proxmox_client_from_provider by_name) ≡ some named_client
unfolding new_proxmox_client_from_provider eq_text text new_proxmox_client make_client is_set
    trim_space
made_by_name = refl

new_proxmox_client_from_provider_sound_example :
    (is_proxmox by_name.provider_type ≡ true)
    × (is_set by_name.endpoint_url ≡ true)
    × (named_client.url ≡ by_name.endpoint_url)
    × (named_client.skips_verification ≡ by_name.insecure_skip_verify)
    × (named_client.authentication ≡ asked_for by_name)
new_proxmox_client_from_provider_sound_example =
    new_proxmox_client_from_provider_sound by_name named_client made_by_name
