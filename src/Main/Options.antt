-- ===== src/Main/Options.antt =====
-- cmd/main.go, lines 89 to 205: the flags, and the options of the manager and its two servers. The
-- parsing of the command line and the servers are the libraries'.
use proxmox_operator.Base.{List, [], ◌∷◌, Bool, true, false, not, if◌then◌else◌}
use proxmox_operator.Base.Text.{Text, text, is_empty}

pub record Flags : Type 0 where
  pub metrics_addr : Text
  pub probe_addr : Text
  pub enable_leader_election : Bool
  pub secure_metrics : Bool
  pub webhook_cert_path : Text
  pub webhook_cert_name : Text
  pub webhook_cert_key : Text
  pub metrics_cert_path : Text
  pub metrics_cert_name : Text
  pub metrics_cert_key : Text
  pub enable_http2 : Bool

-- Without any flag on the command line.
abbrev pub default_flags : Flags
default_flags = record {
  metrics_addr = text "0";
  probe_addr = text ":8081";
  enable_leader_election = false;
  secure_metrics = true;
  webhook_cert_path = text "";
  webhook_cert_name = text "tls.crt";
  webhook_cert_key = text "tls.key";
  metrics_cert_path = text "";
  metrics_cert_name = text "tls.crt";
  metrics_cert_key = text "tls.key";
  enable_http2 = false;
}

-- `tls.Config`, of which the options change the protocols only.
pub record TlsConfig : Type 0 where
  pub next_protos : List Text

abbrev pub TlsOptions : Type 0
TlsOptions = List (TlsConfig → TlsConfig)

unfoldable pub disable_http2 : TlsConfig → TlsConfig
disable_http2 c = record c { next_protos = text "http/1.1" ∷ [] }

unfoldable pub tls_opts : Flags → TlsOptions
tls_opts flags = if not flags.enable_http2 then disable_http2 ∷ [] else []

-- `webhook.Options`; an empty text is an option that is not given.
pub record WebhookOptions : Type 0 where
  pub tls_options : TlsOptions
  pub cert_dir : Text
  pub cert_name : Text
  pub key_name : Text

unfoldable pub webhook_server_options : Flags → WebhookOptions
webhook_server_options flags =
    let plain : WebhookOptions = record {
      tls_options = tls_opts flags;
      cert_dir = [];
      cert_name = [];
      key_name = [];
    } in
    if not (is_empty flags.webhook_cert_path)
    then record plain {
      cert_dir = flags.webhook_cert_path;
      cert_name = flags.webhook_cert_name;
      key_name = flags.webhook_cert_key;
    }
    else plain

-- `metricsserver.Options`; the filter is the one for authentication and authorization, if there is one.
pub record MetricsOptions : Type 0 where
  pub bind_address : Text
  pub secure_serving : Bool
  pub has_filter : Bool
  pub tls_options : TlsOptions
  pub cert_dir : Text
  pub cert_name : Text
  pub key_name : Text

unfoldable pub with_metrics_filter : Flags → MetricsOptions → MetricsOptions
with_metrics_filter flags o = if flags.secure_metrics then record o { has_filter = true } else o

unfoldable pub with_metrics_certificate : Flags → MetricsOptions → MetricsOptions
with_metrics_certificate flags o =
    if not (is_empty flags.metrics_cert_path)
    then record o {
      cert_dir = flags.metrics_cert_path;
      cert_name = flags.metrics_cert_name;
      key_name = flags.metrics_cert_key;
    }
    else o

unfoldable pub metrics_server_options : Flags → MetricsOptions
metrics_server_options flags = with_metrics_certificate flags (
    with_metrics_filter flags (record {
      bind_address = flags.metrics_addr;
      secure_serving = flags.secure_metrics;
      has_filter = false;
      tls_options = tls_opts flags;
      cert_dir = [];
      cert_name = [];
      key_name = [];
    }))

-- `ctrl.Options`
pub record ManagerOptions : Type 0 where
  pub metrics : MetricsOptions
  pub webhook_server : WebhookOptions
  pub health_probe_bind_address : Text
  pub leader_election : Bool
  pub leader_election_id : Text

unfoldable pub manager_options : Flags → ManagerOptions
manager_options flags = record {
  metrics = metrics_server_options flags;
  webhook_server = webhook_server_options flags;
  health_probe_bind_address = flags.probe_addr;
  leader_election = flags.enable_leader_election;
  leader_election_id = text "629d874f.vitistack.io";
}
