-- ===== src/Main/Serving.antt =====
-- What the flags make of the two servers.
use proxmox_operator.Base.{◌≡◌, List, [], ◌∷◌, arith, if◌then◌else◌}
use proxmox_operator.Base.Text.{Text, text, nil_of_is_empty}
use proxmox_operator.Main.Options.{
  Flags, TlsConfig, TlsOptions, disable_http2, tls_opts, webhook_server_options,
  with_metrics_filter, with_metrics_certificate, metrics_server_options, manager_options,
}

-- A server applies the options, one after the other.
abbrev pub configure : TlsOptions → TlsConfig → TlsConfig
configure [] c = c
configure (o ∷ os) c = configure os (o c)

-- The protocols that are left of those a server has on its own.
abbrev pub left_protos : Flags → List Text → List Text
left_protos flags own = if flags.enable_http2 then own else text "http/1.1" ∷ []

metrics_server_options-cert_dir :
    (flags : Flags) → (metrics_server_options flags).cert_dir ≡ flags.metrics_cert_path
unfolding metrics_server_options with_metrics_filter with_metrics_certificate
metrics_server_options-cert_dir flags = ground (arith, nil_of_is_empty flags.metrics_cert_path)

webhook_server_options-cert_dir :
    (flags : Flags) → (webhook_server_options flags).cert_dir ≡ flags.webhook_cert_path
unfolding webhook_server_options
webhook_server_options-cert_dir flags = ground (arith, nil_of_is_empty flags.webhook_cert_path)

-- Whatever protocols the servers have on their own, the metrics server and the webhook server speak HTTP/1.1
-- only, unless HTTP/2 is enabled, when they keep their own. The metrics are behind authentication and authorization
-- exactly if they are served by TLS. A server is given a certificate's folder exactly if the
-- flag names one, and it is that one.
pub manager_options_lem :
    (flags : Flags) (own : TlsConfig)
    → let o = manager_options flags in
      ((configure o.metrics.tls_options own).next_protos ≡ left_protos flags own.next_protos)
      × ((configure o.webhook_server.tls_options own).next_protos
          ≡ left_protos flags own.next_protos)
      × (o.metrics.has_filter ≡ o.metrics.secure_serving)
      × (o.metrics.secure_serving ≡ flags.secure_metrics)
      × (o.metrics.cert_dir ≡ flags.metrics_cert_path)
      × (o.webhook_server.cert_dir ≡ flags.webhook_cert_path)
unfolding manager_options metrics_server_options webhook_server_options with_metrics_filter
    with_metrics_certificate tls_opts disable_http2
manager_options_lem flags own = (
  ground arith,
  ground arith,
  ground arith,
  ground arith,
  metrics_server_options-cert_dir flags,
  webhook_server_options-cert_dir flags,
)
