-- ===== src/Operator/Options.antt =====
-- The flags of operator/cmd/main.go, and the options that it builds from them for the webhook server,
-- the metrics server and the manager.
use android_device_farm.Common.{
  String, Bool, true, false, not, List, [], ◌∷◌, str_eq, if◌then◌else◌,
}

-- `crypto/tls.Config`, of which one field is set.
pub record TlsConfig : Type 0 where
  pub next_protos : List String

-- An option edits the configuration.
abbrev pub TlsOption : Type 0
TlsOption = TlsConfig → TlsConfig

pub record Flags : Type 0 where
  pub metrics_addr : String
  pub probe_addr : String
  pub enable_leader_election : Bool
  pub secure_metrics : Bool
  pub webhook_cert_path : String
  pub webhook_cert_name : String
  pub webhook_cert_key : String
  pub metrics_cert_path : String
  pub metrics_cert_name : String
  pub metrics_cert_key : String
  pub enable_http2 : Bool

abbrev pub default_flags : Flags
default_flags = record {
  metrics_addr = "0";
  probe_addr = ":8081";
  enable_leader_election = false;
  secure_metrics = true;
  webhook_cert_path = "";
  webhook_cert_name = "tls.crt";
  webhook_cert_key = "tls.key";
  metrics_cert_path = "";
  metrics_cert_name = "tls.crt";
  metrics_cert_key = "tls.key";
  enable_http2 = false;
}

-- The fields that `webhook.Options` and the metrics server's `Options` share.
pub record ServerOptions : Type 0 where
  pub tls_opts : List TlsOption
  pub cert_dir : String
  pub cert_name : String
  pub key_name : String

pub data FilterProvider : Type 0 where
  no_filter with_authentication_and_authorization : FilterProvider

pub record MetricsOptions : Type 0 where
  pub bind_address : String
  pub secure_serving : Bool
  pub server : ServerOptions
  pub filter_provider : FilterProvider

pub record ManagerOptions : Type 0 where
  pub metrics : MetricsOptions
  pub webhook : ServerOptions
  pub health_probe_bind_address : String
  pub leader_election : Bool
  pub leader_election_id : String

abbrev pub disable_http2 : TlsOption
disable_http2 c = record { next_protos = "http/1.1" ∷ [] }

unfoldable pub tls_options : Flags → List TlsOption
tls_options f = if not f.enable_http2 then disable_http2 ∷ [] else []

-- The options of a server, with the certificate where its path is given.
abbrev with_certificate : List TlsOption → String → String → String → ServerOptions
with_certificate opts path name key =
    if not (str_eq path "")
    then record { tls_opts = opts; cert_dir = path; cert_name = name; key_name = key }
    else record { tls_opts = opts; cert_dir = ""; cert_name = ""; key_name = "" }

unfoldable pub webhook_options : Flags → ServerOptions
unfolding tls_options
webhook_options f =
    with_certificate (tls_options f) f.webhook_cert_path f.webhook_cert_name f.webhook_cert_key

unfoldable pub metrics_options : Flags → MetricsOptions
unfolding tls_options
metrics_options f = record {
  bind_address = f.metrics_addr;
  secure_serving = f.secure_metrics;
  server =
      with_certificate (tls_options f) f.metrics_cert_path f.metrics_cert_name f.metrics_cert_key;
  filter_provider = if f.secure_metrics then with_authentication_and_authorization else no_filter;
}

unfoldable pub manager_options : Flags → ManagerOptions
unfolding webhook_options metrics_options
manager_options f = record {
  metrics = metrics_options f;
  webhook = webhook_options f;
  health_probe_bind_address = f.probe_addr;
  leader_election = f.enable_leader_election;
  leader_election_id = "2580d846.example.com";
}
