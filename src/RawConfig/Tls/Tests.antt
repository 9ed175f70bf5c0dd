-- ===== src/RawConfig/Tls/Tests.antt =====
-- Conversions of sample configurations with TLS.
use chaos_tproxy.Prelude.{◌≡◌, refl, false, [], ◌∷◌, none, some}
use chaos_tproxy.Outcome.{ok, err, empty_key, panicked}
use chaos_tproxy.External.Sample.{sample}
use chaos_tproxy.RawConfig.{contents, RawConfig}
use chaos_tproxy.RawConfig.Convert.{to_rules}
use chaos_tproxy.RawConfig.Tls.{Config, file_bytes, trust_roots, to_tls_config, to_config}
use chaos_tproxy.RawConfig.Tls.Sample.{sample_tls, raw_tls, made_tls}
use chaos_tproxy.RawConfig.Tls.Laws.{FitsRaw, to_config-FitsRaw}

no_key : to_tls_config sample_tls (record raw_tls { key_file = contents [] }) ≡ err empty_key
unfolding to_tls_config file_bytes
no_key = refl

-- A root that is no trust anchor is a panic.
bad_root :
    to_tls_config sample_tls (record raw_tls { ca_file = some (contents (0 ∷ [])) }) ≡ err panicked
unfolding to_tls_config file_bytes trust_roots
bad_root = refl

abbrev raw : RawConfig
raw = record {
  proxy_ports = none;
  listen_port = 1025;
  safe_mode = false;
  rules = [];
  role = none;
  tls = some raw_tls;
}

abbrev made : Config sample sample_tls
made = record {
  http_config = record { listen_port = 1025; rules = []; role = none };
  tls_config = some made_tls;
}

converts : to_config sample_tls sample raw ≡ ok made
unfolding to_config to_rules to_tls_config file_bytes trust_roots
converts = refl

to_config-FitsRaw_example : FitsRaw sample_tls sample raw made
to_config-FitsRaw_example = to_config-FitsRaw sample_tls sample raw made converts
