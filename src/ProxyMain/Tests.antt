-- ===== src/ProxyMain/Tests.antt =====
-- A proxy process on the sample kernel.
use chaos_tproxy.Prelude.{◌≡◌, refl, ℕ, false, List, [], ◌∷◌, none, some}
use chaos_tproxy.Outcome.{Result, ok, library}
use chaos_tproxy.External.Sample.{sample}
use chaos_tproxy.RawConfig.{RawConfig}
use chaos_tproxy.RawConfig.Convert.{to_rules}
use chaos_tproxy.RawConfig.Tls.{Config, file_bytes, trust_roots, to_tls_config, to_config}
use chaos_tproxy.RawConfig.Tls.Sample.{sample_tls, raw_tls, made_tls}
use chaos_tproxy.Tcp.{connection_aborted, Kernel}
use chaos_tproxy.Tcp.Sample.{open_kernel}
use chaos_tproxy.Server.{Arrival, incoming, failure, Task}
use chaos_tproxy.Uds.{Uds, read_into}
use chaos_tproxy.ProxyMain.{SignalKind, proxy_main}
use chaos_tproxy.RawConfig.Tls.Laws.{FitsRaw}
use chaos_tproxy.ProxyMain.Laws.{ServesFor, proxy_main-Ends}

abbrev kernel : Kernel (Task sample sample_tls)
kernel = open_kernel

abbrev raw : RawConfig
raw = record {
  proxy_ports = some "80";
  listen_port = 1025;
  safe_mode = false;
  rules = [];
  role = none;
  tls = some raw_tls;
}

abbrev made : Config sample sample_tls
made = record {
  http_config = record { listen_port = 1025; rules = []; role = none };
  tls_config = some made_tls;
}

-- The socket delivers one byte, which stands for the configuration.
abbrev socket : Uds RawConfig
socket = record {
  bound = λ s path. ok 3;
  removed = λ s path. ok tt;
  connect = λ path. ok 5;
  read_to_end = λ stream buf. ok (1 ∷ []);
  to_vec = λ c. ok (1 ∷ []);
  from_slice = λ b. ok raw;
}

abbrev register : SignalKind → Result ℕ
register SignalKind.interrupt = ok 2
register SignalKind.terminate = ok 15

abbrev arrivals : List Arrival
arrivals =
    incoming 11
    ∷ failure (record { kind = connection_aborted; error = library "aborted" })
    ∷ incoming 12
    ∷ []

registers : (kind : SignalKind) → (n : ℕ) × (register kind ≡ ok n)
registers SignalKind.interrupt = (2, refl)
registers SignalKind.terminate = (15, refl)

converts : to_config sample_tls sample raw ≡ ok made
unfolding to_config to_rules to_tls_config file_bytes trust_roots
converts = refl

delivers : read_into socket (record { path = "/tmp/a.sock" }) [] ≡ ok raw
unfolding read_into
delivers = refl

proxy_main-Ends_example :
    FitsRaw sample_tls sample raw made
    × ServesFor sample sample_tls kernel socket made arrivals
        (proxy_main sample sample_tls kernel socket register "/tmp/a.sock" arrivals [])
proxy_main-Ends_example =
    proxy_main-Ends sample sample_tls kernel socket raw made register "/tmp/a.sock" arrivals
      registers converts delivers
