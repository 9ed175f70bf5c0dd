-- ===== src/Delivery.antt =====
-- A configuration from the user to the service that handles a request: `TryFrom` of
-- chaos-tproxy-controller/src/proxy/config.rs, then that of chaos-tproxy-proxy/src/raw_config.rs in
-- the other process. What lies between them is the unix socket of Uds.
pub mod Selects
pub mod Rules
pub mod Laws
pub mod Whole
pub mod Sample
mod Tests
use chaos_tproxy.Prelude.{List, Option}
use chaos_tproxy.Outcome.{Result}
use chaos_tproxy.Outcome.Results.{◌>>=◌}
use chaos_tproxy.External.{Http}
use chaos_tproxy.Handler.Rule.{SocketAddr}
use chaos_tproxy.RawConfig.Tls.{Tls, TlsConfig, Config, to_config}
use chaos_tproxy.Controller.Config.{RawConfig, to_proxy_config}
use chaos_tproxy.Controller.Net.{NetworkInterface}

module _ (h : Http) (t : Tls) where
  abbrev pub delivered : List NetworkInterface → RawConfig → Result (Config h t)
  delivered interfaces raw = do told ← to_proxy_config interfaces raw; to_config t h told
