-- ===== src/Controller/Config.antt =====
-- chaos-tproxy-controller/src/raw_config.rs and chaos-tproxy-controller/src/proxy/config.rs: from
-- the configuration that the user writes to the one that the proxy process is sent.
pub mod Laws
pub mod PortsText
mod Tests
use chaos_tproxy.Prelude.{
  ℕ, Bool, false, List, [], ◌∷◌, Option, none, some, String, map, show_nat, join,
}
use mathlib.Core.Option
use chaos_tproxy.Outcome.{Result, ok, err, no_default_ipv4}
use chaos_tproxy.Outcome.Results.{◌>>=◌}
use chaos_tproxy.Handler.Rule.{Ipv4Addr, Role}
use chaos_tproxy.RawConfig.{RawRule, TlsRawConfig, RawConfig as ProxyRawConfig}
use chaos_tproxy.RawConfig.Convert.{unwrap_or}
use chaos_tproxy.Controller.Ports.{get_free_port}
use chaos_tproxy.Controller.Net.{IpNetwork, v4, v6, NetworkInterface, get_default_interface}

pub data RawRole : Type 0 where
  client : RawRole
  server : RawRole

-- The last five options are read and have no effect. An `i32` is its 32-bit pattern.
pub record RawConfig : Type 0 where
  pub proxy_ports : Option (List ℕ)
  pub safe_mode : Option Bool
  pub rules : Option (List RawRule)
  pub tls : Option TlsRawConfig
  pub role : Option RawRole
  pub interface : Option String
  pub listen_port : Option ℕ
  pub proxy_mark : Option ℕ
  pub ignore_mark : Option ℕ
  pub route_table : Option ℕ

-- `filter_map` to the IPv4 networks, and `ip` of each.
unfoldable pub ipv4s_of : List IpNetwork → List Ipv4Addr
ipv4s_of [] = []
ipv4s_of (v4 ip prefix ∷ ips) = ip ∷ ipv4s_of ips
ipv4s_of (v6 ip prefix ∷ ips) = ipv4s_of ips

abbrev pub to_role : List Ipv4Addr → RawRole → Role
to_role ipv4s RawRole.client = Role.client ipv4s
to_role ipv4s RawRole.server = Role.server ipv4s

-- `if ipv4s.is_empty() { return Err }`
abbrev check_ipv4s : List Ipv4Addr → Result (List Ipv4Addr)
check_ipv4s [] = err no_default_ipv4
check_ipv4s (ip ∷ ips) = ok (ip ∷ ips)

unfoldable pub ports_text : List ℕ → String
ports_text ports = join "," (map show_nat ports)

-- `TryFrom<RawConfig> for Config`
unfoldable pub to_proxy_config : List NetworkInterface → RawConfig → Result ProxyRawConfig
to_proxy_config interfaces raw = do
  device ← get_default_interface interfaces
  ipv4s ← check_ipv4s (ipv4s_of device.ips)
  listen_port ← get_free_port raw.proxy_ports
  ok (record {
    proxy_ports = Option.map ports_text raw.proxy_ports;
    listen_port = listen_port;
    safe_mode = unwrap_or raw.safe_mode false;
    rules = unwrap_or raw.rules [];
    role = Option.map (to_role ipv4s) raw.role;
    tls = raw.tls;
  })
