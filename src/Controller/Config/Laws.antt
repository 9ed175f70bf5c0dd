-- ===== src/Controller/Config/Laws.antt =====
-- What the proxy process is told, for each part of the user's configuration.
use chaos_tproxy.Prelude.{◌≡◌, refl, ◌≢◌, ◌≤◌, ◌<◌, List, [], ◌∷◌, false, arith, subst}
use mathlib.Core.Option
use chaos_tproxy.Outcome.{ok}
use chaos_tproxy.Outcome.Results.{ok_parts, ok-injective}
use chaos_tproxy.Handler.Rule.{Ipv4Addr}
use chaos_tproxy.RawConfig.{RawConfig as ProxyRawConfig}
use chaos_tproxy.RawConfig.Convert.{unwrap_or}
use chaos_tproxy.Controller.Ports.{get_free_port, FirstFree, IsFree, get_free_port-FirstFree}
use chaos_tproxy.Controller.Net.{NetworkInterface, get_default_interface}
use chaos_tproxy.Controller.Config.{
  RawConfig, ipv4s_of, to_role, check_ipv4s, to_proxy_config, ports_text,
}

-- The configuration of the proxy process fits that of the user.
pub record Fits (interfaces : List NetworkInterface) (raw : RawConfig) (c : ProxyRawConfig)
    : Type 0 where
  -- The proxy does not listen on a port that it takes over.
  pub listens_apart : IsFree raw.proxy_ports c.listen_port
  pub port_bounds : (1025 ≤ c.listen_port) × (c.listen_port < 65535)
  -- The proxy takes over ports exactly if the user names them.
  pub ports_told : c.proxy_ports ≡ Option.map ports_text raw.proxy_ports
  pub rules_told : c.rules ≡ unwrap_or raw.rules []
  pub safe_mode_told : c.safe_mode ≡ unwrap_or raw.safe_mode false
  pub tls_told : c.tls ≡ raw.tls
  -- A role is about the IPv4 addresses of the default interface, of which there is one.
  pub device : NetworkInterface
  pub device_is_default : get_default_interface interfaces ≡ ok device
  pub has_ipv4 : ipv4s_of device.ips ≢ []
  pub role_told : c.role ≡ Option.map (to_role (ipv4s_of device.ips)) raw.role

check_ipv4s-ok :
    (ips found : List Ipv4Addr) → check_ipv4s ips ≡ ok found → (ips ≢ []) × (ips ≡ found)
check_ipv4s-ok [] found e = cc
check_ipv4s-ok (ip ∷ ips) found e = (λ n. ground arith, cc)

-- A configuration that converts fits the user's: the proxy listens apart from the ports that it
-- takes over, and has the user's ports, rules, mode and certificates, and the role on the IPv4
-- addresses of the default interface.
pub to_proxy_config-Fits :
    (interfaces : List NetworkInterface) (raw : RawConfig) (c : ProxyRawConfig)
    → to_proxy_config interfaces raw ≡ ok c
    → Fits interfaces raw c
unfolding to_proxy_config
to_proxy_config-Fits interfaces raw c e =
    let (device, found, e₁) = ok_parts (get_default_interface interfaces) _ e in
    let (ipv4s, checked, e₂) = ok_parts (check_ipv4s (ipv4s_of device.ips)) _ e₁ in
    let (port, free, e₃) = ok_parts (get_free_port raw.proxy_ports) _ e₂ in
    let (some_ipv4, same) = check_ipv4s-ok _ _ checked in
    let (low, high, apart, least) =
      subst (FirstFree 1025 65535 raw.proxy_ports) free (get_free_port-FirstFree raw.proxy_ports) in
    subst (Fits interfaces raw) (ok-injective e₃) (record {
      listens_apart = apart;
      port_bounds = (low, high);
      ports_told = refl;
      rules_told = refl;
      safe_mode_told = refl;
      tls_told = refl;
      device = device;
      device_is_default = found;
      has_ipv4 = some_ipv4;
      role_told = rw same;
    })
