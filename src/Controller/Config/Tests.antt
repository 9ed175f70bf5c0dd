-- ===== src/Controller/Config/Tests.antt =====
-- A run of the conversion of chaos-tproxy-controller/src/proxy/config.rs, and the choice of the
-- interface that it rests on.
use chaos_tproxy.Prelude.{◌≡◌, refl, true, false, List, [], ◌∷◌, none, some, show_nat, join, arith}
use chaos_tproxy.Outcome.{ok}
use chaos_tproxy.Handler.Rule.{Role}
use chaos_tproxy.RawConfig.{RawConfig as ProxyRawConfig}
use chaos_tproxy.Controller.Ports.{free_from, get_free_port}
use chaos_tproxy.Controller.Net.{
  IpNetwork, NetworkInterface, get_default_interface, show_ipv4, get_ipv4,
}
use chaos_tproxy.Controller.Net.Laws.{Chooses, get_default_interface-Chooses}
use chaos_tproxy.Controller.Config.{RawConfig, RawRole, ipv4s_of, ports_text, to_proxy_config}
use chaos_tproxy.Controller.Config.PortsText.{read_ports, read_ports-ports_text}
use chaos_tproxy.Controller.Config.Laws.{Fits, to_proxy_config-Fits}

abbrev loopback : NetworkInterface
loopback = record {
  name = "lo";
  is_loopback = true;
  is_up = true;
  ips = IpNetwork.v4 2130706433 8 ∷ [];
  mac = none;
}

abbrev eth0 : NetworkInterface
eth0 = record {
  name = "eth0";
  is_loopback = false;
  is_up = true;
  ips = IpNetwork.v6 1 64 ∷ IpNetwork.v4 167772162 24 ∷ [];
  mac = none;
}

abbrev machine : List NetworkInterface
machine = loopback ∷ eth0 ∷ []

abbrev raw : RawConfig
raw = record {
  proxy_ports = some (1025 ∷ 1026 ∷ []);
  safe_mode = some true;
  rules = none;
  tls = none;
  role = some RawRole.client;
  interface = none;
  listen_port = none;
  proxy_mark = none;
  ignore_mark = none;
  route_table = none;
}

abbrev told : ProxyRawConfig
told = record {
  proxy_ports = some "1025,1026";
  listen_port = 1027;
  safe_mode = true;
  rules = [];
  role = some (Role.client (167772162 ∷ []));
  tls = none;
}

address_text : get_ipv4 eth0.ips ≡ some "10.0.0.2/24"
unfolding get_ipv4 show_ipv4 show_nat join
address_text = refl

converted : to_proxy_config machine raw ≡ ok told
unfolding to_proxy_config get_default_interface ipv4s_of get_free_port free_from ports_text show_nat
    join
converted = refl

to_proxy_config-Fits_example : Fits machine raw told
to_proxy_config-Fits_example = to_proxy_config-Fits machine raw told converted

default_is_eth0 : Chooses machine (get_default_interface machine)
default_is_eth0 = get_default_interface-Chooses machine

read_ports-ports_text_example : read_ports (ports_text (80 ∷ 443 ∷ [])) ≡ some (80 ∷ 443 ∷ [])
read_ports-ports_text_example = read_ports-ports_text (80 ∷ 443 ∷ []) (λ same. ground arith)
