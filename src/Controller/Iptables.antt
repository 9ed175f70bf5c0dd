-- ===== src/Controller/Iptables.antt =====
-- chaos-tproxy-controller/src/proxy/net/iptables.rs: the rules that send the traffic to the proxy.
pub mod Laws
mod Tests
use chaos_tproxy.Prelude.{List, [], ◌∷◌, Option, none, some, String}
use chaos_tproxy.Controller.Shell.{Command}
use chaos_tproxy.Controller.Commands.{NetEnv, ip_netns}

-- The rule that hands TCP packets to the port of the proxy: those to the proxied ports, or all.
abbrev pub redirect : NetEnv → Option String → String → Command
redirect env (some proxy_ports) listen_port = ip_netns env.netns (
    "iptables" ∷ "-t" ∷ "mangle" ∷ "-A" ∷ "PREROUTING" ∷ "-p" ∷ "tcp" ∷ "-m" ∷ "multiport"
    ∷ "--dports" ∷ proxy_ports ∷ "-j" ∷ "TPROXY" ∷ "--tproxy-mark" ∷ "0x1/0x1" ∷ "--on-port"
    ∷ listen_port ∷ [])
redirect env none listen_port = ip_netns env.netns (
    "iptables" ∷ "-t" ∷ "mangle" ∷ "-A" ∷ "PREROUTING" ∷ "-p" ∷ "tcp" ∷ "-j" ∷ "TPROXY"
    ∷ "--tproxy-mark" ∷ "0x1/0x1" ∷ "--on-port" ∷ listen_port ∷ [])

unfoldable pub set_iptables : NetEnv → Option String → String → String → List Command
set_iptables env proxy_ports listen_port device_mac =
    (ip_netns env.netns ("iptables" ∷ "-t" ∷ "mangle" ∷ "-N" ∷ "DIVERT" ∷ []))
    ∷ (ip_netns env.netns (
        "iptables" ∷ "-t" ∷ "mangle" ∷ "-A" ∷ "PREROUTING" ∷ "-p" ∷ "tcp" ∷ "-m" ∷ "socket" ∷ "-j"
        ∷ "DIVERT" ∷ []))
    ∷ (ip_netns env.netns
        ("iptables" ∷ "-t" ∷ "mangle" ∷ "-A" ∷ "DIVERT" ∷ "-j" ∷ "MARK" ∷ "--set-mark" ∷ "1" ∷ []))
    ∷ (ip_netns env.netns ("iptables" ∷ "-t" ∷ "mangle" ∷ "-A" ∷ "DIVERT" ∷ "-j" ∷ "ACCEPT" ∷ []))
    ∷ (redirect env proxy_ports listen_port)
    ∷ (ip_netns env.netns (
        "ebtables-legacy" ∷ "-t" ∷ "broute" ∷ "-A" ∷ "BROUTING" ∷ "-p" ∷ "IPv4" ∷ "--ip-proto" ∷ "6"
        ∷ "--ip-dport" ∷ "!" ∷ "22" ∷ "--ip-sport" ∷ "!" ∷ "22" ∷ "-j" ∷ "redirect"
        ∷ "--redirect-target" ∷ "DROP" ∷ []))
    ∷ ("ebtables" ∷ "-t" ∷ "nat" ∷ "-A" ∷ "PREROUTING" ∷ "-i" ∷ env.device ∷ "-j" ∷ "dnat"
        ∷ "--to-dst" ∷ device_mac ∷ "--dnat-target" ∷ "ACCEPT" ∷ [])
    ∷ []

unfoldable pub set_iptables_safe : NetEnv → String → List Command
set_iptables_safe env device_mac =
    (ip_netns env.netns (
      "iptables" ∷ "-t" ∷ "mangle" ∷ "-I" ∷ "PREROUTING" ∷ "-p" ∷ "tcp" ∷ "--dport" ∷ "81:1025"
      ∷ "-s" ∷ env.ip ∷ "-j" ∷ "ACCEPT" ∷ []))
    ∷ (ip_netns env.netns (
        "iptables" ∷ "-t" ∷ "mangle" ∷ "-I" ∷ "PREROUTING" ∷ "-p" ∷ "tcp" ∷ "--sport" ∷ "81:1025"
        ∷ "-d" ∷ env.ip ∷ "-j" ∷ "ACCEPT" ∷ []))
    ∷ (ip_netns env.netns (
        "iptables" ∷ "-t" ∷ "mangle" ∷ "-I" ∷ "PREROUTING" ∷ "-p" ∷ "tcp" ∷ "--dport" ∷ "1:81"
        ∷ "-s" ∷ env.ip ∷ "-j" ∷ "ACCEPT" ∷ []))
    ∷ (ip_netns env.netns (
        "iptables" ∷ "-t" ∷ "mangle" ∷ "-I" ∷ "PREROUTING" ∷ "-p" ∷ "tcp" ∷ "--sport" ∷ "1:81"
        ∷ "-d" ∷ env.ip ∷ "-j" ∷ "ACCEPT" ∷ []))
    ∷ ("ebtables" ∷ "-t" ∷ "nat" ∷ "-A" ∷ "PREROUTING" ∷ "-i" ∷ env.device ∷ "-j" ∷ "dnat"
        ∷ "--to-dst" ∷ device_mac ∷ "--dnat-target" ∷ "ACCEPT" ∷ [])
    ∷ []

abbrev pub clear_ebtables : Command
clear_ebtables = "ebtables" ∷ "-t" ∷ "nat" ∷ "-F" ∷ []
