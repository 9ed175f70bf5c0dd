-- ===== src/Controller/Setup.antt =====
-- The command lists of `setenv_bridge` and `clear_bridge` in
-- chaos-tproxy-controller/src/proxy/net/bridge.rs.
use Prim.Native.String
use chaos_tproxy.Prelude.{List, [], ◌∷◌, none, some, String}
use chaos_tproxy.Controller.Shell.{Command, Gateway}
use chaos_tproxy.Controller.Commands.{
  NetEnv, arp_set, ip_netns_add, ip_netns_del, ip_link_add_bridge, bash_c, ip_link_del_bridge,
  ip_link_add_veth_peer, ip_netns, ip_link_set_up, ip_link_set_master, ip_address, ip_route_add,
}
use chaos_tproxy.Controller.Iptables.{clear_ebtables}

-- `format!("net.ipv4.conf.{}.{}", device, setting)`
abbrev pub conf : String → String → String
conf device setting = String.◌++◌ "net.ipv4.conf." (String.◌++◌ device (String.◌++◌ "." setting))

abbrev pub sysctl : String → Command
sysctl setting = "sysctl" ∷ "-w" ∷ setting ∷ []

-- The first list of commands of `setenv_bridge`: the namespace, bridges and links.
unfoldable pub link_commands : NetEnv → List Command
link_commands env =
    bash_c "cp /etc/resolv.conf /etc/resolv.conf.bak"
    ∷ ip_netns_add env.netns
    ∷ ip_link_add_bridge env.bridge1
    ∷ ip_link_add_veth_peer env.veth1 none env.veth2 (some env.netns)
    ∷ ip_netns env.netns (ip_link_add_bridge env.bridge2)
    ∷ ip_link_add_veth_peer env.veth4 none env.veth3 (some env.netns)
    ∷ ip_link_set_up env.bridge1
    ∷ sysctl (conf env.bridge1 "arp_filter=1")
    ∷ sysctl (conf env.veth1 "arp_filter=1")
    ∷ sysctl (conf env.device "arp_filter=1")
    ∷ ip_link_set_up env.veth1
    ∷ ip_netns env.netns (ip_link_set_up env.veth2)
    ∷ ip_netns env.netns (ip_link_set_up env.bridge2)
    ∷ ip_netns env.netns (ip_link_set_up env.veth3)
    ∷ ip_link_set_up env.veth4
    ∷ ip_link_set_master env.device env.bridge1
    ∷ ip_link_set_master env.veth1 env.bridge1
    ∷ ip_netns env.netns (ip_link_set_master env.veth2 env.bridge2)
    ∷ ip_netns env.netns (ip_link_set_master env.veth3 env.bridge2)
    ∷ ip_netns env.netns (ip_link_set_up "lo")
    ∷ []

-- The second list: addresses, neighbours, routes and settings.
unfoldable pub address_commands : NetEnv → Gateway → String → List Command
address_commands env gw net_ip =
    ip_address "add" env.ip env.veth4
    ∷ arp_set gw.ip_text gw.mac_text env.veth1
    ∷ arp_set gw.ip_text gw.mac_text env.veth4
    ∷ ip_netns env.netns (arp_set gw.ip_text gw.mac_text env.veth2)
    ∷ ip_netns env.netns (arp_set gw.ip_text gw.mac_text env.bridge2)
    ∷ ip_route_add "default" gw.ip_text env.veth4
    ∷ ip_netns env.netns (ip_route_add "default" gw.ip_text env.bridge2)
    ∷ ip_netns env.netns (
        "ip"
        ∷ "route"
        ∷ "add"
        ∷ String.◌++◌ net_ip "/32"
        ∷ "dev"
        ∷ env.bridge2
        ∷ "proto"
        ∷ "kernel"
        ∷ [])
    ∷ ip_netns env.netns (sysctl "net.ipv4.ip_forward=1")
    ∷ ip_netns env.netns (sysctl "net.ipv4.ip_nonlocal_bind=1")
    ∷ ip_netns env.netns (sysctl (conf env.bridge2 "rp_filter=0"))
    ∷ ip_netns env.netns (sysctl (conf env.veth2 "rp_filter=0"))
    ∷ ip_netns env.netns (sysctl (conf env.veth3 "rp_filter=0"))
    ∷ ip_netns env.netns (sysctl "net.ipv4.conf.lo.rp_filter=0")
    ∷ ip_netns env.netns (sysctl "net.ipv4.conf.all.rp_filter=0")
    ∷ ip_netns env.netns ("ip" ∷ "rule" ∷ "add" ∷ "fwmark" ∷ "1" ∷ "lookup" ∷ "100" ∷ [])
    ∷ ip_netns env.netns
        ("ip" ∷ "route" ∷ "add" ∷ "local" ∷ "0.0.0.0/0" ∷ "dev" ∷ "lo" ∷ "table" ∷ "100" ∷ [])
    ∷ []

-- The commands that undo the environment, whatever state it is in.
unfoldable pub clear_commands : NetEnv → List Command
clear_commands env =
    ip_netns_del env.netns
    ∷ ip_link_del_bridge env.bridge1
    ∷ ip_address "add" env.ip env.device
    ∷ bash_c "cp /etc/resolv.conf.bak /etc/resolv.conf"
    ∷ clear_ebtables
    ∷ []
