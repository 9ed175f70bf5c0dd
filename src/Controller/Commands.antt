-- ===== src/Controller/Commands.antt =====
-- The names of the network environment and the command lines of
-- chaos-tproxy-controller/src/proxy/net/bridge.rs.
use chaos_tproxy.Prelude.{List, [], ◌∷◌, ◌++◌, Option, none, some, String}
use chaos_tproxy.Controller.Shell.{Command, Route}

pub record NetEnv : Type 0 where
  pub netns : String
  pub device : String
  pub ip : String
  pub bridge1 : String
  pub bridge2 : String
  pub veth1 : String
  pub veth2 : String
  pub veth3 : String
  pub veth4 : String
  pub save_routes : List Route

abbrev pub arp_set : String → String → String → Command
arp_set ip mac device = "arp" ∷ "-s" ∷ ip ∷ mac ∷ "-i" ∷ device ∷ []

abbrev pub ip_netns_add : String → Command
ip_netns_add name = "ip" ∷ "netns" ∷ "add" ∷ name ∷ []

abbrev pub ip_netns_del : String → Command
ip_netns_del name = "ip" ∷ "netns" ∷ "delete" ∷ name ∷ []

abbrev pub ip_link_add_bridge : String → Command
ip_link_add_bridge name = "ip" ∷ "link" ∷ "add" ∷ "name" ∷ name ∷ "type" ∷ "bridge" ∷ []

abbrev pub bash_c : String → Command
bash_c cmd = "sh" ∷ "-c" ∷ cmd ∷ []

abbrev pub ip_link_del_bridge : String → Command
ip_link_del_bridge name = "ip" ∷ "link" ∷ "delete" ∷ "dev" ∷ name ∷ "type" ∷ "bridge" ∷ []

-- `cmd.extend_from_slice(&["netns", netns])`, if there is one.
abbrev in_netns : Option String → Command
in_netns none = []
in_netns (some netns) = "netns" ∷ netns ∷ []

abbrev pub ip_link_add_veth_peer : String → Option String → String → Option String → Command
ip_link_add_veth_peer name1 netns1 name2 netns2 =
    "ip" ∷ "link" ∷ "add" ∷ name1 ∷ in_netns netns1
    ++ ("type" ∷ "veth" ∷ "peer" ∷ name2 ∷ in_netns netns2)

abbrev pub ip_netns : String → Command → Command
ip_netns netns cmdv = "ip" ∷ "netns" ∷ "exec" ∷ netns ∷ cmdv

abbrev pub ip_link_set_up : String → Command
ip_link_set_up name = "ip" ∷ "link" ∷ "set" ∷ name ∷ "up" ∷ []

abbrev pub ip_link_set_master : String → String → Command
ip_link_set_master name master = "ip" ∷ "link" ∷ "set" ∷ name ∷ "master" ∷ master ∷ []

abbrev pub ip_address : String → String → String → Command
ip_address action address device = "ip" ∷ "address" ∷ action ∷ address ∷ "dev" ∷ device ∷ []

abbrev pub ip_route_add : String → String → String → Command
ip_route_add target gateway_ip device =
    "ip" ∷ "route" ∷ "add" ∷ target ∷ "via" ∷ gateway_ip ∷ "dev" ∷ device ∷ "proto" ∷ "kernel"
    ∷ "onlink" ∷ []
