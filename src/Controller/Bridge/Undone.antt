-- ===== src/Controller/Bridge/Undone.antt =====
-- What undoes a command of the set-up: the namespace goes with all that is in it, a veth goes with
-- its peer in the namespace, and a link takes its addresses, neighbours, routes and settings along.
use chaos_tproxy.Prelude.{
  ◌≡◌, refl, List, [], ◌∷◌, Option, none, some, String, All, Some, ◌⊎◌, inl, inr,
}
use chaos_tproxy.Controller.Shell.{
  Command, Gateway, Act, command, list_routes, ask_gateway, ask_interfaces, announce, start_pings,
  delete_route, add_route, bind_socket, spawn_listener, spawn_proxy, stop_proxy, await_proxy,
  stop_server, await_server,
}
use chaos_tproxy.Controller.Commands.{
  NetEnv, arp_set, ip_netns_add, ip_netns_del, ip_link_add_bridge, bash_c, ip_link_del_bridge,
  ip_link_add_veth_peer, ip_netns, ip_link_set_up, ip_link_set_master, ip_address, ip_route_add,
}
use chaos_tproxy.Controller.Iptables.{clear_ebtables, set_iptables, set_iptables_safe}
use chaos_tproxy.Controller.Setup.{conf, sysctl, link_commands, address_commands, clear_commands}

-- What holds of a first element and of all others.
infixr 4 ◌▹◌
abbrev ◌▹◌ : {A B : Type 0} → A → B → A × B
a ▹ b = (a, b)

abbrev OneOf : List Command → Command → Type 0
OneOf cs c = Some (λ c'. c ≡ c') cs

module _ (env : NetEnv) where
  abbrev Clearing : Command → Type 0
  Clearing c = OneOf (clear_commands env) c

  -- The links of the host that the clean-up removes: a bridge that it deletes, and a veth whose peer
  -- was made in the namespace that it deletes.
  pub data IsRemoved (link : String) : Type 0 where
    bridge : Clearing (ip_link_del_bridge link) → IsRemoved link
    veth :
        (peer : String)
        → OneOf (link_commands env) (ip_link_add_veth_peer link none peer (some env.netns))
        → Clearing (ip_netns_del env.netns)
        → IsRemoved link

  pub data IsUndone : Command → Type 0 where
    made_namespace : Clearing (ip_netns_del env.netns) → IsUndone (ip_netns_add env.netns)
    in_namespace :
        (c : Command) → Clearing (ip_netns_del env.netns) → IsUndone (ip_netns env.netns c)
    made_bridge :
        (link : String) → Clearing (ip_link_del_bridge link) → IsUndone (ip_link_add_bridge link)
    made_veth :
        (link peer : String)
        → Clearing (ip_netns_del env.netns)
        → IsUndone (ip_link_add_veth_peer link none peer (some env.netns))
    set_up : (link : String) → IsRemoved link → IsUndone (ip_link_set_up link)
    configured : (link setting : String) → IsRemoved link → IsUndone (sysctl (conf link setting))
    in_bridge :
        (link master : String)
        → Clearing (ip_link_del_bridge master)
        → IsUndone (ip_link_set_master link master)
    addressed : (ip link : String) → IsRemoved link → IsUndone (ip_address "add" ip link)
    taken_address :
        (ip link : String)
        → Clearing (ip_address "add" ip link)
        → IsUndone (ip_address "del" ip link)
    neighbour : (ip mac link : String) → IsRemoved link → IsUndone (arp_set ip mac link)
    routed : (target ip link : String) → IsRemoved link → IsUndone (ip_route_add target ip link)
    frame_rule :
        (rule : Command)
        → Clearing clear_ebtables
        → IsUndone ("ebtables" ∷ "-t" ∷ "nat" ∷ "-A" ∷ rule)
    restored_resolver :
        Clearing (bash_c "cp /etc/resolv.conf.bak /etc/resolv.conf")
        → IsUndone (bash_c "cp /etc/resolv.conf.bak /etc/resolv.conf")

  -- What stays: the setting of the device itself, and the copy that the resolver is restored from.
  abbrev pub Stays : Command → Type 0
  Stays c =
      (c ≡ sysctl (conf env.device "arp_filter=1"))
      ⊎ (c ≡ bash_c "cp /etc/resolv.conf /etc/resolv.conf.bak")

  -- An act of the set-up: a command that is undone or stays, or an act of five kinds that are no
  -- commands, of which nothing is said.
  abbrev pub IsSetUp : Act → Type 0
  IsSetUp (command c) = IsUndone c ⊎ Stays c
  IsSetUp list_routes = Unit
  IsSetUp ask_gateway = Unit
  IsSetUp ask_interfaces = Unit
  IsSetUp (announce message) = Unit
  IsSetUp (start_pings pinger) = Unit
  IsSetUp (delete_route route) = Unit
  IsSetUp (add_route route) = ⊥
  IsSetUp (bind_socket path) = ⊥
  IsSetUp (spawn_listener path) = ⊥
  IsSetUp (spawn_proxy c) = ⊥
  IsSetUp stop_proxy = ⊥
  IsSetUp await_proxy = ⊥
  IsSetUp stop_server = ⊥
  IsSetUp await_server = ⊥

  abbrev pub AllSetUp : List Command → Type 0
  AllSetUp cs = All (λ c. IsSetUp (command c)) cs

  clears_namespace : Clearing (ip_netns_del env.netns)
  unfolding clear_commands
  clears_namespace = inl refl

  clears_bridge : Clearing (ip_link_del_bridge env.bridge1)
  unfolding clear_commands
  clears_bridge = inr (inl refl)

  gives_address : Clearing (ip_address "add" env.ip env.device)
  unfolding clear_commands
  gives_address = inr (inr (inl refl))

  restores_resolver : Clearing (bash_c "cp /etc/resolv.conf.bak /etc/resolv.conf")
  unfolding clear_commands
  restores_resolver = inr (inr (inr (inl refl)))

  flushes_frames : Clearing clear_ebtables
  unfolding clear_commands
  flushes_frames = inr (inr (inr (inr (inl refl))))

  removes_bridge1 : IsRemoved env.bridge1
  removes_bridge1 = bridge clears_bridge

  removes_veth1 : IsRemoved env.veth1
  unfolding link_commands
  removes_veth1 = veth env.veth2 (inr (inr (inr (inl refl)))) clears_namespace

  removes_veth4 : IsRemoved env.veth4
  unfolding link_commands
  removes_veth4 = veth env.veth3 (inr (inr (inr (inr (inr (inl refl)))))) clears_namespace

  -- A command in the namespace goes with it.
  inside : (c : Command) → IsSetUp (command (ip_netns env.netns c))
  inside c = inl (in_namespace c clears_namespace)

  pub link_commands-AllSetUp : AllSetUp (link_commands env)
  unfolding link_commands
  link_commands-AllSetUp =
      inr (inr refl)
      ▹ inl (made_namespace clears_namespace)
      ▹ inl (made_bridge env.bridge1 clears_bridge)
      ▹ inl (made_veth env.veth1 env.veth2 clears_namespace)
      ▹ inside (ip_link_add_bridge env.bridge2)
      ▹ inl (made_veth env.veth4 env.veth3 clears_namespace)
      ▹ inl (set_up env.bridge1 removes_bridge1)
      ▹ inl (configured env.bridge1 "arp_filter=1" removes_bridge1)
      ▹ inl (configured env.veth1 "arp_filter=1" removes_veth1)
      ▹ inr (inl refl)
      ▹ inl (set_up env.veth1 removes_veth1)
      ▹ inside (ip_link_set_up env.veth2)
      ▹ inside (ip_link_set_up env.bridge2)
      ▹ inside (ip_link_set_up env.veth3)
      ▹ inl (set_up env.veth4 removes_veth4)
      ▹ inl (in_bridge env.device env.bridge1 clears_bridge)
      ▹ inl (in_bridge env.veth1 env.bridge1 clears_bridge)
      ▹ inside (ip_link_set_master env.veth2 env.bridge2)
      ▹ inside (ip_link_set_master env.veth3 env.bridge2)
      ▹ inside (ip_link_set_up "lo")
      ▹ tt

  pub taken_address-IsSetUp : AllSetUp (ip_address "del" env.ip env.device ∷ [])
  taken_address-IsSetUp = (inl (taken_address env.ip env.device gives_address), tt)

  pub address_commands-AllSetUp :
      (gw : Gateway) (net_ip : String) → AllSetUp (address_commands env gw net_ip)
  unfolding address_commands
  address_commands-AllSetUp gw net_ip =
      inl (addressed env.ip env.veth4 removes_veth4)
      ▹ inl (neighbour gw.ip_text gw.mac_text env.veth1 removes_veth1)
      ▹ inl (neighbour gw.ip_text gw.mac_text env.veth4 removes_veth4)
      ▹ inside _
      ▹ inside _
      ▹ inl (routed "default" gw.ip_text env.veth4 removes_veth4)
      ▹ inside _
      ▹ inside _
      ▹ inside _
      ▹ inside _
      ▹ inside _
      ▹ inside _
      ▹ inside _
      ▹ inside _
      ▹ inside _
      ▹ inside _
      ▹ inside _
      ▹ tt

  pub last_neighbour-IsSetUp :
      (ip mac link : String) → AllSetUp (ip_netns env.netns (arp_set ip mac link) ∷ [])
  last_neighbour-IsSetUp ip mac link = (inside (arp_set ip mac link), tt)

  pub resolver-IsSetUp : IsSetUp (command (bash_c "cp /etc/resolv.conf.bak /etc/resolv.conf"))
  resolver-IsSetUp = inl (restored_resolver restores_resolver)

  pub set_iptables-AllSetUp :
      (proxy_ports : Option String) (listen_port device_mac : String)
      → AllSetUp (set_iptables env proxy_ports listen_port device_mac)
  unfolding set_iptables
  set_iptables-AllSetUp none listen_port device_mac =
      inside _
      ▹ inside _
      ▹ inside _
      ▹ inside _
      ▹ inside _
      ▹ inside _
      ▹ inl (frame_rule _ flushes_frames)
      ▹ tt
  set_iptables-AllSetUp (some ports) listen_port device_mac =
      inside _
      ▹ inside _
      ▹ inside _
      ▹ inside _
      ▹ inside _
      ▹ inside _
      ▹ inl (frame_rule _ flushes_frames)
      ▹ tt

  pub set_iptables_safe-AllSetUp :
      (device_mac : String) → AllSetUp (set_iptables_safe env device_mac)
  unfolding set_iptables_safe
  set_iptables_safe-AllSetUp device_mac =
      inside _ ▹ inside _ ▹ inside _ ▹ inside _ ▹ inl (frame_rule _ flushes_frames) ▹ tt
