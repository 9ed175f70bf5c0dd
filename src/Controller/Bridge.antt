-- ===== src/Controller/Bridge.antt =====
-- `setenv_bridge` and `clear_bridge` of chaos-tproxy-controller/src/proxy/net/bridge.rs, and
-- `set_net` of set_net.rs beside it. What `rtnetlink`, `default_net` and `pnet` do is an act with
-- the machine's answer.
pub mod Laws
pub mod Undone
pub mod SetNet
mod Tests
use chaos_tproxy.Prelude.{
  ℕ, Bool, true, false, List, [], ◌∷◌, Option, none, some, String, str_eq, if◌then◌else◌, ◌==◌, all,
  filter, find, show_nat,
}
use chaos_tproxy.Outcome.{Error, Result, ok, err, library}
use chaos_tproxy.Outcome.Results.{unwrap, unwrap_result}
use chaos_tproxy.Controller.Net.{NetworkInterface, get_interface}
use chaos_tproxy.Controller.Shell.{
  Gateway, ask_gateway, ask_interfaces, History, Machine, Sh, proceed, ◌>>=◌, ◌>>◌, give, of_result,
  act, recover, execute, execute_all, execute_all_with_log_error,
}
use chaos_tproxy.Controller.Commands.{NetEnv, arp_set, bash_c, ip_netns, ip_address}
use chaos_tproxy.Controller.Iptables.{set_iptables, set_iptables_safe}
use chaos_tproxy.Controller.Routes.{
  is_kernel_route, try_get_default_gateway, get_routes_noblock, del_routes_noblock, load_routes,
}
use chaos_tproxy.Controller.Packets.{gratuitous_arp, try_ping}
use chaos_tproxy.Controller.Setup.{link_commands, address_commands, clear_commands}

abbrev found_or {ℓ} : {A : Type ℓ} → Error → Option A → Result A
found_or e none = err e
found_or e (some a) = ok a

module _ (m : Machine) where
  abbrev ask_for_interfaces : Sh (List NetworkInterface)
  ask_for_interfaces = act ask_interfaces (λ s. ok (m.interfaces s))

  unfoldable pub setenv_bridge : NetEnv → Sh (Unit {0})
  setenv_bridge env = do
    gw ← try_get_default_gateway m
    net_ip ← of_result (m.network_ip env.ip)
    execute_all m (link_commands env)
    execute_all_with_log_error m (ip_address "del" env.ip env.device ∷ [])
    execute_all m (address_commands env gw net_ip)
    interfaces ← ask_for_interfaces
    veth4 ←
        of_result (
          found_or (library "interface not found") (find (λ p. str_eq p.name env.veth4) interfaces))
    veth4_mac ← of_result (found_or (library "mac not found") veth4.mac)
    execute_all m (ip_netns env.netns (arp_set net_ip veth4_mac env.bridge2) ∷ [])
    all_routes ← get_routes_noblock m
    del_routes_noblock m (filter (is_kernel_route env.ip) all_routes)

  -- The end of `clear_bridge`: a gateway with no hardware address is left alone.
  abbrev pub restore_gateway : NetEnv → Gateway → Sh (Unit {0})
  restore_gateway env gw =
      if all (λ i. i == 0) gw.mac_octets
      then give tt
      else execute_all_with_log_error m (arp_set gw.ip_text gw.mac_text env.device ∷ [])

  unfoldable pub clear_bridge : NetEnv → Sh (Unit {0})
  clear_bridge env = do
    execute_all_with_log_error m (clear_commands env)
    routes ← recover (get_routes_noblock m) []
    recover (del_routes_noblock m routes) tt
    recover (load_routes m env.save_routes) tt
    gw ← try_get_default_gateway m
    restore_gateway env gw

  abbrev set_safe : Bool → NetEnv → String → Sh (Unit {0})
  set_safe true env mac = execute_all m (set_iptables_safe env mac)
  set_safe false env mac = give tt

  unfoldable pub set_net : NetEnv → Option String → ℕ → Bool → Sh (Unit {0})
  set_net env proxy_ports listen_port safe = do
    setenv_bridge env
    interfaces ← ask_for_interfaces
    device ← of_result (unwrap_result (get_interface env.veth4 interfaces))
    device_mac ← of_result (unwrap device.mac)
    arp_interface ← λ s. (unwrap (m.arp_interface s env.veth4), s)
    arp_ip ← of_result (unwrap arp_interface.ip)
    gratuitous_arp m arp_ip arp_interface.mac
    execute_all m (set_iptables env proxy_ports (show_nat listen_port) device_mac)
    set_safe safe env device_mac
    recover (execute m (bash_c "cp /etc/resolv.conf.bak /etc/resolv.conf")) tt
    gw ← act ask_gateway m.default_gateway
    try_ping m gw.ip_text
