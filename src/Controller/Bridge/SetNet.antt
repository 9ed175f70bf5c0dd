-- ===== src/Controller/Bridge/SetNet.antt =====
-- What setting the network up adds to the history, and which commands the clean-up undoes.
use chaos_tproxy.Prelude.{◌≡◌, ℕ, Bool, true, false, ◌++◌, Option, String, All}
use chaos_tproxy.Outcome.{ok}
use chaos_tproxy.Outcome.Adds.{Adds, Adds-refl, Adds-act, Adds-proceed, Adds-answer, Adds-recovered}
use chaos_tproxy.Controller.Shell.{Act, History, Machine}
use chaos_tproxy.Controller.Shell.Laws.{acts_of}
use chaos_tproxy.Controller.Shell.Adds.{
  execute-Adds, execute_all-Adds, execute_all_with_log_error-Adds,
}
use chaos_tproxy.Controller.Commands.{NetEnv}
use chaos_tproxy.Controller.Routes.Adds.{
  try_get_default_gateway-Adds, get_routes_noblock-Adds, del_routes_noblock-Adds,
}
use chaos_tproxy.Controller.Packets.Adds.{gratuitous_arp-Adds, try_ping-Adds}
use chaos_tproxy.Controller.Setup.{clear_commands}
use chaos_tproxy.Controller.Bridge.{setenv_bridge, clear_bridge, set_safe, set_net}
use chaos_tproxy.Controller.Bridge.Laws.{clear_bridge-runs}
use chaos_tproxy.Controller.Bridge.Undone.{
  IsSetUp, link_commands-AllSetUp, taken_address-IsSetUp, address_commands-AllSetUp,
  last_neighbour-IsSetUp, resolver-IsSetUp, set_iptables-AllSetUp, set_iptables_safe-AllSetUp,
}

module _ (m : Machine) (env : NetEnv) where
  abbrev P : Act → Type 0
  P = IsSetUp env

  setenv_bridge-Adds : (s : History) → Adds P s (setenv_bridge m env s)
  unfolding setenv_bridge
  setenv_bridge-Adds s =
      search
        (
          Adds-proceed P,
          Adds-answer P,
          try_get_default_gateway-Adds P m,
          execute_all-Adds P m,
          execute_all_with_log_error-Adds P m,
          link_commands-AllSetUp env,
          taken_address-IsSetUp env,
          address_commands-AllSetUp env,
          last_neighbour-IsSetUp env,
          Adds-act P,
          get_routes_noblock-Adds P m,
          del_routes_noblock-Adds P m,
        )
        depth 20 fits 3000

  set_safe-Adds : (safe : Bool) (mac : String) (s : History) → Adds P s (set_safe m safe env mac s)
  set_safe-Adds true mac s = execute_all-Adds P m _ s (set_iptables_safe-AllSetUp env mac)
  set_safe-Adds false mac s = Adds-refl P s (ok tt)

  pub set_net-Adds :
      (proxy_ports : Option String) (listen_port : ℕ) (safe : Bool) (s : History)
      → Adds P s (set_net m env proxy_ports listen_port safe s)
  unfolding set_net
  set_net-Adds proxy_ports listen_port safe s =
      search
        (
          Adds-proceed P,
          Adds-answer P,
          setenv_bridge-Adds,
          Adds-act P,
          execute_all-Adds P m,
          set_iptables-AllSetUp env,
          set_safe-Adds,
          Adds-recovered P,
          execute-Adds P m,
          resolver-IsSetUp env,
          gratuitous_arp-Adds P m,
          try_ping-Adds P m,
        )
        depth 20 fits 3000

  -- However far setting the network up of an environment gets before something fails, if anything
  -- does, each command that it adds is undone by the commands of clearing that environment, or is
  -- one of two that stay: the setting `arp_filter` of the device itself and the copy of
  -- /etc/resolv.conf that is restored. Nothing is said of the other acts that it adds, which are
  -- questions, an ARP message, the start of the pings and deleted routes. The commands of the
  -- clean-up all run, whatever fails, before its other acts.
  pub set_net-IsSetUp :
      (proxy_ports : Option String) (listen_port : ℕ) (safe : Bool) (s : History)
      → ((added : History) × ((set_net m env proxy_ports listen_port safe s).1 ≡ s ++ added)
          × All (IsSetUp env) added)
        × ((later : History)
            → (rest : History) × ((clear_bridge m env later).1
                ≡ (later ++ acts_of (clear_commands env)) ++ rest))
  set_net-IsSetUp proxy_ports listen_port safe s =
      let adds = set_net-Adds proxy_ports listen_port safe s in
      ((adds.added, adds.follows, adds.of_kind), clear_bridge-runs m env)
