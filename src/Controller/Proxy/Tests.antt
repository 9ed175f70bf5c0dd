-- ===== src/Controller/Proxy/Tests.antt =====
-- Lives of a proxy on the sample machines.
use chaos_tproxy.Prelude.{
  ◌≡◌, refl, List, [], ◌∷◌, ◌++◌, none, some, false, true, String, show_nat, join,
}
use chaos_tproxy.Outcome.{Error, ok, err, stderr, panicked}
use chaos_tproxy.Outcome.Effects.{Returns}
use chaos_tproxy.RawConfig.{RawConfig}
use chaos_tproxy.Controller.Shell.{
  Machine, command, ask_gateway, stop_proxy, await_proxy, ask_interfaces, list_routes, bind_socket,
  spawn_listener, History, execute, execute_all, execute_all_with_log_error, os_err,
}
use chaos_tproxy.Controller.Shell.Sample.{quiet, denied, eth0, lo, veth, local_route, main_route}
use chaos_tproxy.Controller.Commands.{NetEnv, bash_c}
use chaos_tproxy.Controller.Net.{get_default_interface, get_interface, get_ipv4, show_ipv4}
use chaos_tproxy.Controller.Routes.{
  get_routes_noblock, ask_gateway_times, try_get_default_gateway, delete_each, del_routes_noblock,
  is_kernel_route,
}
use chaos_tproxy.Controller.Setup.{link_commands, address_commands}
use chaos_tproxy.Controller.Iptables.{set_iptables}
use chaos_tproxy.Controller.Packets.{gratuitous_arp, try_ping}
use chaos_tproxy.Controller.Bridge.{setenv_bridge, set_net}
use chaos_tproxy.Controller.Proxy.{
  Proxy, fresh_prefix, new_env, new_proxy, exec, renew, renewed, finish, start_again,
  reload_stopped, stop_task, stopped, stop, reload,
}
use chaos_tproxy.Controller.Proxy.Names.{Draws, fresh_prefix-Draws}
use chaos_tproxy.Controller.Proxy.Links.{IsNamed, IsReady, new_env-IsNamed}
use chaos_tproxy.Controller.Proxy.Pairing.{is_ok, IsReloaded, reload-IsReloaded}
use chaos_tproxy.Controller.Proxy.Launch.{Launches, exec-Launches}
use chaos_tproxy.Controller.Proxy.Cleanup.{Clears, Fails, stop-Clears, reload-Clears}

abbrev names : List String
names = "0123456789abcdef" ∷ "fedcba9876543210" ∷ []

skips_a_taken_name : fresh_prefix (lo ∷ veth ∷ []) names ≡ ok "fedcba9876543"
unfolding fresh_prefix
skips_a_taken_name = refl

takes_a_free_name : Draws (lo ∷ veth ∷ []) names (fresh_prefix (lo ∷ veth ∷ []) names)
takes_a_free_name = fresh_prefix-Draws (lo ∷ veth ∷ []) names

abbrev env : NetEnv
env = record {
  netns = "0123456789abcns";
  device = "eth0";
  ip = "10.0.0.2/24";
  bridge1 = "0123456789abcb1";
  bridge2 = "0123456789abcb2";
  veth1 = "0123456789abcv1";
  veth2 = "veth0";
  veth3 = "veth1";
  veth4 = "0123456789abcv4";
  save_routes = main_route ∷ [];
}

abbrev fresh : Proxy
fresh = record {
  opt = record { ipc_path = "/tmp/a.sock"; verbose = 0 };
  net_env = env;
  sender = some 7;
  rx = some 7;
  task = none;
}

abbrev running : Proxy
running = record fresh { rx = none; task = some 7 }

abbrev all_traffic : RawConfig
all_traffic = record {
  proxy_ports = some "80,443";
  listen_port = 1025;
  safe_mode = false;
  rules = [];
  role = none;
  tls = none;
}

abbrev asked : History
asked = ask_interfaces ∷ ask_interfaces ∷ list_routes ∷ []

starts_anew : new_proxy quiet 0 [] ≡ (ok fresh, asked)
unfolding new_proxy new_env fresh_prefix get_default_interface get_ipv4 show_ipv4 get_routes_noblock
    show_nat join
starts_anew = refl

starts : is_ok (exec quiet fresh all_traffic asked).0 ≡ true
unfolding exec set_net setenv_bridge execute execute_all execute_all_with_log_error os_err
    get_routes_noblock ask_gateway_times try_get_default_gateway del_routes_noblock delete_each
    link_commands address_commands set_iptables get_interface is_kernel_route show_nat join
    gratuitous_arp try_ping
starts = refl

reload-IsReloaded_example : IsReloaded (some "80,443") (reload quiet all_traffic running asked)
reload-IsReloaded_example = reload-IsReloaded quiet all_traffic running asked refl

abbrev idle : Proxy
idle = record fresh { sender = none; rx = none }

-- The first command fails, after the socket was bound and the gateway asked for.
abbrev failed_at : History
failed_at =
    asked
    ++ bind_socket "/tmp/a.sock"
      ∷ spawn_listener "/tmp/a.sock"
      ∷ ask_gateway
      ∷ command (bash_c "cp /etc/resolv.conf /etc/resolv.conf.bak")
      ∷ []

stops_idle : (stop denied idle []).result ≡ ok tt
unfolding stop stop_task
stops_idle = refl

starts_unprivileged :
    new_proxy denied (stop denied idle []).proxy.opt.verbose (stop denied idle []).history
    ≡ (ok fresh, asked)
unfolding stop stop_task stopped new_proxy new_env fresh_prefix get_default_interface get_ipv4
    show_ipv4 get_routes_noblock show_nat join
starts_unprivileged = refl

fails :
    exec denied (renew (stop denied idle []).proxy fresh) all_traffic asked
    ≡ (err (stderr "Operation not permitted"), failed_at)
unfolding stop stop_task stopped exec set_net setenv_bridge execute execute_all os_err
    ask_gateway_times try_get_default_gateway link_commands
fails = refl

reload-Clears_example : Fails false env failed_at (reload denied all_traffic idle [])
reload-Clears_example =
    reload-Clears denied all_traffic idle fresh "80,443" [] asked failed_at
      (stderr "Operation not permitted") tt stops_idle refl starts_unprivileged fails

-- The client of the pings cannot be made, behind everything else: a panic.
abbrev pingless : Machine
pingless = record quiet { ping_client = λ s. err (stderr "no socket") }

panics_unclean : (reload pingless all_traffic idle []).result ≡ err panicked
unfolding reload reload_stopped start_again renewed finish stop stop_task stopped new_proxy new_env
    fresh_prefix get_default_interface get_ipv4 show_ipv4 exec set_net setenv_bridge execute
    execute_all execute_all_with_log_error os_err get_routes_noblock ask_gateway_times
    try_get_default_gateway del_routes_noblock delete_each link_commands address_commands
    set_iptables get_interface is_kernel_route show_nat join gratuitous_arp try_ping
panics_unclean = refl

stop-Clears_example :
    ((told : History) × Clears env (asked ++ stop_proxy ∷ []) told
      × ((stop quiet running asked).history ≡ told ++ await_proxy ∷ []))
    × ((t : History)
        → stop quiet (stop quiet running asked).proxy t
          ≡ record { result = ok tt; proxy = (stop quiet running asked).proxy; history = t })
stop-Clears_example = stop-Clears quiet running 7 asked refl refl

exec-Launches_example :
    Launches quiet fresh asked (exec quiet fresh all_traffic asked)
    × ((e : Error)
        → quiet.bind asked "/tmp/a.sock" ≡ err e
        → exec quiet fresh all_traffic asked ≡ (err e, asked ++ bind_socket "/tmp/a.sock" ∷ []))
exec-Launches_example = exec-Launches quiet fresh all_traffic asked

is_ready : IsReady quiet []
unfolding fresh_prefix get_default_interface get_ipv4 show_ipv4 show_nat join
is_ready = record {
  key = "0123456789abc";
  device = eth0;
  ip = "10.0.0.2/24";
  routes = local_route ∷ main_route ∷ [];
  whole = (("0123456789abc", refl), (("fedcba9876543", refl), tt));
  is_drawn = refl;
  is_default = refl;
  has_ip = refl;
  are_listed = refl;
}

new_env-IsNamed_example : Returns (λ env s'. IsNamed (quiet.interfaces []) env) (new_env quiet [])
new_env-IsNamed_example = new_env-IsNamed quiet [] is_ready
