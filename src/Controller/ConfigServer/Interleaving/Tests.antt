-- ===== src/Controller/ConfigServer/Interleaving/Tests.antt =====
-- A session in which a request waits for the lock while the server is stopped.
use chaos_tproxy.Prelude.{◌≡◌, true, ℕ, refl, false, List, [], ◌∷◌, none, some, String}
use chaos_tproxy.Outcome.{Error, Result, ok, err, library}
use chaos_tproxy.Controller.Config.{RawConfig}
use chaos_tproxy.Controller.Shell.{Machine, execute, execute_all_with_log_error, os_err}
use chaos_tproxy.Controller.Setup.{clear_commands}
use chaos_tproxy.Controller.Bridge.{clear_bridge}
use chaos_tproxy.Controller.Routes.{
  get_routes_noblock, del_routes_noblock, delete_each, load_routes, try_get_default_gateway,
  ask_gateway_times,
}
use chaos_tproxy.Controller.Shell.Sample.{quiet}
use chaos_tproxy.Controller.Proxy
use chaos_tproxy.Controller.Proxy.{Proxy, stop_task, stopped}
use chaos_tproxy.Controller.ConfigServer.{Request, ConfigServer, handle}
use chaos_tproxy.Controller.ConfigServer.Interleaving.{
  System, head_of, receive, start_of, handled, stopped_proxy, sent, joined, by_call, by_stop,
  locked, arrive, lock_call, answer_call, lock_stop, stop_proxy, send, end_serving, join, Reaches,
  here, after,
}
use chaos_tproxy.Controller.ConfigServer.Interleaving.Laws.{Left, is_back, Reaches-stop_after}

abbrev parse : List ℕ → Result RawConfig
parse bytes = err (library "EOF")

abbrev show : Error → String
show e = "bad"

abbrev proxy : Proxy
proxy = record {
  opt = record { ipc_path = "/tmp/a.sock"; verbose = 0 };
  net_env = record {
    netns = "ans";
    device = "eth0";
    ip = "10.0.0.2/24";
    bridge1 = "ab1";
    bridge2 = "ab2";
    veth1 = "av1";
    veth2 = "veth0";
    veth3 = "veth1";
    veth4 = "av4";
    save_routes = [];
  };
  sender = some 7;
  rx = some 7;
  task = none;
}

abbrev server : ConfigServer
server = record { proxy = proxy; task = some 3; rx = none; sender = some 3 }

abbrev get_it : Request
get_it = record { method = "GET"; body = [] }

abbrev put_it : Request
put_it = record { method = "PUT"; body = ok (1 ∷ []) ∷ [] }

abbrev first : System
first = start_of server []

abbrev served : System
served = handled quiet parse show (record first { asked = some get_it; lock = by_call }) get_it

abbrev arrived : System
arrived = record served { asked = some put_it }

-- The body of the second request does not end.
abbrev waits : System
waits = record arrived { lock = by_stop; stage = locked }

abbrev told : System
told = sent quiet parse show server (stopped_proxy quiet parse show waits)

abbrev alone : System
alone = record told { serving = false; asked = none }

abbrev last : System
last = joined quiet parse show server alone

serves : Reaches quiet parse show server first served
serves =
    after _ _ _
      (after _ _ _ (after _ _ _ (here first) (arrive first "GET" refl refl))
        (lock_call (record first { asked = some get_it }) get_it refl refl))
      (answer_call (record first { asked = some get_it; lock = by_call }) get_it refl refl refl)

stops : Reaches quiet parse show server first told
unfolding handle Proxy.stop stop_task
stops =
    after _ _ _
      (after _ _ _
        (after _ _ _
          (after _ _ _ (after _ _ _ serves (arrive served "PUT" refl refl)) (
            receive (record served { asked = some (head_of "PUT") }) (head_of "PUT") (ok (1 ∷ []))
              refl refl))
          (lock_stop arrived refl refl))
        (stop_proxy waits refl))
      (send (stopped_proxy quiet parse show waits) refl)

ends : Reaches quiet parse show server first last
unfolding handle Proxy.stop stop_task
ends = after _ _ _ (after _ _ _ stops (end_serving told refl refl)) (join alone refl refl)

Reaches-stop_after_example : Left quiet parse show server [] last.stage last
Reaches-stop_after_example = Reaches-stop_after quiet parse show server [] last refl ends refl

-- The proxy's task cannot be joined, so the stop returns early.
abbrev crashed : Machine
crashed = record quiet { await_task = λ s. err (library "cancelled") }

abbrev running : ConfigServer
running = record server { proxy = record proxy { rx = none; task = some 7 } }

abbrev taken : System
taken = record (start_of running []) { lock = by_stop; stage = locked }

returns_early : is_back (stopped_proxy crashed parse show taken).stage ≡ true
unfolding Proxy.stop stop_task clear_bridge execute_all_with_log_error execute os_err clear_commands
    get_routes_noblock del_routes_noblock delete_each load_routes try_get_default_gateway
    ask_gateway_times
returns_early = refl

leaves_early :
    let last = stopped_proxy crashed parse show taken in
    Left crashed parse show running [] last.stage last
leaves_early =
    Reaches-stop_after crashed parse show running [] (stopped_proxy crashed parse show taken) refl
      (after _ _ _ (after _ _ _ (here _) (lock_stop (start_of running []) refl refl))
        (stop_proxy taken refl))
      returns_early
