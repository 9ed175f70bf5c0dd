-- ===== src/Controller/Proxy.antt =====
-- `Proxy` of chaos-tproxy-controller/src/proxy/exec.rs and `NetEnv::new` of
-- chaos-tproxy-controller/src/proxy/net/bridge.rs: the life of the proxy process.
-- A channel is its number: the sender and the receiver that one `channel()` made bear the same, and
-- a task bears that of the receiver that it waits on.
pub mod Names
pub mod Links
pub mod Pairing
pub mod Cleanup
pub mod Launch
mod Tests
use Prim.Native.String
use text.Mathlib.Text.{starts_with, get?}
use chaos_tproxy.Prelude.{
  ℕ, zero, suc, Bool, true, false, not, List, [], ◌∷◌, Option, none, some, String, all, reverse,
  if◌then◌else◌,
}
use chaos_tproxy.Outcome.{Error, Result, ok, err, library, panicked, is_panic}
use chaos_tproxy.Outcome.Results.{unwrap}
use chaos_tproxy.RawConfig.{RawConfig}
use chaos_tproxy.RawConfig.Convert.{unwrap_or}
use chaos_tproxy.Controller.Net.{NetworkInterface, get_default_interface, get_ipv4}
use chaos_tproxy.Controller.Shell.{
  Command, Route, Act, ask_interfaces, bind_socket, spawn_listener, spawn_proxy, stop_proxy,
  await_proxy, History, Machine, Sh, proceed, ◌>>=◌, ◌>>◌, give, of_result, act, recover, unwrapped,
}
use chaos_tproxy.Controller.Commands.{NetEnv, ip_netns}
use chaos_tproxy.Controller.Routes.{get_routes_noblock}
use chaos_tproxy.Controller.Bridge.{clear_bridge, set_net}

pub record ProxyOpt : Type 0 where
  pub ipc_path : String
  pub verbose : ℕ

pub record Proxy : Type 0 where
  pub opt : ProxyOpt
  pub net_env : NetEnv
  pub sender : Option ℕ
  pub rx : Option ℕ
  pub task : Option ℕ

-- What a method leaves: its result, the proxy and the acts so far.
pub record Stepped : Type 0 where
  pub result : Result (Unit {0})
  pub proxy : Proxy
  pub history : History

-- `to_string()[0..13]`
abbrev pub key_of : String → String
key_of uuid = unwrap_or (get? uuid 0 13) uuid

-- The loop of `NetEnv::new`: the first key that no interface's name starts with.
unfoldable pub fresh_prefix : List NetworkInterface → List String → Result String
fresh_prefix interfaces [] = err (library "no identifier is left")
fresh_prefix interfaces (uuid ∷ uuids) =
    if all (λ i. not (starts_with i.name (key_of uuid))) interfaces
    then ok (key_of uuid)
    else fresh_prefix interfaces uuids

abbrev named : String → String → String
named prefix suffix = String.◌++◌ prefix suffix

-- What `take` leaves of the proxy.
unfoldable pub stopped : Option ℕ → Proxy → Proxy
stopped none p = p
stopped (some c) p = record p { task = none; sender = none }

abbrev verbosity : ℕ → String
verbosity n = elim n [ zero ↦ "" | suc (k → more) ↦ String.◌++◌ "v" more ]

abbrev pub proxy_command : Proxy → String → Command
proxy_command p exe_path = ip_netns p.net_env.netns (
    exe_path
    ∷ String.◌++◌ "-" (verbosity p.opt.verbose)
    ∷ "--proxy"
    ∷ String.◌++◌ "--ipc-path=" p.opt.ipc_path
    ∷ [])

-- `if self.task.is_none()`: the parts of a new proxy, without its netlink handle.
abbrev pub renew : Proxy → Proxy → Proxy
renew p new = record p { net_env = new.net_env; opt = new.opt; sender = new.sender; rx = new.rx }

abbrev pub failed_with : Error → Proxy → Result (Unit {0}) × History → Stepped
failed_with e p (ok u, s) = record { result = err e; proxy = p; history = s }
failed_with e p (err e', s) = record { result = err e'; proxy = p; history = s }

abbrev pub unless_failed : Result (Unit {0}) → Stepped → Stepped → Stepped
unless_failed (err e) t next = t
unless_failed (ok u) t next = next

module _ (m : Machine) where
  unfoldable pub new_env : Sh NetEnv
  new_env = do
    interfaces ← act ask_interfaces (λ s. ok (m.interfaces s))
    prefix ← λ s. (fresh_prefix interfaces (m.uuids s), s)
    device ← unwrapped (act ask_interfaces (λ s. get_default_interface (m.interfaces s)))
    ip ← of_result (unwrap (get_ipv4 device.ips))
    routes ← unwrapped (get_routes_noblock m)
    give (record {
      netns = named prefix "ns";
      device = device.name;
      ip = ip;
      bridge1 = named prefix "b1";
      bridge2 = named prefix "b2";
      veth1 = named prefix "v1";
      veth2 = "veth0";
      veth3 = "veth1";
      veth4 = named prefix "v4";
      save_routes = reverse routes;
    })

  -- `Proxy::new`, with a new channel.
  unfoldable pub new_proxy : ℕ → Sh Proxy
  new_proxy verbose s = proceed (new_env s) (λ env. give (record {
    opt = record { ipc_path = m.socket_path s; verbose = verbose };
    net_env = env;
    sender = some (m.channel s);
    rx = some (m.channel s);
    task = none;
  }))

  -- The end of `exec`: the receiver is taken, and the task that waits on it is spawned.
  abbrev pub launch : Proxy → String → Sh Proxy
  launch p exe_path = do
    rx ← of_result (unwrap p.rx)
    act (spawn_proxy (proxy_command p exe_path)) (λ s. ok tt)
    give (record p { rx = none; task = some rx })

  -- `exec`: the socket and the task that sends the configuration on it, the network, and the proxy's
  -- task. An error leaves the proxy as it is.
  unfoldable pub exec : Proxy → RawConfig → Sh Proxy
  exec p config = do
    act (bind_socket p.opt.ipc_path) (λ s. m.bind s p.opt.ipc_path)
    act (spawn_listener p.opt.ipc_path) (λ s. ok tt)
    exe_path ← of_result m.current_exe
    set_net m p.net_env config.proxy_ports config.listen_port config.safe_mode
    launch p exe_path

  -- `if let Some(sender) = self.sender.take() { sender.send(()) }`
  abbrev send_stop : Option ℕ → Sh (Unit {0})
  send_stop none = give tt
  send_stop (some c) = act stop_proxy (λ s. ok tt)

  unfoldable pub stop_task : Option ℕ → Proxy → Sh (Unit {0})
  stop_task none p = give tt
  stop_task (some c) p = do
    send_stop p.sender
    recover (clear_bridge m p.net_env) tt
    act await_proxy m.await_task

  unfoldable pub stop : Proxy → History → Stepped
  stop p s =
      let end = stop_task p.task p s in
      record { result = end.0; proxy = stopped p.task p; history = end.1 }

  unfoldable pub renewed : Option ℕ → Proxy → Sh Proxy
  renewed (some c) p = give p
  renewed none p = do new ← new_proxy p.opt.verbose; give (renew p new)

  -- The end of `reload`: an error of `exec` is cleaned up, and a panic unwinds past the clean-up.
  unfoldable pub finish : Proxy → Result Proxy × History → Stepped
  finish p (ok p', s) = record { result = ok tt; proxy = p'; history = s }
  finish p (err e, s) =
      if is_panic e
      then (record { result = err e; proxy = p; history = s })
      else failed_with e p (clear_bridge m p.net_env s)

  unfoldable pub start_again : RawConfig → Proxy → Result Proxy × History → Stepped
  start_again config old (err e, s) = record { result = err e; proxy = old; history = s }
  start_again config old (ok p, s) = finish p (exec p config s)

  unfoldable pub reload_stopped : Option String → RawConfig → Stepped → Stepped
  reload_stopped none config t = t
  reload_stopped (some ports) config t =
      start_again config t.proxy (renewed t.proxy.task t.proxy t.history)

  unfoldable pub reload : RawConfig → Proxy → History → Stepped
  reload config p s =
      let t = stop p s in
      let next = reload_stopped config.proxy_ports config t in unless_failed t.result t next
