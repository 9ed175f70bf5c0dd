-- ===== src/Controller/ConfigServer.antt =====
-- chaos-tproxy-controller/src/cmd/interactive/handler.rs: the server that reloads the proxy with
-- each configuration that is put to it.
-- hyper reads a request and calls the service; the mutex lets one call at a time to the proxy.
-- serde_json's parser and the text of an error are parameters.
pub mod Laws
pub mod Refine
pub mod Interleaving
mod Tests
use chaos_tproxy.Prelude.{
  ℕ, Bool, true, false, List, [], ◌∷◌, ◌++◌, Option, none, some, String, str_eq, if◌then◌else◌,
}
use chaos_tproxy.Outcome.{Error, Result, ok, err, panicked, is_panic}
use chaos_tproxy.RawConfig.{RawConfig as ProxyRawConfig}
use chaos_tproxy.Controller.Config.{RawConfig, to_proxy_config}
use chaos_tproxy.Controller.Shell.{
  Act, ask_interfaces, stop_server, await_server, History, Machine, Sh, proceed, ◌>>=◌, ◌>>◌, give,
  of_result, act,
}
use chaos_tproxy.Controller.Proxy
use chaos_tproxy.Controller.Proxy.{Proxy, Stepped, reload}

-- The body is a stream of segments, each of which may fail.
pub record Request : Type 0 where
  pub method : String
  pub body : List (Result (List ℕ))

pub record Response : Type 0 where
  pub status : ℕ
  pub body : String

-- What a call leaves: its result, the proxy and the acts so far.
pub record Handled : Type 0 where
  pub result : Result Response
  pub proxy : Proxy
  pub history : History

-- What the calls leave, and whether the task that serves goes on.
pub record Served : Type 0 where
  pub proxy : Proxy
  pub history : History
  pub serving : Bool

abbrev pub panics : Result Response → Bool
panics (ok answer) = false
panics (err e) = is_panic e

-- `proxy` is behind the mutex. A channel is its number, as it is for `Proxy`.
pub record ConfigServer : Type 0 where
  pub proxy : Proxy
  pub task : Option ℕ
  pub rx : Option ℕ
  pub sender : Option ℕ

-- `try_fold` from the data so far.
unfoldable pub read_body : List ℕ → List (Result (List ℕ)) → Result (List ℕ)
read_body read [] = ok read
read_body read (err e ∷ segments) = err e
read_body read (ok seg ∷ segments) = read_body (read ++ seg) segments

-- `ConfigServer::new`, with a new channel.
unfoldable pub new_server : ℕ → Proxy → ConfigServer
new_server channel proxy = record {
  proxy = proxy;
  task = none;
  rx = some channel;
  sender = some channel;
}

abbrev serve_on : ConfigServer → Option ℕ → Result ConfigServer
serve_on self none = err panicked
serve_on self (some rx) = ok (record self { rx = none; task = some rx })

-- The task that serves is spawned with the receiver; a second call panics.
unfoldable pub serve_interactive : ConfigServer → Result ConfigServer
serve_interactive self = serve_on self self.rx

abbrev answer : ℕ → String → Response
answer status body = record { status = status; body = body }

-- The answer to a reload: 200, or the error.
unfoldable pub after_reload : Result (Unit {0}) → Stepped → Handled
after_reload (ok u) t = record { result = ok (answer 200 ""); proxy = t.proxy; history = t.history }
after_reload (err e) t = record { result = err e; proxy = t.proxy; history = t.history }

module _ (m : Machine) (from_slice : List ℕ → Result RawConfig) (show : Error → String) where
  unfoldable pub read_config : Request → Sh ProxyRawConfig
  read_config request = do
    request_data ← of_result (read_body [] request.body)
    raw_config ← of_result (from_slice request_data)
    interfaces ← act ask_interfaces (λ s. ok (m.interfaces s))
    of_result (to_proxy_config interfaces raw_config)

  unfoldable pub handle_config : Proxy → Result ProxyRawConfig × History → Handled
  handle_config proxy (err e, s) = record {
    result = ok (answer 400 (show e));
    proxy = proxy;
    history = s;
  }
  handle_config proxy (ok config, s) = let t = reload m config proxy s in after_reload t.result t

  -- `ConfigService::handle`
  unfoldable pub handle : Proxy → Request → History → Handled
  handle proxy request s =
      if str_eq request.method "PUT"
      then handle_config proxy (read_config request s)
      else (record { result = ok (answer 405 ""); proxy = proxy; history = s })

  -- The calls of the service, one after another: an error ends the connection and is logged, and
  -- the next request comes on a new one. A panic ends the task that serves.
  unfoldable pub serve : List Request → Proxy → History → Served
  serve [] proxy s = record { proxy = proxy; history = s; serving = true }
  serve (request ∷ requests) proxy s =
      let t = handle proxy request s in
      let rest = serve requests t.proxy t.history in
      if panics t.result
      then (record { proxy = t.proxy; history = t.history; serving = false })
      else rest

module _ (m : Machine) where
  abbrev pub tell : Option ℕ → Sh (Unit {0})
  tell none = give tt
  tell (some c) = act stop_server (λ s. ok tt)

  -- Of a task that panicked the answer is an error too.
  abbrev pub wait_for : Option ℕ → Sh (Unit {0})
  wait_for none = give tt
  wait_for (some c) = act await_server m.await_server_task

  abbrev stop_serving : ConfigServer → Sh (Unit {0})
  stop_serving self = tell self.sender >> wait_for self.task

  -- `ConfigServer::stop`: the proxy, then the serving task.
  unfoldable pub stop : ConfigServer → History → Stepped
  stop self s =
      let t = Proxy.stop m self.proxy s in
      let end = proceed (t.result, t.history) (λ u. stop_serving self) in
      record { result = end.0; proxy = t.proxy; history = end.1 }
