-- ===== src/ProxyMain.antt =====
-- chaos-tproxy-proxy/src/lib.rs and chaos-tproxy-proxy/src/signal.rs: the proxy process from the
-- configuration that it reads to the signal that ends it.
-- The server's task runs beside the wait. What arrives until the wait ends is a list.
pub mod Laws
mod Tests
use chaos_tproxy.Prelude.{ℕ, List, [], ◌∷◌, ◌++◌, Option, String}
use chaos_tproxy.Outcome.{Error, Result, ok, err, panicked}
use chaos_tproxy.Outcome.Results.{collect}
use chaos_tproxy.Outcome.Effects.{Eff, ◌>>=◌, ◌>>◌, give, of_result}
use chaos_tproxy.External.{Http}
use chaos_tproxy.RawConfig.{RawConfig}
use chaos_tproxy.RawConfig.Tls.{Tls, Config, to_config}
use chaos_tproxy.Tcp.{NetAct, Kernel}
use chaos_tproxy.Server.{Arrival, signalled, Task, HttpServer, serve}
use chaos_tproxy.Uds.{UdsDataClient, Uds, read_into}

pub data SignalKind : Type 0 where
  interrupt terminate : SignalKind

-- `Signals`: the handlers of the kinds, which tokio registers.
abbrev pub Signals : Type 0
Signals = List ℕ

-- `Signals::from_kinds`
unfoldable pub from_kinds : (SignalKind → Result ℕ) → List SignalKind → Result Signals
from_kinds signal kinds = collect signal kinds

module _ (h : Http) (t : Tls) (k : Kernel (Task h t)) (io : Uds RawConfig) where
  -- `HttpServer::new`
  abbrev pub new_server_for : Config h t → HttpServer h t
  new_server_for config = record { config = config }

  -- `spawn.await?`: the task unwraps what `serve` returns, and a panic of it is an error here.
  abbrev pub joined_with :
      Result (Option (Unit {0})) × List (NetAct (Task h t))
      → Result (Unit {0}) × List (NetAct (Task h t))
  joined_with (ok end, s) = (ok tt, s)
  joined_with (err e, s) = (err panicked, s)

  -- If the handlers cannot be registered the process ends beside its server. Else the wait ends
  -- with a signal, the server is told, and its task is waited for.
  unfoldable pub run_until :
      HttpServer h t → Result Signals → List Arrival → Eff (NetAct (Task h t)) (Unit {0})
  run_until server (err e) arrivals s = (err e, (serve h t k server arrivals s).1)
  run_until server (ok signals) arrivals s =
      joined_with (serve h t k server (arrivals ++ signalled ∷ []) s)

  unfoldable pub proxy_main :
      (SignalKind → Result ℕ) → String → List Arrival → Eff (NetAct (Task h t)) (Unit {0})
  proxy_main signal path arrivals = do
    raw_config ← of_result (read_into io (record { path = path }) [])
    config ← of_result (to_config t h raw_config)
    run_until (new_server_for config)
        (from_kinds signal (SignalKind.interrupt ∷ SignalKind.terminate ∷ [])) arrivals
