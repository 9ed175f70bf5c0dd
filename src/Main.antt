-- ===== src/Main.antt =====
-- `main` of chaos-tproxy-controller/src/main.rs: one binary for the controller and for the proxy
-- process. structopt's result, the requests of the interactive mode and the connections of the proxy
-- are parameters of a run; the subscriber of the logs is left out.
pub mod Laws
mod Tests
use chaos_tproxy.Prelude.{ℕ, Bool, true, false, List, [], Option, none, some, String}
use chaos_tproxy.Outcome.{Error, Result, ok, err}
use chaos_tproxy.Outcome.Results
use chaos_tproxy.Outcome.Effects.{Eff, ◌>>=◌, give, of_result}
use chaos_tproxy.External.{Http}
use chaos_tproxy.RawConfig.{RawConfig as ProxyRawConfig}
use chaos_tproxy.RawConfig.Tls.{Tls}
use chaos_tproxy.Tcp.{NetAct, Kernel}
use chaos_tproxy.Server.{Arrival, Task}
use chaos_tproxy.Uds.{Uds}
use chaos_tproxy.ProxyMain.{SignalKind, proxy_main}
use chaos_tproxy.Outcome.Results.{unwrap}
use chaos_tproxy.Controller.Config.{RawConfig}
use chaos_tproxy.Controller.Shell.{History, Machine}
use chaos_tproxy.Controller.Proxy.{Proxy}
use chaos_tproxy.Controller.ConfigServer.{Request}
use chaos_tproxy.Controller.CommandLine.{Opt, checked, Files, Ended, run_file, run_interactive}

-- `exit(code)`, or what `main` returns.
pub data Status : Type 0 where
  exited : ℕ → Status
  returned : Result (Unit {0}) → Status

-- A process that is over: what it left of the controller, and the calls of the proxy.
pub record Process (h : Http) (t : Tls) : Type 0 where
  pub status : Status
  pub history : History
  pub proxy : Option Proxy
  pub calls : List (NetAct (Task h t))

-- `Opt::from_args_checked`
unfoldable pub from_args_checked : Result Opt → Result Opt
from_args_checked args = Results.◌>>=◌ args checked

-- What answers the controller.
pub record Outside : Type 0 where
  pub machine : Machine
  pub files : Files
  pub from_slice : List ℕ → Result RawConfig
  pub show : Error → String
  pub wait : History → Result (Unit {0})
  pub requests : List Request

-- What answers the proxy process.
pub record Inside (h : Http) (t : Tls) : Type 0 where
  pub kernel : Kernel (Task h t)
  pub socket : Uds ProxyRawConfig
  pub signal : SignalKind → Result ℕ
  pub arrivals : List Arrival

module _ (h : Http) (t : Tls) (inside : Inside h t) (outside : Outside) where
  abbrev pub proxy_branch : Bool → Option String → Eff (NetAct (Task h t)) (Unit {0})
  proxy_branch false ipc_path = give tt
  proxy_branch true ipc_path = of_result (unwrap ipc_path) >>= λ path.
      proxy_main h t inside.kernel inside.socket inside.signal path inside.arrivals

  -- The end of the interactive mode is `exit(0)`.
  abbrev pub exit_of : Result (Unit {0}) → Status
  exit_of (ok u) = exited 0
  exit_of (err e) = returned (err e)

  abbrev pub interactive_branch : Bool → Opt → List (NetAct (Task h t)) → Process h t
  interactive_branch false opt calls = record {
    status = returned (ok tt);
    history = [];
    proxy = none;
    calls = calls;
  }
  interactive_branch true opt calls =
      let end =
        run_interactive outside.machine outside.from_slice outside.show outside.wait opt
          outside.requests [] in
      record {
        status = exit_of end.result;
        history = end.history;
        proxy = end.proxy;
        calls = calls;
      }

  abbrev pub file_branch : Option String → Opt → List (NetAct (Task h t)) → Process h t
  file_branch none opt calls = interactive_branch opt.interactive opt calls
  file_branch (some path) opt calls =
      let end = run_file outside.machine outside.files outside.wait opt [] in
      record {
        status = returned end.result;
        history = end.history;
        proxy = end.proxy;
        calls = calls;
      }

  abbrev pub after_proxy : Opt → Result (Unit {0}) × List (NetAct (Task h t)) → Process h t
  after_proxy opt (err e, calls) = record {
    status = returned (err e);
    history = [];
    proxy = none;
    calls = calls;
  }
  after_proxy opt (ok u, calls) = file_branch opt.input opt calls

  abbrev pub with_opt : Result Opt → Process h t
  with_opt (err e) = record { status = exited 1; history = []; proxy = none; calls = [] }
  with_opt (ok opt) = after_proxy opt (proxy_branch opt.proxy opt.ipc_path [])

  unfoldable pub main : Result Opt → Process h t
  main args = with_opt (from_args_checked args)
