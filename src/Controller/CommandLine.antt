-- ===== src/Controller/CommandLine.antt =====
-- chaos-tproxy-controller/src/cmd/command_line.rs, and two branches of `main` in
-- chaos-tproxy-controller/src/main.rs: with a configuration file, and in the interactive mode.
-- structopt's parsing of the arguments, the reading of the file and its two parsers are parameters.
pub mod Laws
mod Tests
use chaos_tproxy.Prelude.{
  ℕ, zero, suc, Bool, true, false, not, ◌&&◌, List, [], ◌∷◌, Option, none, some, String, str_eq,
  if◌then◌else◌,
}
use chaos_tproxy.Outcome.{Error, Result, ok, err, config_file_required, invalid_extension}
use chaos_tproxy.RawConfig.{RawConfig as ProxyRawConfig}
use chaos_tproxy.Controller.Config.{RawConfig, to_proxy_config}
use chaos_tproxy.Controller.Shell.{
  ask_interfaces, History, Machine, Sh, proceed, ◌>>=◌, give, of_result, act,
}
use chaos_tproxy.Controller.Proxy
use chaos_tproxy.Controller.ConfigServer
use chaos_tproxy.Controller.ConfigServer.{
  Served, Request, ConfigServer, new_server, serve_interactive, serve,
}
use chaos_tproxy.Controller.Proxy.{Proxy, Stepped, new_proxy, reload}

pub record Opt : Type 0 where
  pub input : Option String
  pub interactive : Bool
  pub verbose : ℕ
  pub proxy : Bool
  pub ipc_path : Option String

pub data LevelFilter : Type 0 where
  error info debug trace : LevelFilter

abbrev level_of : ℕ → LevelFilter
level_of zero = error
level_of (suc zero) = info
level_of (suc (suc zero)) = debug
level_of (suc (suc (suc n))) = trace

unfoldable pub get_level_filter : Opt → LevelFilter
get_level_filter self = level_of self.verbose

abbrev pub is_none {ℓ} : {A : Type ℓ} → Option A → Bool
is_none none = true
is_none (some a) = false

-- `Opt::checked`
unfoldable pub checked : Opt → Result Opt
checked self =
    if not self.interactive && not self.proxy && is_none self.input
    then err config_file_required
    else ok self

-- `RawConfig::default()`
abbrev pub default_config : RawConfig
default_config = record {
  proxy_ports = none;
  safe_mode = none;
  rules = none;
  tls = none;
  role = none;
  interface = none;
  listen_port = none;
  proxy_mark = none;
  ignore_mark = none;
  route_table = none;
}

-- What is read from outside: a file's text, a path's extension, and the parsers of serde.
pub record Files : Type 0 where
  pub read_to_string : String → Result String
  pub extension : String → Option String
  pub from_json : String → Result RawConfig
  pub from_yaml : String → Result RawConfig

module _ (files : Files) where
  abbrev from_extension : Option String → String → Result RawConfig
  from_extension none buffer = err invalid_extension
  from_extension (some ext) buffer =
      if str_eq ext "json"
      then files.from_json buffer
      else if str_eq ext "yaml"
      then files.from_yaml buffer
      else err invalid_extension

  unfoldable pub raw_from_opt : Option String → Sh RawConfig
  raw_from_opt none = give default_config
  raw_from_opt (some path) = do
    buffer ← of_result (files.read_to_string path)
    of_result (from_extension (files.extension path) buffer)

  unfoldable pub get_config_from_opt : Machine → Opt → Sh ProxyRawConfig
  get_config_from_opt m opt = do
    raw ← raw_from_opt opt.input
    interfaces ← act ask_interfaces (λ s. ok (m.interfaces s))
    of_result (to_proxy_config interfaces raw)

-- What the process leaves: its result, its proxy if there was one, and the acts so far.
pub record Ended : Type 0 where
  pub result : Result (Unit {0})
  pub proxy : Option Proxy
  pub history : History

-- The branch of `main` with a configuration file. `wait` is the wait for a signal.
module _ (m : Machine) (files : Files) (wait : History → Result (Unit {0})) where
  unfoldable pub after_signal : Proxy → Result (Unit {0}) → History → Ended
  after_signal proxy (err e) s = record { result = err e; proxy = some proxy; history = s }
  after_signal proxy (ok u) s =
      let t = Proxy.stop m proxy s in
      record { result = t.result; proxy = some t.proxy; history = t.history }

  unfoldable pub after_start : Result (Unit {0}) → Stepped → Ended
  after_start (err e) t = record { result = err e; proxy = some t.proxy; history = t.history }
  after_start (ok u) t = after_signal t.proxy (wait t.history) t.history

  unfoldable pub with_proxy : ProxyRawConfig → Result Proxy × History → Ended
  with_proxy config (err e, s) = record { result = err e; proxy = none; history = s }
  with_proxy config (ok proxy, s) = let t = reload m config proxy s in after_start t.result t

  unfoldable pub with_config : Opt → Result ProxyRawConfig × History → Ended
  with_config opt (err e, s) = record { result = err e; proxy = none; history = s }
  with_config opt (ok config, s) = with_proxy config (new_proxy m opt.verbose s)

  unfoldable pub run_file : Opt → History → Ended
  run_file opt s = with_config opt (get_config_from_opt files m opt s)

-- The branch of `main` for the interactive mode, with the requests that come before the signal.
module _ (m : Machine) (from_slice : List ℕ → Result RawConfig) (show : Error → String)
    (wait : History → Result (Unit {0})) where
  unfoldable pub after_serving : ConfigServer → Result (Unit {0}) → Served → Ended
  after_serving self (err e) end = record {
    result = err e;
    proxy = some end.proxy;
    history = end.history;
  }
  after_serving self (ok u) end =
      let t = ConfigServer.stop m (record self { proxy = end.proxy }) end.history in
      record { result = t.result; proxy = some t.proxy; history = t.history }

  unfoldable pub with_server : List Request → Result ConfigServer → History → Ended
  with_server requests (err e) s = record { result = err e; proxy = none; history = s }
  with_server requests (ok self) s =
      let end = serve m from_slice show requests self.proxy s in
      after_serving self (wait end.history) end

  unfoldable pub with_new_proxy : List Request → Result Proxy × History → Ended
  with_new_proxy requests (err e, s) = record { result = err e; proxy = none; history = s }
  with_new_proxy requests (ok proxy, s) =
      with_server requests (serve_interactive (new_server (m.channel s) proxy)) s

  unfoldable pub run_interactive : Opt → List Request → History → Ended
  run_interactive opt requests s = with_new_proxy requests (new_proxy m opt.verbose s)
