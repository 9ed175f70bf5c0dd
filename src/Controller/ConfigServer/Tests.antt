-- ===== src/Controller/ConfigServer/Tests.antt =====
-- Requests to the server on the sample machines.
use chaos_tproxy.Prelude.{◌≡◌, refl, ℕ, zero, suc, List, [], ◌∷◌, none, some, String, str_eq}
use chaos_tproxy.Outcome.{Error, Result, ok, err, library}
use chaos_tproxy.Controller.Config.{RawConfig}
use chaos_tproxy.Controller.Shell.Sample.{quiet}
use chaos_tproxy.Controller.Commands.{NetEnv}
use chaos_tproxy.Controller.Proxy.{Proxy}
use chaos_tproxy.Controller.Proxy.Pairing.{IsWhole}
use chaos_tproxy.Controller.ConfigServer.{
  Request, ConfigServer, read_body, read_config, handle_config, handle, serve, stop,
}
use chaos_tproxy.Controller.ConfigServer.Refine.{refused, Steps, phase_of, replies, serve-Steps}
use chaos_tproxy.Controller.ConfigServer.Laws.{Tells, handle-Tells, serve-stops}

abbrev no_ports : RawConfig
no_ports = record {
  proxy_ports = none;
  safe_mode = none;
  rules = none;
  tls = none;
  role = none;
  interface = none;
  listen_port = none;
  proxy_mark = none;
  ignore_mark = none;
  route_table = none;
}

-- A parser that knows two texts.
abbrev parse : List ℕ → Result RawConfig
parse [] = err (library "EOF")
parse (zero ∷ rest) = ok no_ports
parse (suc n ∷ rest) = ok (record no_ports { proxy_ports = some (80 ∷ []) })

abbrev show : Error → String
show e = "bad"

abbrev env : NetEnv
env = record {
  netns = "ans";
  device = "eth0";
  ip = "10.0.0.2/24";
  bridge1 = "ab1";
  bridge2 = "ab2";
  veth1 = "av1";
  veth2 = "veth0";
  veth3 = "veth1";
  veth4 = "av4";
  save_routes = [];
}

abbrev proxy : Proxy
proxy = record {
  opt = record { ipc_path = "/tmp/a.sock"; verbose = 0 };
  net_env = env;
  sender = some 7;
  rx = some 7;
  task = none;
}

abbrev put_port : Request
put_port = record { method = "PUT"; body = ok (1 ∷ []) ∷ ok (2 ∷ []) ∷ [] }

abbrev put_nothing : Request
put_nothing = record { method = "PUT"; body = [] }

abbrev get_it : Request
get_it = record { method = "GET"; body = [] }

joins_segments : read_body [] put_port.body ≡ ok (1 ∷ 2 ∷ [])
unfolding read_body
joins_segments = refl

refuses_empty :
    (handle quiet parse show proxy put_nothing []).result
    ≡ ok (record { status = 400; body = "bad" })
unfolding handle read_config read_body handle_config
refuses_empty = refl

handle-Tells_example :
    IsWhole (handle quiet parse show proxy put_port []).proxy
    × Tells
        (str_eq put_port.method "PUT")
        (read_config quiet parse show put_port []).0
        proxy
        (handle quiet parse show proxy put_port [])
handle-Tells_example = handle-Tells quiet parse show proxy put_port [] refl

abbrev server : ConfigServer
server = record { proxy = proxy; task = some 3; rx = none; sender = some 3 }

abbrev session : List Request
session = get_it ∷ put_port ∷ put_nothing ∷ []

serves_and_stops :
    IsWhole (serve quiet parse show session proxy []).proxy
    × ((stop quiet
          (record server { proxy = (serve quiet parse show session proxy []).proxy })
          (serve quiet parse show session proxy []).history).proxy.task
        ≡ none)
serves_and_stops = serve-stops quiet parse show server session [] refl

refuses_both :
    replies quiet parse show (get_it ∷ put_nothing ∷ []) proxy [] ≡ refused ∷ refused ∷ []
unfolding replies handle read_config read_body handle_config
refuses_both = refl

serve-Steps_example :
    Steps
      (phase_of proxy)
      (replies quiet parse show session proxy [])
      (phase_of (serve quiet parse show session proxy []).proxy)
serve-Steps_example = serve-Steps quiet parse show session proxy [] refl
