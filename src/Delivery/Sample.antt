-- ===== src/Delivery/Sample.antt =====
-- A user's rule that aborts GET, for the examples, and what both processes make of it.
use chaos_tproxy.Prelude.{true, false, [], ◌∷◌, none, some}
use chaos_tproxy.Outcome.{ok}
use chaos_tproxy.External.Sample.{sample}
use chaos_tproxy.Handler.Rule.{client, Target, Rule}
use chaos_tproxy.RawConfig.{RawTarget, RawRule}
use chaos_tproxy.RawConfig.Tls.{Config}
use chaos_tproxy.RawConfig.Tls.Sample.{sample_tls}
use chaos_tproxy.Service.{Upstream}
use chaos_tproxy.Controller.Net.{IpNetwork, NetworkInterface}
use chaos_tproxy.Controller.Config.{RawConfig, RawRole}

abbrev pub eth0 : NetworkInterface
eth0 = record {
  name = "eth0";
  is_loopback = false;
  is_up = true;
  ips = IpNetwork.v4 167772162 24 ∷ [];
  mac = none;
}

abbrev pub abort_get : RawRule
abort_get = record {
  target = RawTarget.request;
  selector = record {
    port = some 80;
    path = none;
    method = some "GET";
    code = none;
    request_headers = none;
    response_headers = none;
  };
  actions = record { abort = some true; delay = none; replace = none; patch = none };
}

abbrev pub checked_abort : Rule sample
checked_abort = record {
  target = Target.request;
  selector = record {
    port = some 80;
    path = none;
    method = some "GET";
    code = none;
    request_headers = none;
    response_headers = none;
  };
  actions = record { abort = true; delay = none; replace = none; patch = none };
}

abbrev pub raw : RawConfig
raw = record {
  proxy_ports = some (80 ∷ []);
  safe_mode = none;
  rules = some (abort_get ∷ []);
  tls = none;
  role = some RawRole.client;
  interface = none;
  listen_port = none;
  proxy_mark = none;
  ignore_mark = none;
  route_table = none;
}

abbrev pub made : Config sample sample_tls
made = record {
  http_config = record {
    listen_port = 1025;
    rules = checked_abort ∷ [];
    role = some (client (167772162 ∷ []));
  };
  tls_config = none;
}

abbrev pub upstream : Upstream sample sample_tls.ClientConfig
upstream = record {
  send = λ tls to from r. ok (record { status = 200; headers = []; body = [] });
  show_addr = λ a. "10.0.0.9:80";
}
