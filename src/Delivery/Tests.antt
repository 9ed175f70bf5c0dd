-- ===== src/Delivery/Tests.antt =====
-- A user's rule that aborts GET, from the configuration to two requests.
use chaos_tproxy.Prelude.{◌≡◌, refl, [], ◌∷◌, none, String, inl, eq_iff, arith, subst}
use chaos_tproxy.Outcome.{ok}
use chaos_tproxy.Outcome.Results.{ok-injective}
use chaos_tproxy.Outcome.Runs.{events, result}
use chaos_tproxy.External.Sample.{sample, sample_headers, sample_codes}
use chaos_tproxy.Handler.Message.{Request}
use chaos_tproxy.Handler.Rule.{v4, SocketAddr}
use chaos_tproxy.RawConfig.Convert.{to_target, to_selector, to_actions, to_rule, to_rules}
use chaos_tproxy.RawConfig.Tls.{to_config}
use chaos_tproxy.RawConfig.Tls.Sample.{sample_tls}
use chaos_tproxy.Service.{handle}
use chaos_tproxy.Service.Rules.{sent, Fails}
use chaos_tproxy.Service.Transparent.{pass_through}
use chaos_tproxy.Controller.Ports.{free_from, get_free_port}
use chaos_tproxy.Controller.Net.{get_default_interface}
use chaos_tproxy.Controller.Config.{RawRole, ipv4s_of, ports_text, to_proxy_config}
use chaos_tproxy.Delivery.{delivered}
use chaos_tproxy.Delivery.Rules.{PlaysRawRole, UserPlays, UserAborts, NotUserSelects}
use chaos_tproxy.Delivery.Laws.{service, delivered-aborts, delivered-passes}
use chaos_tproxy.Delivery.Sample.{eth0, abort_get, raw, made, upstream}

is_made : delivered sample sample_tls (eth0 ∷ []) raw ≡ ok made
unfolding to_proxy_config get_default_interface ipv4s_of get_free_port free_from ports_text
    to_config to_rules to_rule to_selector to_actions to_target
is_made = refl

abbrev remote : SocketAddr
remote = record { ip = v4 167772162; port = 5000 }

abbrev target : SocketAddr
target = record { ip = v4 167772169; port = 80 }

abbrev get_root : Request sample
get_root = record {
  method = "GET";
  uri = record { scheme = none; authority = none; path_and_query = none };
  headers = [];
  body = [];
}

abbrev post_root : Request sample
post_root = record get_root { method = "POST" }

plays : UserPlays (eth0 ∷ []) raw remote target
unfolding get_default_interface ipv4s_of
plays device e =
    subst (λ d. PlaysRawRole (ipv4s_of d.ips) remote.ip target.ip RawRole.client) (ok-injective e)
      (inl refl, tt)

aborts : UserAborts sample sample_tls 80 get_root abort_get
aborts = record {
  targets = refl;
  selects = record { port_ok = refl; path_ok = tt; method_ok = refl; headers_ok = tt };
  aborts = refl;
}

delivered-aborts_example :
    Fails sample (
      result (
        handle sample sample_tls.ClientConfig upstream
          (service sample sample_tls sample_headers sample_codes upstream
            (eth0 ∷ [])
            raw
            made
            is_made
            remote
            target
            none)
          get_root))
    × (sent sample (
          events (
            handle sample sample_tls.ClientConfig upstream
              (service sample sample_tls sample_headers sample_codes upstream
                (eth0 ∷ [])
                raw
                made
                is_made
                remote
                target
                none)
              get_root))
        ≡ 0)
delivered-aborts_example =
    delivered-aborts sample sample_tls sample_headers sample_codes upstream (eth0 ∷ []) raw made
      is_made remote target none get_root plays (inl aborts)

is_not_post : ¬ (◌≡◌ {A = String} "GET" "POST")
is_not_post e = ground (arith, eq_iff "GET" "POST", e)

is_no_get : NotUserSelects sample sample_tls 80 post_root abort_get
is_no_get w = is_not_post (ok-injective w.method_ok)

delivered-passes_example :
    handle sample sample_tls.ClientConfig upstream
      (service sample sample_tls sample_headers sample_codes upstream
        (eth0 ∷ [])
        raw
        made
        is_made
        remote
        target
        none)
      post_root
    ≡ pass_through sample sample_tls.ClientConfig upstream
        (service sample sample_tls sample_headers sample_codes upstream
          (eth0 ∷ [])
          raw
          made
          is_made
          remote
          target
          none)
        post_root
delivered-passes_example =
    delivered-passes sample sample_tls sample_headers sample_codes upstream (eth0 ∷ []) raw made
      is_made remote target none post_root (is_no_get, tt)
