-- ===== src/Service.antt =====
-- chaos-tproxy-proxy/src/proxy/http/server.rs, `HttpService`, with `HTTPConfig` of
-- chaos-tproxy-proxy/src/proxy/http/config.rs: one request, from the client to the target and back.
-- The hyper client behind the transparent connector is the parameter `Upstream`.
pub mod Rules
pub mod Forward
pub mod Laws
pub mod Transparent
pub mod Unselected
pub mod Responses
mod Tests
use chaos_tproxy.Prelude.{
  ℕ, Bool, true, false, ◌&&◌, List, [], ◌∷◌, Option, none, some, String, filter, find,
}
use chaos_tproxy.Outcome.{Result, ok, err, Run, done, after}
use chaos_tproxy.Outcome.Results.{◌>>=◌ as and_then}
use chaos_tproxy.Outcome.Runs.{lift, ◌>>=◌, ◌>>◌}
use chaos_tproxy.External.{Http, Parts}
use chaos_tproxy.Handler.Message.{Request, Response, Event, forwarded}
use chaos_tproxy.Handler.Rule.{SocketAddr, Role, Target, request, response, Rule}
use chaos_tproxy.Handler.Selector.{select_role, select_request, select_response}
use chaos_tproxy.Handler.Apply.{apply_request_action, apply_response_action}

pub record HttpConfig (h : Http) : Type 0 where
  pub listen_port : ℕ
  pub rules : List (Rule h)
  pub role : Option Role

-- `C` is the TLS configuration of the client.
pub record HttpService (h : Http) (C : Type 0) : Type 0 where
  pub remote : SocketAddr
  pub target : SocketAddr
  pub config : HttpConfig h
  pub tls_client_config : Option C

-- What the request that is sent on meets: the client, over TLS or not, that connects to the first
-- address from the second, and the printing of an address.
pub record Upstream (h : Http) (C : Type 0) : Type 0 where
  pub send : Option C → SocketAddr → SocketAddr → Request h → Result (Response h)
  pub show_addr : SocketAddr → String

abbrev pub is_request : Target → Bool
is_request request = true
is_request response = false

abbrev pub is_response : Target → Bool
is_response request = false
is_response response = true

abbrev pub role_allows : SocketAddr → SocketAddr → Option Role → Bool
role_allows remote target none = true
role_allows remote target (some role) = select_role remote.ip target.ip role

module _ (h : Http) where
  -- The two loops over the rules that were selected.
  unfoldable pub apply_request_rules : List (Rule h) → Request h → Run (Event h) (Request h)
  apply_request_rules [] r = done r
  apply_request_rules (rule ∷ rules) r = do
    changed ← apply_request_action h r rule.actions
    apply_request_rules rules changed

  unfoldable pub apply_response_rules : List (Rule h) → Response h → Run (Event h) (Response h)
  apply_response_rules [] r = done r
  apply_response_rules (rule ∷ rules) r = do
    changed ← apply_response_action h r rule.actions
    apply_response_rules rules changed

  -- `Ok(o) => Some(o), Err(_) => None`
  abbrev pub to_option {ℓ} : {A : Type ℓ} → Result A → Option A
  to_option (ok a) = some a
  to_option (err e) = none

  abbrev pub or_root : Option h.PathAndQuery → Option h.PathAndQuery
  or_root none = some h.paq_root
  or_root (some paq) = some paq

  -- The authority of the forwarded request: the first `Host` header, or else the target's address.
  unfoldable pub find_authority :
      Option (h.HeaderName × h.HeaderValue) → String → Result (Option h.Authority)
  find_authority none target = ok (to_option (h.parse_authority target))
  find_authority (some (name, value)) target =
      and_then (h.authority_from_value value) (λ authority. ok (some authority))

  -- A gateway error with no header and an empty body.
  abbrev pub bad_gateway_response : Response h
  bad_gateway_response = record {
    status = h.bad_gateway;
    headers = h.header_new;
    body = h.body_empty;
  }

  abbrev pub or_bad_gateway : Result (Response h) → Response h
  or_bad_gateway (ok r) = r
  or_bad_gateway (err e) = bad_gateway_response

module _ (h : Http) (C : Type 0) (up : Upstream h C) where
  abbrev pub scheme_of : Option C → h.Scheme
  scheme_of none = h.scheme_http
  scheme_of (some tls) = h.scheme_https

  unfoldable pub role_ok : HttpService h C → Bool
  role_ok self = role_allows self.remote self.target self.config.role

  -- The URI that is sent on: the request's URL is not in the HTTP request, so it is rebuilt.
  unfoldable pub rebuild_uri : HttpService h C → Request h → Result h.Uri
  rebuild_uri self r =
      let parts : Parts h.Scheme h.Authority h.PathAndQuery = h.into_parts r.uri in
      and_then
        (find_authority h (find (λ (name, value). h.name_eq name h.host) (h.header_iter r.headers))
          (up.show_addr self.target))
        (λ authority. h.from_parts (record {
          scheme = some (scheme_of self.tls_client_config);
          authority = authority;
          path_and_query = or_root h parts.path_and_query;
        }))

  -- The request goes out, and a failure to get a response is a gateway error.
  unfoldable pub forward : HttpService h C → Request h → Run (Event h) (Response h)
  forward self r =
      after (forwarded r)
        (done (or_bad_gateway h (up.send self.tls_client_config self.target self.remote r)))

  abbrev pub request_rules : HttpService h C → Request h → List (Rule h)
  request_rules self r =
      filter
        (λ rule.
          role_ok self
          && is_request rule.target
          && select_request h self.target.port r rule.selector)
        self.config.rules

  abbrev pub response_rules : HttpService h C → Request h → Response h → List (Rule h)
  response_rules self r answer =
      filter
        (λ rule.
          role_ok self
          && is_response rule.target
          && select_response h self.target.port r.uri r.method r.headers answer rule.selector)
        self.config.rules

  -- `HttpService::handle`
  unfoldable pub handle : HttpService h C → Request h → Run (Event h) (Response h)
  handle self r = do
    changed ← apply_request_rules h (request_rules self r) r
    uri ← lift (rebuild_uri self changed)
    answer ← forward self (record changed { uri = uri })
    apply_response_rules h (response_rules self changed answer) answer
