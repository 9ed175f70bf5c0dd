-- ===== src/Handler/Selector.antt =====
-- chaos-tproxy-proxy/src/handler/http/selector.rs: which messages a rule is about.
-- `wildmatch` and the header maps are the crates' (External.antt).
pub mod Laws
mod Tests
use chaos_tproxy.Prelude.{ℕ, Bool, false, ◌&&◌, List, ◌==◌, all, any, all_some}
use chaos_tproxy.External.{Http}
use chaos_tproxy.Handler.Message.{Request, Response}
use chaos_tproxy.Handler.Rule.{Ipv4Addr, IpAddr, v4, v6, Role, client, server, Selector}

-- The last `match` of `select_role`.
abbrev role_has : Ipv4Addr → Ipv4Addr → Role → Bool
role_has src dst (client ipv4s) = any (λ ipv4. ipv4 == src) ipv4s
role_has src dst (server ipv4s) = any (λ ipv4. ipv4 == dst) ipv4s

unfoldable pub select_role : IpAddr → IpAddr → Role → Bool
select_role (v4 src) (v4 dst) role = role_has src dst role
select_role (v4 src) (v6 _) role = false
select_role (v6 _) dst role = false

module _ (h : Http) where
  -- Every field of the selector is among the headers of the message.
  unfoldable pub has_fields : h.HeaderMap → h.HeaderMap → Bool
  has_fields headers fields =
      all (λ (header, value). any (λ f. h.value_eq f value) (h.header_get_all headers header))
        (h.header_iter fields)

  unfoldable pub select_request : ℕ → Request h → Selector h → Bool
  select_request port request selector =
      all_some (λ p. port == p) selector.port
      && all_some (λ p. h.wild_matches p (h.uri_path request.uri)) selector.path
      && all_some (λ m. h.method_eq request.method m) selector.method
      && all_some (has_fields request.headers) selector.request_headers

  unfoldable pub select_response :
      ℕ → h.Uri → h.Method → h.HeaderMap → Response h → Selector h → Bool
  select_response port uri method request_headers response selector =
      all_some (λ p. port == p) selector.port
      && all_some (λ p. h.wild_matches p (h.uri_path uri)) selector.path
      && all_some (λ m. h.method_eq method m) selector.method
      && all_some (λ code. h.status_eq response.status code) selector.code
      && all_some (has_fields request_headers) selector.request_headers
      && all_some (has_fields response.headers) selector.response_headers
