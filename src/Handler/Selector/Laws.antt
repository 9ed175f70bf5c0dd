-- ===== src/Handler/Selector/Laws.antt =====
-- What the tests of selector.rs decide, stated with no order of evaluation in it.
use chaos_tproxy.Prelude.{
  ℕ, ◌≡◌, refl, subst, ◌↔◌, inl, inr, true, List, [], ◌∷◌, ◌==◌, ==_iff, Bool-cases, any, All, Some,
  Given, all_iff, any_iff, all_some_iff, and_iff,
}
use chaos_tproxy.External.{Http}
use chaos_tproxy.External.Laws.{HeaderLaws, CodeLaws, values_at}
use chaos_tproxy.Handler.Message.{Request, Response}
use chaos_tproxy.Handler.Rule.{IpAddr, v4, v6, Role, client, server, Selector}
use chaos_tproxy.Handler.Selector.{select_role, has_fields, select_request, select_response}

-- The address is an IPv4 address of the list.
abbrev pub IsAmong : IpAddr → List ℕ → Type 0
IsAmong (v4 ip) ips = Some (λ x. x ≡ ip) ips
IsAmong (v6 ip) ips = ⊥

abbrev pub IsV4 : IpAddr → Type 0
IsV4 (v4 ip) = Unit
IsV4 (v6 ip) = ⊥

-- A client role looks at the source and a server role at the destination, both being IPv4.
abbrev pub PlaysRole : IpAddr → IpAddr → Role → Type 0
PlaysRole src dst (client ips) = IsAmong src ips × IsV4 dst
PlaysRole src dst (server ips) = IsV4 src × IsAmong dst ips

any-eq : (ips : List ℕ) (ip : ℕ) → (any (λ x. x == ip) ips ≡ true) ↔ Some (λ x. x ≡ ip) ips
any-eq ips ip = any_iff (λ x. x ≡ ip) (λ x. x == ip) (λ x. ==_iff x ip) ips

-- `select_role` answers true exactly when both addresses are IPv4 and the one that the role looks
-- at, the source for a client and the destination for a server, is in the role's list.
pub select_role_iff :
    (src dst : IpAddr) (role : Role) → (select_role src dst role ≡ true) ↔ PlaysRole src dst role
unfolding select_role
select_role_iff (v4 a) (v4 b) (client ips) =
    (λ e. ((any-eq ips a).0 e, tt), λ p. (any-eq ips a).1 p.0)
select_role_iff (v4 a) (v4 b) (server ips) =
    (λ e. (tt, (any-eq ips b).0 e), λ p. (any-eq ips b).1 p.1)
select_role_iff (v4 a) (v6 b) (client ips) = (λ e. cc, λ p. absurd p.1)
select_role_iff (v4 a) (v6 b) (server ips) = (λ e. cc, λ p. absurd p.1)
select_role_iff (v6 a) dst (client ips) = (λ e. cc, λ p. absurd p.0)
select_role_iff (v6 a) dst (server ips) = (λ e. cc, λ p. absurd p.0)

module _ (h : Http) where
  -- Every value that the fields give to a name is among the values that the headers give to it.
  abbrev pub HasFields : h.HeaderMap → h.HeaderMap → Type 0
  HasFields headers fields =
      (n : h.HeaderName)
      → All (λ v. Some (λ f. f ≡ v) (h.header_get_all headers n)) (h.header_get_all fields n)

  abbrev EntryIn : h.HeaderMap → h.HeaderName × h.HeaderValue → Type 0
  EntryIn headers e = Some (λ f. f ≡ e.1) (h.header_get_all headers e.0)

  -- What a request must have for the rule to be about it.
  pub record SelectsRequest (port : ℕ) (r : Request h) (s : Selector h) : Type 0 where
    pub port_ok : Given (λ p. port ≡ p) s.port
    pub path_ok : Given (λ p. h.wild_matches p (h.uri_path r.uri) ≡ true) s.path
    pub method_ok : Given (λ m. r.method ≡ m) s.method
    pub headers_ok : Given (HasFields r.headers) s.request_headers

  pub record SelectsResponse (port : ℕ) (r : Request h) (response : Response h) (s : Selector h)
      : Type 0 where
    pub about_request : SelectsRequest port r s
    pub code_ok : Given (λ c. response.status ≡ c) s.code
    pub response_headers_ok : Given (HasFields response.headers) s.response_headers

  module _ (laws : HeaderLaws h) where
    entries→values :
        (headers : h.HeaderMap) (es : List (h.HeaderName × h.HeaderValue))
        → All (EntryIn headers) es
        → (n : h.HeaderName)
        → All (λ v. Some (λ f. f ≡ v) (h.header_get_all headers n)) (values_at h n es)
    entries→values headers [] a n = tt
    entries→values headers ((k, v) ∷ es) (here, later) n = elim (Bool-cases (h.name_eq k n)) [
      | inl same ↦
          let k_is_n : k ≡ n = (laws.name_iff k n).0 same in
          let here_n : EntryIn headers (n, v) = subst (λ x. EntryIn headers (x, v)) k_is_n here in
          rw same (here_n, entries→values headers es later n)
      | inr other ↦ rw other (entries→values headers es later n)
    ]

    values_tail :
        (P : h.HeaderValue → Type 0) (k : h.HeaderName) (v : h.HeaderValue)
        (es : List (h.HeaderName × h.HeaderValue)) (n : h.HeaderName)
        → All P (values_at h n ((k, v) ∷ es))
        → All P (values_at h n es)
    values_tail P k v es n a = elim (Bool-cases (h.name_eq k n)) [
      | inl same ↦ (rw same at a).1
      | inr other ↦ rw other at a
    ]

    values→entries :
        (headers : h.HeaderMap) (es : List (h.HeaderName × h.HeaderValue))
        → ((n : h.HeaderName)
            → All (λ v. Some (λ f. f ≡ v) (h.header_get_all headers n)) (values_at h n es))
        → All (EntryIn headers) es
    values→entries headers [] a = tt
    values→entries headers ((k, v) ∷ es) a =
        let self : h.name_eq k k ≡ true = (laws.name_iff k k).1 refl in
        let here = a k in
        ((rw self at here).0, values→entries headers es (λ n. values_tail _ k v es n (a n)))

    has_fields_iff :
        (headers fields : h.HeaderMap)
        → (has_fields h headers fields ≡ true) ↔ HasFields headers fields
    unfolding has_fields
    has_fields_iff headers fields =
        let entries =
          all_iff (EntryIn headers)
            (λ (n, v). any (λ f. h.value_eq f v) (h.header_get_all headers n))
            (λ (n, v).
              any_iff (λ f. f ≡ v) (λ f. h.value_eq f v) (λ f. laws.value_iff f v)
                (h.header_get_all headers n))
            (h.header_iter fields) in
        (
          λ e n. rw (laws.get_iter fields n) (entries→values headers _ (entries.0 e) n),
          λ a. entries.1 (values→entries headers _ (λ n. rw (laws.get_iter fields n) at (a n))),
        )

    module _ (codes : CodeLaws h) where
      -- `select_request` answers true exactly on the requests that have all that the selector asks
      -- for: its port, a path that its pattern matches, its method, and every value of its headers.
      pub select_request_iff :
          (port : ℕ) (r : Request h) (s : Selector h)
          → (select_request h port r s ≡ true) ↔ SelectsRequest port r s
      unfolding select_request
      select_request_iff port r s =
          let tests =
            and_iff _ _
              (and_iff _ _
                (and_iff _ _ (all_some_iff (λ p. port ≡ p) _ (λ p. ==_iff port p) s.port) (
                  all_some_iff (λ p. h.wild_matches p (h.uri_path r.uri) ≡ true) _
                    (λ p. (λ e. e, λ e. e)) s.path))
                (all_some_iff (λ m. r.method ≡ m) _ (λ m. codes.method_iff r.method m) s.method))
              (all_some_iff (HasFields r.headers) _ (has_fields_iff r.headers) s.request_headers) in
          (
            λ e.
                let (((a, b), c), d) = tests.0 e in
                record { port_ok = a; path_ok = b; method_ok = c; headers_ok = d },
            λ w. tests.1 (((w.port_ok, w.path_ok), w.method_ok), w.headers_ok),
          )

      -- `select_response` answers true exactly if the request is selected, the response has the
      -- selector's status code, and its headers have every value of the selector's.
      pub select_response_iff :
          (port : ℕ) (r : Request h) (response : Response h) (s : Selector h)
          → (select_response h port r.uri r.method r.headers response s ≡ true)
            ↔ SelectsResponse port r response s
      unfolding select_response
      select_response_iff port r response s =
          let tests =
            and_iff _ _
              (and_iff _ _
                (and_iff _ _
                  (and_iff _ _
                    (and_iff _ _ (all_some_iff (λ p. port ≡ p) _ (λ p. ==_iff port p) s.port) (
                      all_some_iff (λ p. h.wild_matches p (h.uri_path r.uri) ≡ true) _
                        (λ p. (λ e. e, λ e. e)) s.path))
                    (all_some_iff (λ m. r.method ≡ m) _ (λ m. codes.method_iff r.method m)
                      s.method))
                  (all_some_iff (λ c. response.status ≡ c) _
                    (λ c. codes.status_iff response.status c) s.code))
                (all_some_iff (HasFields r.headers) _ (has_fields_iff r.headers) s.request_headers))
              (all_some_iff (HasFields response.headers) _ (has_fields_iff response.headers)
                s.response_headers) in
          (
            λ e.
                let (((((a, b), c), d), f), g) = tests.0 e in
                record {
                  about_request = record {
                    port_ok = a;
                    path_ok = b;
                    method_ok = c;
                    headers_ok = f;
                  };
                  code_ok = d;
                  response_headers_ok = g;
                },
            λ w. tests.1 (
              (
                (
                  ((w.about_request.port_ok, w.about_request.path_ok), w.about_request.method_ok),
                  w.code_ok,
                ),
                w.about_request.headers_ok,
              ),
              w.response_headers_ok,
            ),
          )
