-- ===== src/Service/Forward.antt =====
-- The request that is sent on: its URI is rebuilt from the rules' result.
use chaos_tproxy.Prelude.{refl, ◌≡◌, inl, inr, List, [], ◌∷◌, Option, none, some, find, Bool-cases}
use chaos_tproxy.Outcome.{ok}
use chaos_tproxy.Outcome.Results.{ok_parts}
use chaos_tproxy.External.{Http}
use chaos_tproxy.External.Laws.{HeaderLaws, UriLaws, values_at}
use chaos_tproxy.Handler.Message.{Request}
use chaos_tproxy.Service.{
  HttpService, Upstream, to_option, or_root, find_authority, scheme_of, rebuild_uri,
}

abbrev pub first {ℓ} : {A : Type ℓ} → List A → Option A
first [] = none
first (x ∷ xs) = some x

module _ (h : Http) (C : Type 0) (up : Upstream h C) where
  -- The authority for a first `Host` value: it is what the value parses to, and without one the
  -- target's address, or none where that is no authority.
  abbrev pub NamesHost : HttpService h C → Option h.HeaderValue → Option h.Authority → Type 0
  NamesHost self none authority =
      authority ≡ to_option h (h.parse_authority (up.show_addr self.target))
  NamesHost self (some v) authority =
      (a : h.Authority) × (h.authority_from_value v ≡ ok a) × (authority ≡ some a)

  -- The scheme: HTTPS for a service with a TLS configuration, HTTP for one without.
  abbrev pub HasScheme : Option C → Option h.Scheme → Type 0
  HasScheme none scheme = scheme ≡ some h.scheme_http
  HasScheme (some tls) scheme = scheme ≡ some h.scheme_https

  HasScheme-scheme_of : (tls : Option C) → HasScheme tls (some (scheme_of h C up tls))
  HasScheme-scheme_of none = refl
  HasScheme-scheme_of (some tls) = refl

  -- The path and query: those of the request, and the root if it has none.
  abbrev pub HasPath : Option h.PathAndQuery → Option h.PathAndQuery → Type 0
  HasPath none paq = paq ≡ some h.paq_root
  HasPath (some old) paq = paq ≡ some old

  HasPath-or_root : (old : Option h.PathAndQuery) → HasPath old (or_root h old)
  HasPath-or_root none = refl
  HasPath-or_root (some paq) = refl

  -- The parts of the URI that is sent on for a request.
  pub record IsRebuilt (self : HttpService h C) (r : Request h) (uri : h.Uri) : Type 0 where
    pub scheme_set : HasScheme self.tls_client_config (h.into_parts uri).scheme
    pub path_kept : HasPath (h.into_parts r.uri).path_and_query (h.into_parts uri).path_and_query
    pub authority_set :
        NamesHost self (first (h.header_get_all r.headers h.host)) (h.into_parts uri).authority

  module _ (self : HttpService h C) where
    found_host :
        (es : List (h.HeaderName × h.HeaderValue)) (authority : Option h.Authority)
        → find_authority h
            (find (λ (name, value). h.name_eq name h.host) es)
            (up.show_addr self.target)
          ≡ ok authority
        → NamesHost self (first (values_at h h.host es)) authority
    unfolding find_authority
    found_host [] authority e = cc
    found_host ((k, v) ∷ es) authority e = elim (Bool-cases (h.name_eq k h.host)) [
      | inl same ↦
          let (a, parsed, e₁) = ok_parts (h.authority_from_value v) _ (rw same at e) in
          rw same (a, parsed, cc)
      | inr other ↦ rw other (found_host es authority (rw other at e))
    ]

    pub rebuild_uri-IsRebuilt :
        (headers : HeaderLaws h) (uris : UriLaws h) (r : Request h) (uri : h.Uri)
        → rebuild_uri h C up self r ≡ ok uri
        → IsRebuilt self r uri
    unfolding rebuild_uri
    rebuild_uri-IsRebuilt headers uris r uri e =
        let (authority, found, built) = ok_parts (find_authority h _ _) _ e in
        let back = uris.into_from _ uri built in
        record {
          scheme_set = rw back (HasScheme-scheme_of self.tls_client_config);
          path_kept = rw back (HasPath-or_root (h.into_parts r.uri).path_and_query);
          authority_set =
              rw (headers.get_iter r.headers h.host, back)
                (found_host (h.header_iter r.headers) authority found);
        }
