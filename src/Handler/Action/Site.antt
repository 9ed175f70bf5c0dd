-- ===== src/Handler/Action/Site.antt =====
-- The parts of a request that no action can reach: the scheme and the authority of its URI.
use chaos_tproxy.Prelude.{
  ◌≡◌, refl, ◌∙◌, Bool-cases, Option, none, some, arith, String, str_eq, ap, inl, inr, subst,
  Option-cases,
}
use chaos_tproxy.Outcome.{Result, ok}
use chaos_tproxy.Outcome.Results.{ok_parts, ok-injective}
use chaos_tproxy.External.{Http, HashMap}
use chaos_tproxy.External.Laws.{UriLaws}
use chaos_tproxy.Handler.Message.{Request}
use chaos_tproxy.Handler.Rule.{PatchAction, ReplaceAction}
use chaos_tproxy.Handler.Action.{replace_request, patch_request, set_some, patch_body}
use chaos_tproxy.Handler.Action.Uris.{
  UriParts, with_paq, append_queries, replace_path, replace_queries, or_empty,
}

module _ (h : Http) where
  -- The URI has this scheme and this authority.
  pub record HasSite (parts : UriParts h) (u : h.Uri) : Type 0 where
    pub scheme_kept : (h.into_parts u).scheme ≡ parts.scheme
    pub authority_kept : (h.into_parts u).authority ≡ parts.authority

  -- The method that a replacement leaves.
  abbrev pub replaced_method : Option (ReplaceAction h) → h.Method → h.Method
  replaced_method none old = old
  replaced_method (some a) old = set_some a.method old

  module _ (laws : UriLaws h) where
    from_parts-HasSite :
        (parts parts' : UriParts h) (u : h.Uri)
        → parts'.scheme ≡ parts.scheme
        → parts'.authority ≡ parts.authority
        → h.from_parts parts' ≡ ok u
        → HasSite parts u
    from_parts-HasSite parts parts' u s a e =
        let back = laws.into_from parts' u e in
        record {
          scheme_kept = ap (λ p. p.scheme) back ∙ s;
          authority_kept = ap (λ p. p.authority) back ∙ a;
        }

    with_paq-HasSite :
        (parts : UriParts h) (text : String) (u : h.Uri)
        → with_paq h parts text ≡ ok u
        → HasSite parts u
    with_paq-HasSite parts text u e =
        let (paq, _, e₁) = ok_parts (h.parse_paq text) _ e in
        from_parts-HasSite parts (record parts { path_and_query = some paq }) u refl refl e₁

    unchanged-HasSite :
        (uri u : h.Uri) → ◌≡◌ {A = Result h.Uri} (ok uri) (ok u) → HasSite (h.into_parts uri) u
    unchanged-HasSite uri u e =
        subst (HasSite (h.into_parts uri)) (ok-injective e)
          (record { scheme_kept = refl; authority_kept = refl })

    append_queries-HasSite :
        (uri u : h.Uri) (queries : Option String)
        → append_queries h uri queries ≡ ok u
        → HasSite (h.into_parts uri) u
    unfolding append_queries
    append_queries-HasSite uri u queries e = elim (Bool-cases (str_eq (or_empty queries) "")) [
      | inl empty ↦ unchanged-HasSite uri u (rw empty at e)
      | inr given ↦ with_paq-HasSite (h.into_parts uri) _ u (rw given at e)
    ]

    replace_path-HasSite :
        (uri u : h.Uri) (path : Option String)
        → replace_path h uri path ≡ ok u
        → HasSite (h.into_parts uri) u
    unfolding replace_path
    replace_path-HasSite uri u none e = unchanged-HasSite uri u e
    replace_path-HasSite uri u (some p) e = elim (Option-cases (h.into_parts uri).path_and_query) [
      | inl missing ↦
          from_parts-HasSite (h.into_parts uri) (h.into_parts uri) u refl refl (ground arith)
      | inr (paq, present) ↦ with_paq-HasSite (h.into_parts uri) _ u (rw (present) at e)
    ]

    replace_queries-HasSite :
        (uri u : h.Uri) (queries : Option HashMap)
        → replace_queries h uri queries ≡ ok u
        → HasSite (h.into_parts uri) u
    unfolding replace_queries
    replace_queries-HasSite uri u none e = unchanged-HasSite uri u e
    replace_queries-HasSite uri u (some qs) e =
        let (query_map, _, e₁) = ok_parts (h.urldecode _) _ e in
        let (encoded, _, e₂) = ok_parts (h.urlencode _) _ e₁ in
        with_paq-HasSite (h.into_parts uri) _ u e₂

    pub HasSite-trans :
        {parts : UriParts h} {u v : h.Uri}
        → HasSite parts u
        → HasSite (h.into_parts u) v
        → HasSite parts v
    HasSite-trans a b = record {
      scheme_kept = b.scheme_kept ∙ a.scheme_kept;
      authority_kept = b.authority_kept ∙ a.authority_kept;
    }

    pub replace_request-parts :
        (action : Option (ReplaceAction h)) (r r' : Request h)
        → replace_request h r action ≡ ok r'
        → HasSite (h.into_parts r.uri) r'.uri × (r'.method ≡ replaced_method action r.method)
    unfolding replace_request
    replace_request-parts none r r' e =
        subst (λ x. HasSite (h.into_parts r.uri) x.uri × (x.method ≡ r.method)) (ok-injective e)
          (record { scheme_kept = refl; authority_kept = refl }, refl)
    replace_request-parts (some a) r r' e =
        let (uri, e_path, e₁) = ok_parts (replace_path h r.uri a.path) _ e in
        let (uri', e_queries, e₂) = ok_parts (replace_queries h uri a.queries) _ e₁ in
        let site =
          HasSite-trans (replace_path-HasSite r.uri uri a.path e_path)
            (replace_queries-HasSite uri uri' a.queries e_queries) in
        subst (λ x. HasSite (h.into_parts r.uri) x.uri × (x.method ≡ set_some a.method r.method))
          (ok-injective e₂) (site, refl)

    pub patch_request-parts :
        (action : Option (PatchAction h)) (r r' : Request h)
        → patch_request h r action ≡ ok r'
        → HasSite (h.into_parts r.uri) r'.uri × (r'.method ≡ r.method)
    unfolding patch_request
    patch_request-parts none r r' e =
        subst (λ x. HasSite (h.into_parts r.uri) x.uri × (x.method ≡ r.method)) (ok-injective e)
          (record { scheme_kept = refl; authority_kept = refl }, refl)
    patch_request-parts (some a) r r' e =
        let (uri, e_queries, e₁) = ok_parts (append_queries h r.uri a.queries) _ e in
        let (hb, _, e₂) = ok_parts (patch_body h a.body (r.headers, r.body)) _ e₁ in
        subst (λ x. HasSite (h.into_parts r.uri) x.uri × (x.method ≡ r.method)) (ok-injective e₂)
          (append_queries-HasSite r.uri uri a.queries e_queries, refl)
