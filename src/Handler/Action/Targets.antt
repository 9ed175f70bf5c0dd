-- ===== src/Handler/Action/Targets.antt =====
-- The path and query that the replacement and the patch of a rule leave of a request's URI.
use chaos_tproxy.Prelude.{
  ◌≡◌, ◌≢◌, refl, ◌∙◌, sym, ap, subst, ◌⊎◌, inl, inr, Bool-cases, false≢true, Option, none, some,
  String, str_eq, eq_iff,
}
use chaos_tproxy.Outcome.{ok}
use chaos_tproxy.Outcome.Results.{ok_parts, ok-injective}
use chaos_tproxy.External.{Http, HashMap}
use chaos_tproxy.External.Laws.{UriLaws}
use chaos_tproxy.Handler.Message.{Request}
use chaos_tproxy.Handler.Rule.{PatchAction, ReplaceAction}
use chaos_tproxy.Handler.Action.{replace_request, patch_request, patch_body}
use chaos_tproxy.Handler.Action.Uris.{
  joined, repathed, appended, non_empty, replace_path_in, with_paq, append_queries, replace_path,
  replace_queries,
}
use chaos_tproxy.Handler.Action.Queries.{IsRequeried, replace_queries-IsRequeried}

module _ (h : Http) where
  -- The path and query is what a text parses to, and all else is kept.
  pub record IsReset (uri : h.Uri) (text : String) (u : h.Uri) : Type 0 where
    pub paq : h.PathAndQuery
    pub parsed : h.parse_paq text ≡ ok paq
    pub only_it : h.into_parts u ≡ record (h.into_parts uri) { path_and_query = some paq }

  -- An empty path stands for the root, and the old query is kept behind the new path.
  abbrev Rooted : String → String → Type 0
  Rooted path path' = ((path ≡ "") × (path' ≡ "/")) ⊎ ((path ≢ "") × (path' ≡ path))

  abbrev Follows : Option String → String → String → Type 0
  Follows none path text = text ≡ path
  Follows (some q) path text = text ≡ joined path "?" q

  -- A URI that has no path and query gets none.
  abbrev pub IsRepathed : Option String → h.Uri → h.Uri → Type 0
  IsRepathed none uri u = u ≡ uri
  IsRepathed (some path) uri u =
      (((h.into_parts uri).path_and_query ≡ none) × (h.into_parts u ≡ h.into_parts uri))
      ⊎ ((old : h.PathAndQuery) × (path' : String) × (text : String) × ((h.into_parts
              uri).path_and_query
            ≡ some old)
          × Rooted path path'
          × Follows (h.paq_query old) path' text
          × IsReset uri text u)

  Rooted-path : (path : String) → Rooted path (non_empty h path)
  Rooted-path path = elim (Bool-cases (str_eq path "")) [
    | inl empty ↦ rw empty (inl ((eq_iff path "").0 empty, refl))
    | inr given ↦ rw given (inr (λ same. false≢true (sym given ∙ (eq_iff path "").1 same), refl))
  ]

  -- The mark between a path and query and the queries that are appended to it.
  abbrev mark_of : Option String → String
  mark_of none = "?"
  mark_of (some q) = "&"

  abbrev Appends : Option h.PathAndQuery → String → String → Type 0
  Appends none queries text = text ≡ joined "/" "?" queries
  Appends (some old) queries text =
      text ≡ joined (h.paq_display old) (mark_of (h.paq_query old)) queries

  abbrev pub IsAppended : Option String → h.Uri → h.Uri → Type 0
  IsAppended none uri u = u ≡ uri
  IsAppended (some queries) uri u =
      ((queries ≡ "") × (u ≡ uri))
      ⊎ ((queries ≢ "")
          × (text : String) × Appends (h.into_parts uri).path_and_query queries text
          × IsReset uri text u)

  abbrev pub IsRequeriedBy : Option HashMap → h.Uri → h.Uri → Type 0
  IsRequeriedBy none uri u = u ≡ uri
  IsRequeriedBy (some queries) uri u = IsRequeried h uri queries u

  abbrev path_of : Option (ReplaceAction h) → Option String
  path_of none = none
  path_of (some a) = a.path

  abbrev queries_of : Option (ReplaceAction h) → Option HashMap
  queries_of none = none
  queries_of (some a) = a.queries

  abbrev appended_of : Option (PatchAction h) → Option String
  appended_of none = none
  appended_of (some a) = a.queries

  -- The URI of a request after a replacement, and after a patch.
  pub record IsReplacedUri (action : Option (ReplaceAction h)) (uri u : h.Uri) : Type 0 where
    pub between : h.Uri
    pub repathed : IsRepathed (path_of action) uri between
    pub requeried : IsRequeriedBy (queries_of action) between u

  abbrev pub IsPatchedUri : Option (PatchAction h) → h.Uri → h.Uri → Type 0
  IsPatchedUri action uri u = IsAppended (appended_of action) uri u

  module _ (laws : UriLaws h) where
    with_paq-IsReset :
        (uri : h.Uri) (text : String) (u : h.Uri)
        → with_paq h (h.into_parts uri) text ≡ ok u
        → IsReset uri text u
    with_paq-IsReset uri text u e =
        let (paq, e₁, e₂) = ok_parts (h.parse_paq text) _ e in
        record { paq = paq; parsed = e₁; only_it = laws.into_from _ u e₂ }

    Follows-query :
        (query : Option String) (path : String) → Follows query path (repathed h path query)
    Follows-query none path = refl
    Follows-query (some q) path = refl

    replace_path_in-IsRepathed :
        (path : String) (uri u : h.Uri) (old : Option h.PathAndQuery)
        → (h.into_parts uri).path_and_query ≡ old
        → replace_path_in h (h.into_parts uri) old (non_empty h path) ≡ ok u
        → IsRepathed (some path) uri u
    replace_path_in-IsRepathed path uri u none missing e = inl (missing, laws.into_from _ u e)
    replace_path_in-IsRepathed path uri u (some old) present e = inr (
      old,
      non_empty h path,
      repathed h (non_empty h path) (h.paq_query old),
      present,
      Rooted-path path,
      Follows-query (h.paq_query old) (non_empty h path),
      with_paq-IsReset uri _ u e,
    )

    replace_path-IsRepathed :
        (path : Option String) (uri u : h.Uri)
        → replace_path h uri path ≡ ok u
        → IsRepathed path uri u
    unfolding replace_path
    replace_path-IsRepathed none uri u e = sym (ok-injective e)
    replace_path-IsRepathed (some path) uri u e =
        replace_path_in-IsRepathed path uri u (h.into_parts uri).path_and_query refl e

    Appends-query :
        (old : Option h.PathAndQuery) (queries : String)
        → Appends old queries (appended h old queries)
    Appends-query none queries = refl
    Appends-query (some old) queries =
        elim (h.paq_query old)
          as (λ query.
            (elim query [
              | some q ↦ joined (h.paq_display old) "&" queries
              | none ↦ joined (h.paq_display old) "?" queries
            ])
            ≡ joined (h.paq_display old) (mark_of query) queries) [ some q ↦ refl | none ↦ refl ]

    append_queries-IsAppended :
        (queries : Option String) (uri u : h.Uri)
        → append_queries h uri queries ≡ ok u
        → IsAppended queries uri u
    unfolding append_queries
    append_queries-IsAppended none uri u e = sym (ok-injective e)
    append_queries-IsAppended (some queries) uri u e = elim (Bool-cases (str_eq queries "")) [
      | inl empty ↦ inl ((eq_iff queries "").0 empty, sym (ok-injective (rw empty at e)))
      | inr given ↦ inr (
        λ same. false≢true (sym given ∙ (eq_iff queries "").1 same),
        _,
        Appends-query (h.into_parts uri).path_and_query queries,
        with_paq-IsReset uri _ u (rw given at e),
      )
    ]

    replace_queries-IsRequeriedBy :
        (queries : Option HashMap) (uri u : h.Uri)
        → replace_queries h uri queries ≡ ok u
        → IsRequeriedBy queries uri u
    unfolding replace_queries
    replace_queries-IsRequeriedBy none uri u e = sym (ok-injective e)
    replace_queries-IsRequeriedBy (some queries) uri u e =
        replace_queries-IsRequeried h laws uri u queries e

    pub replace_request-IsReplacedUri :
        (action : Option (ReplaceAction h)) (r r' : Request h)
        → replace_request h r action ≡ ok r'
        → IsReplacedUri action r.uri r'.uri
    unfolding replace_request
    replace_request-IsReplacedUri none r r' e = record {
      between = r.uri;
      repathed = refl;
      requeried = ap (λ x. x.uri) (sym (ok-injective e));
    }
    replace_request-IsReplacedUri (some a) r r' e =
        let (uri, e_path, e₁) = ok_parts (replace_path h r.uri a.path) _ e in
        let (uri', e_queries, e₂) = ok_parts (replace_queries h uri a.queries) _ e₁ in
        subst (λ x. IsReplacedUri (some a) r.uri x.uri) (ok-injective e₂)
          (record {
            between = uri;
            repathed = replace_path-IsRepathed a.path r.uri uri e_path;
            requeried = replace_queries-IsRequeriedBy a.queries uri uri' e_queries;
          })

    pub patch_request-IsPatchedUri :
        (action : Option (PatchAction h)) (r r' : Request h)
        → patch_request h r action ≡ ok r'
        → IsPatchedUri action r.uri r'.uri
    unfolding patch_request
    patch_request-IsPatchedUri none r r' e = ap (λ x. x.uri) (sym (ok-injective e))
    patch_request-IsPatchedUri (some a) r r' e =
        let (uri, e_queries, e₁) = ok_parts (append_queries h r.uri a.queries) _ e in
        let (hb, _, e₂) = ok_parts (patch_body h a.body (r.headers, r.body)) _ e₁ in
        subst (λ x. IsAppended a.queries r.uri x.uri) (ok-injective e₂)
          (append_queries-IsAppended a.queries r.uri uri e_queries)
