-- ===== src/Handler/Action/Uris.antt =====
-- `append_queries`, `replace_path` and `replace_queries` of
-- chaos-tproxy-proxy/src/handler/http/action.rs.
use Prim.Native.String
use chaos_tproxy.Prelude.{List, [], ◌∷◌, Option, none, some, String, str_eq, if◌then◌else◌}
use chaos_tproxy.Outcome.{Result, ok}
use chaos_tproxy.Outcome.Results.{◌>>=◌}
use chaos_tproxy.External.{Http, HashMap, Parts}

-- `format!("{}{}{}", a, mark, b)`
abbrev pub joined : String → String → String → String
joined a mark b = String.◌++◌ a (String.◌++◌ mark b)

abbrev pub or_empty : Option String → String
or_empty none = ""
or_empty (some s) = s

-- `HashMap::insert` and `HashMap::extend`
unfoldable pub map_insert : String → String → HashMap → HashMap
map_insert k v [] = (k, v) ∷ []
map_insert k v ((j, w) ∷ m) = if str_eq j k then (k, v) ∷ m else (j, w) ∷ map_insert k v m

unfoldable pub map_extend : HashMap → List (String × String) → HashMap
map_extend m [] = m
map_extend m ((k, v) ∷ es) = map_extend (map_insert k v m) es

module _ (h : Http) where
  abbrev pub UriParts : Type 0
  UriParts = Parts h.Scheme h.Authority h.PathAndQuery

  -- `Uri::from_parts`, after the path and query are set to what a text parses to.
  abbrev pub with_paq : UriParts → String → Result h.Uri
  with_paq parts text = do
    paq ← h.parse_paq text
    h.from_parts (record parts { path_and_query = some paq })

  -- The text that `append_queries` parses.
  abbrev pub appended : Option h.PathAndQuery → String → String
  appended none queries = joined "/" "?" queries
  appended (some old) queries = elim (h.paq_query old) [
    | some q ↦ joined (h.paq_display old) "&" queries
    | none ↦ joined (h.paq_display old) "?" queries
  ]

  unfoldable pub append_queries : h.Uri → Option String → Result h.Uri
  append_queries uri raw_queries =
      let queries : String = or_empty raw_queries in
      let parts : UriParts = h.into_parts uri in
      if str_eq queries "" then ok uri else with_paq parts (appended parts.path_and_query queries)

  -- The text that `replace_path` parses, for a URI that has a path.
  abbrev pub repathed : String → Option String → String
  repathed path none = path
  repathed path (some q) = joined path "?" q

  abbrev pub non_empty : String → String
  non_empty p = if str_eq p "" then "/" else p

  abbrev pub replace_path_in : UriParts → Option h.PathAndQuery → String → Result h.Uri
  replace_path_in parts none path = h.from_parts parts
  replace_path_in parts (some paq) path = with_paq parts (repathed path (h.paq_query paq))

  unfoldable pub replace_path : h.Uri → Option String → Result h.Uri
  replace_path uri none = ok uri
  replace_path uri (some p) =
      let parts : UriParts = h.into_parts uri in
      replace_path_in parts parts.path_and_query (non_empty p)

  abbrev pub old_query : Option h.PathAndQuery → String
  old_query none = ""
  old_query (some paq) = or_empty (h.paq_query paq)

  abbrev pub old_path : Option h.PathAndQuery → String
  old_path none = "/"
  old_path (some paq) = h.paq_path paq

  -- The text that `replace_queries` parses.
  abbrev pub requeried : String → String → String
  requeried path q = if str_eq q "" then path else joined path "?" q

  unfoldable pub replace_queries : h.Uri → Option HashMap → Result h.Uri
  unfolding map_extend map_insert
  replace_queries uri none = ok uri
  replace_queries uri (some qs) =
      let parts : UriParts = h.into_parts uri in
      do
        query_map ← h.urldecode (old_query parts.path_and_query)
        encoded ← h.urlencode (h.hash_order (map_extend query_map (h.hash_order qs)))
        with_paq parts (requeried (old_path parts.path_and_query) encoded)
