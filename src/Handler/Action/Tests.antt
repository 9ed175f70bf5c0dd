-- ===== src/Handler/Action/Tests.antt =====
-- Edits of a sample URI.
use chaos_tproxy.Prelude.{◌≡◌, refl, [], ◌∷◌, Option, none, some, String}
use chaos_tproxy.Outcome.{ok}
use chaos_tproxy.External.{HashMap, Parts}
use chaos_tproxy.External.Sample.{sample, sample_uris, Paq}
use chaos_tproxy.Handler.Action.Uris.{
  map_insert, map_extend, append_queries, replace_path, replace_queries,
}
use chaos_tproxy.Handler.Action.Queries.{IsRequeried, replace_queries-IsRequeried}

abbrev uri_at : String → Option String → Parts String String Paq
uri_at path query = record {
  scheme = none;
  authority = none;
  path_and_query = some (record { path = path; query = query });
}

appends :
    append_queries sample (uri_at "/a" (some "x=1")) (some "y=2")
    ≡ ok (uri_at "/a" (some "x=1&y=2"))
unfolding append_queries
appends = refl

empties_path :
    replace_path sample (uri_at "/a" (some "x=1")) (some "") ≡ ok (uri_at "/" (some "x=1"))
unfolding replace_path
empties_path = refl

abbrev given : HashMap
given = ("y", "2") ∷ ("z", "3") ∷ []

sets_queries :
    replace_queries sample (uri_at "/a" none) (some given) ≡ ok (uri_at "/a" (some "y=2&z=3"))
unfolding replace_queries map_extend map_insert
sets_queries = refl

requeries : IsRequeried sample (uri_at "/a" none) given (uri_at "/a" (some "y=2&z=3"))
requeries =
    replace_queries-IsRequeried sample sample_uris (uri_at "/a" none) (uri_at "/a" (some "y=2&z=3"))
      given sets_queries
