-- ===== src/Handler/Action/Queries.antt =====
-- The queries that `replace_queries` of chaos-tproxy-proxy/src/handler/http/action.rs leaves.
use chaos_tproxy.Prelude.{
  ◌≡◌, refl, ◌∙◌, sym, ap, Bool, true, false, Bool-cases, inl, inr, List, [], ◌∷◌, Option, none,
  some, String, str_eq, eq_iff, if◌then◌else◌, false≢true,
}
use chaos_tproxy.Outcome.{ok}
use chaos_tproxy.Outcome.Results.{ok_parts}
use chaos_tproxy.External.{Http, HashMap}
use chaos_tproxy.External.Laws.{UriLaws}
use chaos_tproxy.Handler.Action.Uris.{
  map_insert, map_extend, old_query, old_path, requeried, replace_queries,
}

-- The value of a key in a map, and the last one that a list of entries gives to it.
abbrev pub value_in : String → HashMap → Option String
value_in k [] = none
value_in k ((j, v) ∷ m) = if str_eq j k then some v else value_in k m

abbrev pub or_else : Option String → Option String → Option String
or_else none later = later
or_else (some v) later = some v

abbrev pub last_of : String → List (String × String) → Option String
last_of k [] = none
last_of k ((j, v) ∷ es) = or_else (last_of k es) (if str_eq j k then some v else none)

same_key : (a b c : String) → str_eq a b ≡ true → str_eq a c ≡ str_eq b c
same_key a b c e = ap (λ x. str_eq x c) ((eq_iff a b).0 e)

other_key : (i j k : String) → str_eq i j ≡ false → str_eq i k ≡ true → str_eq j k ≡ false
other_key i j k other here = elim (Bool-cases (str_eq j k)) [
  | inl same ↦
      elim (false≢true
        (sym other ∙ (eq_iff i j).1 ((eq_iff i k).0 here ∙ sym ((eq_iff j k).0 same)))) [ ]
  | inr e ↦ e
]

shadowed :
    (b : Bool) (v w : String) (rest : Option String)
    → (if b then some v else rest) ≡ (if b then some v else if b then some w else rest)
shadowed true v w rest = refl
shadowed false v w rest = refl

map_insert-value_in :
    (k j v : String) (m : HashMap)
    → value_in k (map_insert j v m) ≡ (if str_eq j k then some v else value_in k m)
unfolding map_insert
map_insert-value_in k j v [] = refl
map_insert-value_in k j v ((i, w) ∷ m) = elim (Bool-cases (str_eq i j)) [
  | inl same ↦ rw (same, same_key i j k same) (shadowed (str_eq j k) v w (value_in k m))
  | inr other ↦ rw other (elim (Bool-cases (str_eq i k)) [
    | inl here ↦ rw (here, other_key i j k other here) refl
    | inr there ↦ rw there (map_insert-value_in k j v m)
  ])
]

or_else_step :
    (last : Option String) (b : Bool) (v : String) (old : Option String)
    → or_else last (if b then some v else old)
      ≡ or_else (or_else last (if b then some v else none)) old
or_else_step none true v old = refl
or_else_step none false v old = refl
or_else_step (some w) b v old = refl

map_extend-value_in :
    (k : String) (m : HashMap) (es : List (String × String))
    → value_in k (map_extend m es) ≡ or_else (last_of k es) (value_in k m)
unfolding map_extend
map_extend-value_in k m [] = refl
map_extend-value_in k m ((j, v) ∷ es) =
    map_extend-value_in k (map_insert j v m) es
    ∙ (ap (or_else (last_of k es)) (map_insert-value_in k j v m)
        ∙ or_else_step (last_of k es) (str_eq j k) v (value_in k m))

module _ (h : Http) where
  -- What `replace_queries` leaves of a URI, from the queries that it is given: the old query is
  -- decoded and the new one encoded from a map that has each given value and keeps the others, and
  -- all else of the URI is kept.
  pub record IsRequeried (uri : h.Uri) (qs : HashMap) (u : h.Uri) : Type 0 where
    pub decoded : HashMap
    pub merged : HashMap
    pub encoded : String
    pub paq : h.PathAndQuery
    pub old_decoded : h.urldecode (old_query h (h.into_parts uri).path_and_query) ≡ ok decoded
    pub new_encoded : h.urlencode (h.hash_order merged) ≡ ok encoded
    pub values :
        (k : String)
        → value_in k merged ≡ or_else (last_of k (h.hash_order qs)) (value_in k decoded)
    pub parsed :
        h.parse_paq (requeried h (old_path h (h.into_parts uri).path_and_query) encoded) ≡ ok paq
    pub scheme_kept : (h.into_parts u).scheme ≡ (h.into_parts uri).scheme
    pub authority_kept : (h.into_parts u).authority ≡ (h.into_parts uri).authority
    pub paq_set : (h.into_parts u).path_and_query ≡ some paq

  -- If replacing the queries of a URI by a map succeeds, the old query was decoded, every key has
  -- the value that the map gives to it last and, without one, the value that it had, and the new
  -- path and query is what the old path and these, encoded, parse to; the scheme and the authority
  -- are kept.
  pub replace_queries-IsRequeried :
      (uris : UriLaws h) (uri u : h.Uri) (qs : HashMap)
      → replace_queries h uri (some qs) ≡ ok u
      → IsRequeried uri qs u
  unfolding replace_queries
  replace_queries-IsRequeried uris uri u qs e =
      let (decoded, e₁, e₂) = ok_parts (h.urldecode _) _ e in
      let (encoded, e₃, e₄) = ok_parts (h.urlencode _) _ e₂ in
      let (paq, e₅, e₆) = ok_parts (h.parse_paq _) _ e₄ in
      let back = uris.into_from _ u e₆ in
      record {
        decoded = decoded;
        merged = map_extend decoded (h.hash_order qs);
        encoded = encoded;
        paq = paq;
        old_decoded = e₁;
        new_encoded = e₃;
        values = λ k. map_extend-value_in k decoded (h.hash_order qs);
        parsed = e₅;
        scheme_kept = ap (λ p. p.scheme) back;
        authority_kept = ap (λ p. p.authority) back;
        paq_set = ap (λ p. p.path_and_query) back;
      }
