-- ===== src/External/Laws.antt =====
-- The documented behaviour of the crates that a theorem may rely on, as hypotheses.
use chaos_tproxy.Prelude.{◌≡◌, ◌↔◌, ◌++◌, true, List, [], ◌∷◌, if◌then◌else◌}
use chaos_tproxy.Outcome.{ok}
use chaos_tproxy.External.{Http, Parts}

-- The values of one name among the entries of a header map, in order.
abbrev pub values_at :
    (h : Http) → h.HeaderName → List (h.HeaderName × h.HeaderValue) → List h.HeaderValue
values_at h n [] = []
values_at h n ((k, v) ∷ es) = if h.name_eq k n then v ∷ values_at h n es else values_at h n es

-- `HeaderMap`: `insert` replaces every value of the name, `append` adds one behind them, `remove`
-- takes them all away, and `iter` shows each entry once, the values of a name in order.
pub record HeaderLaws (h : Http) : Type 0 where
  pub name_iff : (a b : h.HeaderName) → (h.name_eq a b ≡ true) ↔ (a ≡ b)
  pub value_iff : (a b : h.HeaderValue) → (h.value_eq a b ≡ true) ↔ (a ≡ b)
  pub get_new : (k : h.HeaderName) → h.header_get_all h.header_new k ≡ []
  pub get_insert :
      (n : h.HeaderName) (v : h.HeaderValue) (m : h.HeaderMap) (k : h.HeaderName)
      → h.header_get_all (h.header_insert n v m) k
        ≡ (if h.name_eq n k then v ∷ [] else h.header_get_all m k)
  pub get_append :
      (n : h.HeaderName) (v : h.HeaderValue) (m : h.HeaderMap) (k : h.HeaderName)
      → h.header_get_all (h.header_append n v m) k
        ≡ (if h.name_eq n k then h.header_get_all m k ++ v ∷ [] else h.header_get_all m k)
  pub get_remove :
      (n : h.HeaderName) (m : h.HeaderMap) (k : h.HeaderName)
      → h.header_get_all (h.header_remove n m) k
        ≡ (if h.name_eq n k then [] else h.header_get_all m k)
  pub get_iter :
      (m : h.HeaderMap) (k : h.HeaderName) → h.header_get_all m k ≡ values_at h k (h.header_iter m)

-- `Uri`: the parts of a URI built from parts are those parts, and a URI's own parts build it.
pub record UriLaws (h : Http) : Type 0 where
  pub into_from :
      (p : Parts h.Scheme h.Authority h.PathAndQuery) (u : h.Uri)
      → h.from_parts p ≡ ok u
      → h.into_parts u ≡ p
  pub from_into : (u : h.Uri) → h.from_parts (h.into_parts u) ≡ ok u

-- `Method` and `StatusCode` compare by value.
pub record CodeLaws (h : Http) : Type 0 where
  pub method_iff : (a b : h.Method) → (h.method_eq a b ≡ true) ↔ (a ≡ b)
  pub status_iff : (a b : h.StatusCode) → (h.status_eq a b ≡ true) ↔ (a ≡ b)
