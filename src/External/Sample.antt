-- ===== src/External/Sample.antt =====
-- A concrete instance of the crates' interface, for the examples: names, methods and values are
-- texts, a header map is its list of entries, a body is the list of its chunks, and a pattern
-- matches the one path that it spells.
use Prim.Native.Char.{code}
use Prim.Native.String
use Prim.Native.String.{[], ◌∷◌}
use chaos_tproxy.Prelude.{
  ℕ, ◌≡◌, refl, ◌++◌, Bool, true, false, Option, none, some, arith, List, String, str_eq, eq_iff,
  if◌then◌else◌, ◌==◌, ==_iff, leb, ◌&&◌,
}
use chaos_tproxy.Outcome.{Result, ok, err, library}
use chaos_tproxy.External.{Http, Parts, Bytes}
use chaos_tproxy.External.Laws.{HeaderLaws, UriLaws, CodeLaws, values_at}

pub record Paq : Type 0 where
  pub path : String
  pub query : Option String

abbrev pub bytes : String → Bytes
bytes String.[] = List.[]
bytes (String.◌∷◌ c s) = List.◌∷◌ (code c) (bytes s)

abbrev split_mark : String → String → Paq
split_mark before [] = record { path = before; query = none }
split_mark before (c ∷ s) =
    let longer = split_mark (String.◌++◌ before (c ∷ [])) s in
    if code c == b'?' then record { path = before; query = some s } else longer

abbrev display : Paq → String
display p = elim (p.query) [ none ↦ p.path | some q ↦ String.◌++◌ p.path (String.◌++◌ "?" q) ]

abbrev pub Headers : Type 0
Headers = List (String × String)

abbrev pub get_all : Headers → String → List String
get_all List.[] k = List.[]
get_all (List.◌∷◌ (n, v) m) k = if str_eq n k then List.◌∷◌ v (get_all m k) else get_all m k

abbrev pub remove : String → Headers → Headers
remove k List.[] = List.[]
remove k (List.◌∷◌ (n, v) m) = if str_eq n k then remove k m else List.◌∷◌ (n, v) (remove k m)

abbrev status : ℕ → Result ℕ
status n = if leb 100 n && leb n 999 then ok n else err (library "status")

abbrev encode_with : Bool → List (String × String) → String
encode_with first List.[] = ""
encode_with first (List.◌∷◌ (k, v) q) =
    String.◌++◌ (if first then "" else "&")
      (String.◌++◌ k (String.◌++◌ "=" (String.◌++◌ v (encode_with false q))))

abbrev pub sample : Http
sample = record {
  Method = String;
  method_eq = str_eq;
  parse_method = λ s. if str_eq s "" then err (library "method") else ok s;
  StatusCode = ℕ;
  status_eq = ◌==◌;
  status_from_u16 = status;
  bad_gateway = 502;
  HeaderName = String;
  HeaderValue = String;
  HeaderMap = Headers;
  name_eq = str_eq;
  value_eq = str_eq;
  parse_name = λ s. if str_eq s "" then err (library "header name") else ok s;
  parse_value = ok;
  content_length = "content-length";
  host = "host";
  header_new = List.[];
  header_iter = λ m. m;
  header_get_all = get_all;
  header_insert = λ n v m. remove n m ++ List.◌∷◌ (n, v) List.[];
  header_append = λ n v m. m ++ List.◌∷◌ (n, v) List.[];
  header_remove = remove;
  header_from_map = ok;
  Uri = Parts String String Paq;
  Scheme = String;
  Authority = String;
  PathAndQuery = Paq;
  into_parts = λ u. u;
  from_parts = ok;
  uri_path = λ u. elim (u.path_and_query) [ none ↦ "/" | some p ↦ p.path ];
  parse_paq = λ s. ok (split_mark "" s);
  paq_path = λ p. p.path;
  paq_query = λ p. p.query;
  paq_display = display;
  paq_root = record { path = "/"; query = none };
  scheme_http = "http";
  scheme_https = "https";
  parse_authority = ok;
  authority_from_value = ok;
  Body = List (Result Bytes);
  body_empty = List.[];
  body_from = λ b. List.◌∷◌ (ok b) List.[];
  body_chunks = λ b. b;
  WildMatch = String;
  wild_new = λ s. s;
  wild_matches = str_eq;
  Value = Bytes;
  json_from_slice = ok;
  json_from_str = λ s. ok (bytes s);
  json_to_vec = ok;
  json_merge = ◌++◌;
  urlencode = λ q. ok (encode_with true q);
  urldecode = λ s. ok List.[];
  base64_decode = λ s. ok (bytes s);
  hash_order = λ m. m;
  into_bytes = bytes;
}

get_all-append :
    (m : Headers) (n v k : String)
    → get_all (m ++ List.◌∷◌ (n, v) List.[]) k
      ≡ (if str_eq n k then get_all m k ++ List.◌∷◌ v List.[] else get_all m k)
get_all-append List.[] n v k = refl
get_all-append (List.◌∷◌ (j, w) m) n v k = ground (arith, get_all-append m n v k)

get_all-remove :
    (m : Headers) (n k : String)
    → get_all (remove n m) k ≡ (if str_eq n k then List.[] else get_all m k)
get_all-remove List.[] n k = ground arith
get_all-remove (List.◌∷◌ (j, w) m) n k =
    ground (arith, get_all-remove m n k, eq_iff j n, eq_iff j k, eq_iff n k)

get_all-insert :
    (n v : String) (m : Headers) (k : String)
    → get_all (remove n m ++ List.◌∷◌ (n, v) List.[]) k
      ≡ (if str_eq n k then List.◌∷◌ v List.[] else get_all m k)
get_all-insert n v m k = ground (arith, get_all-append (remove n m) n v k, get_all-remove m n k)

get_all-values_at : (m : Headers) (k : String) → get_all m k ≡ values_at sample k m
get_all-values_at List.[] k = refl
get_all-values_at (List.◌∷◌ (j, w) m) k = ground (arith, get_all-values_at m k)

pub sample_headers : HeaderLaws sample
sample_headers = record {
  name_iff = eq_iff;
  value_iff = eq_iff;
  get_new = λ k. refl;
  get_insert = get_all-insert;
  get_append = λ n v m k. get_all-append m n v k;
  get_remove = λ n m k. get_all-remove m n k;
  get_iter = get_all-values_at;
}

pub sample_uris : UriLaws sample
sample_uris = record { into_from = λ p u e. ground arith; from_into = λ u. refl }

pub sample_codes : CodeLaws sample
sample_codes = record { method_iff = eq_iff; status_iff = ==_iff }
