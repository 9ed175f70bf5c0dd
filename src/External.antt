-- ===== src/External.antt =====
-- The crates that the HTTP proxy calls and does not contain, as a record of types and operations:
-- http (methods, status codes, header maps, URIs), hyper (bodies), wildmatch, serde_json,
-- json_patch, serde_urlencoded and base64. What they are assumed to do is in External/Laws.antt.
pub mod Laws
pub mod Sample
use chaos_tproxy.Prelude.{ℕ, Bool, String, List, Option}
use chaos_tproxy.Outcome.{Result}

-- `http::uri::Parts`, a struct of public fields.
pub record Parts (S A P : Type 0) : Type 0 where
  pub scheme : Option S
  pub authority : Option A
  pub path_and_query : Option P

abbrev pub Bytes : Type 0
Bytes = List ℕ

-- `HashMap<String, String>`, as its entries.
abbrev pub HashMap : Type 0
HashMap = List (String × String)

pub record Http : Type 1 where
  -- http::Method, http::StatusCode
  pub Method : Type 0
  pub method_eq : Method → Method → Bool
  pub parse_method : String → Result Method
  pub StatusCode : Type 0
  pub status_eq : StatusCode → StatusCode → Bool
  pub status_from_u16 : ℕ → Result StatusCode
  pub bad_gateway : StatusCode
  -- http::HeaderName, http::HeaderValue, http::HeaderMap
  pub HeaderName : Type 0
  pub HeaderValue : Type 0
  pub HeaderMap : Type 0
  pub name_eq : HeaderName → HeaderName → Bool
  pub value_eq : HeaderValue → HeaderValue → Bool
  pub parse_name : String → Result HeaderName
  pub parse_value : String → Result HeaderValue
  pub content_length : HeaderName
  pub host : HeaderName
  pub header_new : HeaderMap
  pub header_iter : HeaderMap → List (HeaderName × HeaderValue)
  pub header_get_all : HeaderMap → HeaderName → List HeaderValue
  pub header_insert : HeaderName → HeaderValue → HeaderMap → HeaderMap
  pub header_append : HeaderName → HeaderValue → HeaderMap → HeaderMap
  pub header_remove : HeaderName → HeaderMap → HeaderMap
  pub header_from_map : HashMap → Result HeaderMap
  -- http::Uri and its parts
  pub Uri : Type 0
  pub Scheme : Type 0
  pub Authority : Type 0
  pub PathAndQuery : Type 0
  pub into_parts : Uri → Parts Scheme Authority PathAndQuery
  pub from_parts : Parts Scheme Authority PathAndQuery → Result Uri
  pub uri_path : Uri → String
  pub parse_paq : String → Result PathAndQuery
  pub paq_path : PathAndQuery → String
  pub paq_query : PathAndQuery → Option String
  pub paq_display : PathAndQuery → String
  pub paq_root : PathAndQuery
  pub scheme_http : Scheme
  pub scheme_https : Scheme
  pub parse_authority : String → Result Authority
  pub authority_from_value : HeaderValue → Result Authority
  -- hyper::Body, as the items of its stream
  pub Body : Type 0
  pub body_empty : Body
  pub body_from : Bytes → Body
  pub body_chunks : Body → List (Result Bytes)
  -- wildmatch
  pub WildMatch : Type 0
  pub wild_new : String → WildMatch
  pub wild_matches : WildMatch → String → Bool
  -- serde_json, json_patch, serde_urlencoded, base64
  pub Value : Type 0
  pub json_from_slice : Bytes → Result Value
  pub json_from_str : String → Result Value
  pub json_to_vec : Value → Result Bytes
  pub json_merge : Value → Value → Value
  pub urlencode : List (String × String) → Result String
  pub urldecode : String → Result HashMap
  pub base64_decode : String → Result Bytes
  -- the iteration order of a `HashMap`, and the text of a socket address
  pub hash_order : HashMap → List (String × String)
  pub into_bytes : String → Bytes
