-- ===== src/RawConfig/Convert.antt =====
-- The `TryFrom` and `From` implementations of chaos-tproxy-proxy/src/raw_config.rs for rules: every
-- text is parsed once, and the first that does not parse ends the conversion.
use chaos_tproxy.Prelude.{false, List, [], ◌∷◌, Option, none, some, String}
use mathlib.Core.Option
use chaos_tproxy.Outcome.{Result, ok}
use chaos_tproxy.Outcome.Results.{◌>>=◌, transpose, collect}
use chaos_tproxy.External.{Http, Bytes, HashMap}
use chaos_tproxy.Handler.Rule.{
  Target, Selector, PatchBodyActionContents, PatchBodyAction, ReplaceBodyAction, PatchAction,
  ReplaceAction, Actions, Rule,
}
use chaos_tproxy.RawConfig.{
  RawTarget, RawSelector, RawPatchBodyContents, RawPatchBody, RawPatchAction,
  RawReplaceBodyContents, RawReplaceBody, RawReplaceAction, RawActions, RawRule,
}

abbrev pub unwrap_or {ℓ} : {A : Type ℓ} → Option A → A → A
unwrap_or none d = d
unwrap_or (some a) d = a

unfoldable pub to_target : RawTarget → Target
to_target RawTarget.request = Target.request
to_target RawTarget.response = Target.response

module _ (h : Http) where
  -- `try_from_hash_map`
  abbrev pub try_from_hash_map : Option HashMap → Result (Option h.HeaderMap)
  try_from_hash_map = transpose h.header_from_map

  -- The loop of `try_from_vec`, from the map that is built so far.
  unfoldable pub insert_parsed : h.HeaderMap → List (String × String) → Result h.HeaderMap
  insert_parsed m [] = ok m
  insert_parsed m ((key, value) ∷ headers) = do
    name ← h.parse_name key
    v ← h.parse_value value
    insert_parsed (h.header_insert name v m) headers

  unfoldable pub try_from_vec : Option (List (String × String)) → Result (Option h.HeaderMap)
  try_from_vec = transpose (insert_parsed h.header_new)

  unfoldable pub to_selector : RawSelector → Result (Selector h)
  to_selector raw = do
    method ← transpose h.parse_method raw.method
    request_headers ← try_from_hash_map raw.request_headers
    code ← transpose h.status_from_u16 raw.code
    response_headers ← try_from_hash_map raw.response_headers
    ok (record {
      port = raw.port;
      path = Option.map h.wild_new raw.path;
      method = method;
      code = code;
      request_headers = request_headers;
      response_headers = response_headers;
    })

  unfoldable pub to_patch_contents : RawPatchBodyContents → Result (PatchBodyActionContents h)
  to_patch_contents (RawPatchBodyContents.json raw) = do
    value ← h.json_from_str raw
    ok (PatchBodyActionContents.json value)

  unfoldable pub to_patch_body : RawPatchBody → Result (PatchBodyAction h)
  to_patch_body raw = do
    contents ← to_patch_contents raw.contents
    ok (record { contents = contents })

  unfoldable pub to_patch : RawPatchAction → Result (PatchAction h)
  to_patch raw = do
    body ← transpose to_patch_body raw.body
    queries ← transpose h.urlencode raw.queries
    headers ← try_from_vec raw.headers
    ok (record { body = body; queries = queries; headers = headers })

  abbrev body_bytes : RawReplaceBodyContents → Result Bytes
  body_bytes (RawReplaceBodyContents.text text) = ok (h.into_bytes text)
  body_bytes (RawReplaceBodyContents.base64 encoded) = h.base64_decode encoded

  unfoldable pub to_replace_body : RawReplaceBody → Result ReplaceBodyAction
  to_replace_body raw = do contents ← body_bytes raw.contents; ok (record { contents = contents })

  unfoldable pub to_replace : RawReplaceAction → Result (ReplaceAction h)
  to_replace raw = do
    method ← transpose h.parse_method raw.method
    body ← transpose to_replace_body raw.body
    code ← transpose h.status_from_u16 raw.code
    headers ← try_from_hash_map raw.headers
    ok (record {
      path = raw.path;
      method = method;
      body = body;
      code = code;
      queries = raw.queries;
      headers = headers;
    })

  unfoldable pub to_actions : RawActions → Result (Actions h)
  to_actions raw = do
    replace ← transpose to_replace raw.replace
    patch ← transpose to_patch raw.patch
    ok (record {
      abort = unwrap_or raw.abort false;
      delay = raw.delay;
      replace = replace;
      patch = patch;
    })

  unfoldable pub to_rule : RawRule → Result (Rule h)
  to_rule raw = do
    selector ← to_selector raw.selector
    actions ← to_actions raw.actions
    ok (record { target = to_target raw.target; selector = selector; actions = actions })

  -- `raw.rules.into_iter().map(TryInto::try_into).collect()`
  unfoldable pub to_rules : List RawRule → Result (List (Rule h))
  to_rules = collect to_rule
