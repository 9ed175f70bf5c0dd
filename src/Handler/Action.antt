-- ===== src/Handler/Action.antt =====
-- chaos-tproxy-proxy/src/handler/http/action.rs: what a rule does to a request or a response.
-- Uris.antt has the three edits of a URI; a body is read as the list of its chunks.
pub mod Queries
mod Tests
pub mod Uris
pub mod Headers
pub mod Site
pub mod Bodies
pub mod Targets
use chaos_tproxy.Prelude.{ℕ, List, [], ◌∷◌, ◌++◌, Option, none, some}
use chaos_tproxy.Outcome.{Result, ok, err}
use chaos_tproxy.Outcome.Results.{◌>>=◌}
use chaos_tproxy.External.{Http, Bytes}
use chaos_tproxy.Handler.Message.{Request, Response}
use chaos_tproxy.Handler.Rule.{
  PatchBodyActionContents, json, PatchBodyAction, ReplaceBodyAction, PatchAction, ReplaceAction,
}
use chaos_tproxy.Handler.Action.Uris.{append_queries, replace_path, replace_queries}

-- `try_fold(vec![], extend)` over the chunks of a body.
unfoldable pub fold_chunks : Bytes → List (Result Bytes) → Result Bytes
fold_chunks data_ [] = ok data_
fold_chunks data_ (ok seg ∷ rest) = fold_chunks (data_ ++ seg) rest
fold_chunks data_ (err e ∷ rest) = err e

-- `if let Some(x) = option { *place = x }`
abbrev pub set_some {ℓ} : {A : Type ℓ} → Option A → A → A
set_some none old = old
set_some (some new) old = new

module _ (h : Http) where
  -- The value of a body; the body itself is taken, and an empty one left in its place.
  unfoldable pub read_value : h.Body → Result (h.Value × h.Body)
  read_value body = do
    bytes ← fold_chunks [] (h.body_chunks body)
    value ← h.json_from_slice bytes
    ok (value, h.body_empty)

  -- The loops over the headers of an action: `headers_mut().insert` and `headers_mut().append`.
  unfoldable pub insert_all : List (h.HeaderName × h.HeaderValue) → h.HeaderMap → h.HeaderMap
  insert_all [] m = m
  insert_all ((k, v) ∷ es) m = insert_all es (h.header_insert k v m)

  unfoldable pub append_all : List (h.HeaderName × h.HeaderValue) → h.HeaderMap → h.HeaderMap
  append_all [] m = m
  append_all ((k, v) ∷ es) m = append_all es (h.header_append k v m)

  unfoldable pub replace_headers : Option h.HeaderMap → h.HeaderMap → h.HeaderMap
  replace_headers none m = m
  replace_headers (some hdrs) m = insert_all (h.header_iter hdrs) m

  unfoldable pub patch_headers : Option h.HeaderMap → h.HeaderMap → h.HeaderMap
  patch_headers none m = m
  patch_headers (some hdrs) m = append_all (h.header_iter hdrs) m

  -- The body replaced by the contents of the action, and the stale length taken away.
  unfoldable pub replace_body :
      Option ReplaceBodyAction → h.HeaderMap × h.Body → h.HeaderMap × h.Body
  replace_body none hb = hb
  replace_body (some action) (headers, body) =
      (h.header_remove h.content_length headers, h.body_from action.contents)

  -- The JSON merge of `apply_request_action` and `apply_response_action`.
  abbrev patch_value : PatchBodyActionContents h → h.Value → h.Value
  patch_value (json value) old = h.json_merge old value

  unfoldable pub patch_body :
      Option (PatchBodyAction h) → h.HeaderMap × h.Body → Result (h.HeaderMap × h.Body)
  patch_body none hb = ok hb
  patch_body (some action) (headers, body) = do
    (old, taken) ← read_value body
    merged ← h.json_to_vec (patch_value action.contents old)
    ok (h.header_remove h.content_length headers, h.body_from merged)

  -- The `replace` part of `apply_request_action`.
  unfoldable pub replace_request : Request h → Option (ReplaceAction h) → Result (Request h)
  replace_request request none = ok request
  replace_request request (some replace) = do
    uri ← replace_path h request.uri replace.path
    let method = set_some replace.method request.method
    let hb = replace_body replace.body (request.headers, request.body)
    uri' ← replace_queries h uri replace.queries
    let headers = replace_headers replace.headers hb.0
    ok (record { method = method; uri = uri'; headers = headers; body = hb.1 })

  -- The `patch` part of `apply_request_action`.
  unfoldable pub patch_request : Request h → Option (PatchAction h) → Result (Request h)
  patch_request request none = ok request
  patch_request request (some patch) = do
    uri ← append_queries h request.uri patch.queries
    hb ← patch_body patch.body (request.headers, request.body)
    let headers = patch_headers patch.headers hb.0
    ok (record { method = request.method; uri = uri; headers = headers; body = hb.1 })

  -- The `replace` part of `apply_response_action`.
  unfoldable pub replace_response : Response h → Option (ReplaceAction h) → Response h
  replace_response response none = response
  replace_response response (some replace) =
      let hb = replace_body replace.body (response.headers, response.body) in
      record {
        status = set_some replace.code response.status;
        headers = replace_headers replace.headers hb.0;
        body = hb.1;
      }

  -- The `patch` part of `apply_response_action`.
  unfoldable pub patch_response : Response h → Option (PatchAction h) → Result (Response h)
  patch_response response none = ok response
  patch_response response (some patch) = do
    hb ← patch_body patch.body (response.headers, response.body)
    let headers = patch_headers patch.headers hb.0
    ok (record { status = response.status; headers = headers; body = hb.1 })
