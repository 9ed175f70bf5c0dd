-- ===== src/Handler/Action/Headers.antt =====
-- The headers that the actions leave, name by name, stated with no header map in it.
use chaos_tproxy.Prelude.{
  ◌≡◌, refl, ◌++◌, List, [], ◌∷◌, Option, none, some, arith, if◌then◌else◌, append_assoc,
  append-nil, sym,
}
use chaos_tproxy.Outcome.{ok}
use chaos_tproxy.Outcome.Results.{ok_parts}
use chaos_tproxy.External.{Http}
use chaos_tproxy.External.Laws.{HeaderLaws, values_at}
use chaos_tproxy.Handler.Message.{Request, Response}
use chaos_tproxy.Handler.Rule.{PatchBodyAction, ReplaceBodyAction, PatchAction, ReplaceAction}
use chaos_tproxy.Handler.Action.{
  insert_all, append_all, replace_headers, patch_headers, replace_body, patch_body, read_value,
  replace_request, patch_request, replace_response, patch_response,
}
use chaos_tproxy.Handler.Action.Uris.{append_queries, replace_path, replace_queries}

-- The last of the new values alone, or the old ones where there is no new one.
abbrev pub last_or {ℓ} : {V : Type ℓ} → List V → List V → List V
last_or [] old = old
last_or (v ∷ vs) old = last_or vs (v ∷ [])

module _ (h : Http) (n : h.HeaderName) where
  -- What is left of the values of the name when a body action has run.
  abbrev pub kept {ℓ} : {B : Type ℓ} → Option B → List h.HeaderValue → List h.HeaderValue
  kept none old = old
  kept (some action) old = if h.name_eq h.content_length n then [] else old

  abbrev set_values : Option h.HeaderMap → List h.HeaderValue → List h.HeaderValue
  set_values none old = old
  set_values (some hdrs) old = last_or (h.header_get_all hdrs n) old

  abbrev add_values : Option h.HeaderMap → List h.HeaderValue → List h.HeaderValue
  add_values none old = old
  add_values (some hdrs) old = old ++ h.header_get_all hdrs n

  -- The values of the name behind a replacement: the last value that the action gives, if it gives
  -- one, and otherwise the old values, but for the length of a body that was replaced.
  abbrev pub replaced_values : Option (ReplaceAction h) → List h.HeaderValue → List h.HeaderValue
  replaced_values none old = old
  replaced_values (some a) old = set_values a.headers (kept a.body old)

  -- The values of the name behind a patch: the old values, but for the length of a body that was
  -- patched, and then every value that the action gives.
  abbrev pub patched_values : Option (PatchAction h) → List h.HeaderValue → List h.HeaderValue
  patched_values none old = old
  patched_values (some a) old = add_values a.headers (kept a.body old)

module _ (h : Http) (laws : HeaderLaws h) (n : h.HeaderName) where
  insert_all-values :
      (es : List (h.HeaderName × h.HeaderValue)) (m : h.HeaderMap)
      → h.header_get_all (insert_all h es m) n ≡ last_or (values_at h n es) (h.header_get_all m n)
  unfolding insert_all
  insert_all-values [] m = refl
  insert_all-values ((k, v) ∷ es) m =
      ground (arith, insert_all-values es (h.header_insert k v m), laws.get_insert k v m n)

  append_all-values :
      (es : List (h.HeaderName × h.HeaderValue)) (m : h.HeaderMap)
      → h.header_get_all (append_all h es m) n ≡ h.header_get_all m n ++ values_at h n es
  unfolding append_all
  append_all-values [] m = sym (append-nil _)
  append_all-values ((k, v) ∷ es) m = ground (
    arith,
    append_all-values es (h.header_append k v m),
    laws.get_append k v m n,
    append_assoc (h.header_get_all m n) (v ∷ []) (values_at h n es),
  )

  replace_headers-values :
      (hdrs : Option h.HeaderMap) (m : h.HeaderMap)
      → h.header_get_all (replace_headers h hdrs m) n ≡ set_values h n hdrs (h.header_get_all m n)
  unfolding replace_headers
  replace_headers-values none m = refl
  replace_headers-values (some hdrs) m =
      rw (laws.get_iter hdrs n) (insert_all-values (h.header_iter hdrs) m)

  patch_headers-values :
      (hdrs : Option h.HeaderMap) (m : h.HeaderMap)
      → h.header_get_all (patch_headers h hdrs m) n ≡ add_values h n hdrs (h.header_get_all m n)
  unfolding patch_headers
  patch_headers-values none m = refl
  patch_headers-values (some hdrs) m =
      rw (laws.get_iter hdrs n) (append_all-values (h.header_iter hdrs) m)

  replace_body-values :
      (action : Option ReplaceBodyAction) (hb : h.HeaderMap × h.Body)
      → h.header_get_all (replace_body h action hb).0 n ≡ kept h n action (h.header_get_all hb.0 n)
  unfolding replace_body
  replace_body-values none hb = refl
  replace_body-values (some action) (headers, body) = laws.get_remove h.content_length headers n

  patch_body-values :
      (action : Option (PatchBodyAction h)) (hb hb' : h.HeaderMap × h.Body)
      → patch_body h action hb ≡ ok hb'
      → h.header_get_all hb'.0 n ≡ kept h n action (h.header_get_all hb.0 n)
  unfolding patch_body
  patch_body-values none hb hb' e = cc
  patch_body-values (some action) (headers, body) hb' e =
      let (value, _, e₁) = ok_parts (read_value h body) _ e in
      let (merged, _, e₂) = ok_parts (h.json_to_vec _) _ e₁ in
      cc (laws.get_remove h.content_length headers n)

  pub replace_request-values :
      (action : Option (ReplaceAction h)) (r r' : Request h)
      → replace_request h r action ≡ ok r'
      → h.header_get_all r'.headers n ≡ replaced_values h n action (h.header_get_all r.headers n)
  unfolding replace_request
  replace_request-values none r r' e = cc
  replace_request-values (some a) r r' e =
      let (uri, _, e₁) = ok_parts (replace_path h r.uri a.path) _ e in
      let hb : h.HeaderMap × h.Body = replace_body h a.body (r.headers, r.body) in
      let (uri', _, e₂) = ok_parts (replace_queries h uri a.queries) _ e₁ in
      cc (replace_headers-values a.headers hb.0, replace_body-values a.body (r.headers, r.body))

  pub patch_request-values :
      (action : Option (PatchAction h)) (r r' : Request h)
      → patch_request h r action ≡ ok r'
      → h.header_get_all r'.headers n ≡ patched_values h n action (h.header_get_all r.headers n)
  unfolding patch_request
  patch_request-values none r r' e = cc
  patch_request-values (some a) r r' e =
      let (uri, _, e₁) = ok_parts (append_queries h r.uri a.queries) _ e in
      let (hb, patched, e₂) = ok_parts (patch_body h a.body (r.headers, r.body)) _ e₁ in
      cc (
        patch_headers-values a.headers hb.0,
        patch_body-values a.body (r.headers, r.body) hb patched,
      )

  pub replace_response-values :
      (action : Option (ReplaceAction h)) (r : Response h)
      → h.header_get_all (replace_response h r action).headers n
        ≡ replaced_values h n action (h.header_get_all r.headers n)
  unfolding replace_response
  replace_response-values none r = refl
  replace_response-values (some a) r =
      let hb : h.HeaderMap × h.Body = replace_body h a.body (r.headers, r.body) in
      cc (replace_headers-values a.headers hb.0, replace_body-values a.body (r.headers, r.body))

  pub patch_response-values :
      (action : Option (PatchAction h)) (r r' : Response h)
      → patch_response h r action ≡ ok r'
      → h.header_get_all r'.headers n ≡ patched_values h n action (h.header_get_all r.headers n)
  unfolding patch_response
  patch_response-values none r r' e = cc
  patch_response-values (some a) r r' e =
      let (hb, patched, e₁) = ok_parts (patch_body h a.body (r.headers, r.body)) _ e in
      cc (
        patch_headers-values a.headers hb.0,
        patch_body-values a.body (r.headers, r.body) hb patched,
      )
