-- ===== src/Handler/Action/Bodies.antt =====
-- The body that a rule leaves: `contents` of a replacement, and the JSON merge of a patch.
use chaos_tproxy.Prelude.{
  ◌≡◌, refl, sym, ap, ◌∙◌, subst, List, [], ◌∷◌, ◌++◌, map, append_assoc, append-nil, Option, none,
  some,
}
use chaos_tproxy.Outcome.{Result, ok, err}
use chaos_tproxy.Outcome.Results.{ok_parts, ok-injective}
use chaos_tproxy.External.{Http, Bytes}
use chaos_tproxy.Handler.Message.{Request, Response}
use chaos_tproxy.Handler.Rule.{
  PatchBodyActionContents, json, PatchBodyAction, ReplaceBodyAction, PatchAction, ReplaceAction,
}
use chaos_tproxy.Handler.Action.{
  fold_chunks, read_value, replace_body, patch_body, replace_request, patch_request,
  replace_response, patch_response,
}
use chaos_tproxy.Handler.Action.Uris.{replace_path, replace_queries, append_queries}

-- All the segments of a body, in order.
abbrev pub joined_segments : List Bytes → Bytes
joined_segments [] = []
joined_segments (seg ∷ segs) = seg ++ joined_segments segs

fold_chunks-ok :
    (read : Bytes) (chunks : List (Result Bytes)) (bytes : Bytes)
    → fold_chunks read chunks ≡ ok bytes
    → (segs : List Bytes) × (chunks ≡ map ok segs) × (bytes ≡ read ++ joined_segments segs)
unfolding fold_chunks
fold_chunks-ok read [] bytes e = ([], refl, sym (ok-injective e) ∙ sym (append-nil read))
fold_chunks-ok read (err e' ∷ chunks) bytes e = cc
fold_chunks-ok read (ok seg ∷ chunks) bytes e =
    let (segs, same, total) = fold_chunks-ok (read ++ seg) chunks bytes e in
    (seg ∷ segs, ap (λ cs. ok seg ∷ cs) same, total ∙ append_assoc read seg (joined_segments segs))

module _ (h : Http) where
  -- No segment of the old body failed, the whole was JSON, and the new body is the merge of the
  -- patch into it.
  pub record IsMerged (patch : h.Value) (old new : h.Body) : Type 0 where
    pub segments : List Bytes
    pub value : h.Value
    pub merged : Bytes
    pub read : h.body_chunks old ≡ map ok segments
    pub parsed : h.json_from_slice (joined_segments segments) ≡ ok value
    pub written : h.json_to_vec (h.json_merge value patch) ≡ ok merged
    pub body_set : new ≡ h.body_from merged

  abbrev pub IsMergedBy : PatchBodyActionContents h → h.Body → h.Body → Type 0
  IsMergedBy (json patch) old new = IsMerged patch old new

  abbrev pub IsPatchedBody : Option (PatchBodyAction h) → h.Body → h.Body → Type 0
  IsPatchedBody none old new = new ≡ old
  IsPatchedBody (some action) old new = IsMergedBy action.contents old new

  abbrev pub patch_of : Option (PatchAction h) → Option (PatchBodyAction h)
  patch_of none = none
  patch_of (some a) = a.body

  abbrev pub contents_or : Option ReplaceBodyAction → h.Body → h.Body
  contents_or none old = old
  contents_or (some b) old = h.body_from b.contents

  -- The body after the replacement.
  abbrev pub replaced_body : Option (ReplaceAction h) → h.Body → h.Body
  replaced_body none old = old
  replaced_body (some a) old = contents_or a.body old

  replace_body-contents :
      (action : Option ReplaceBodyAction) (headers : h.HeaderMap) (body : h.Body)
      → (replace_body h action (headers, body)).1 ≡ contents_or action body
  unfolding replace_body
  replace_body-contents none headers body = refl
  replace_body-contents (some a) headers body = refl

  patch_body-IsMergedBy :
      (contents : PatchBodyActionContents h) (headers : h.HeaderMap) (body : h.Body)
      (hb : h.HeaderMap × h.Body)
      → patch_body h (some (record { contents = contents })) (headers, body) ≡ ok hb
      → IsMergedBy contents body hb.1
  unfolding patch_body read_value
  patch_body-IsMergedBy (json patch) headers body hb e =
      let (pair, e₁, f₁) = ok_parts (read_value h body) _ e in
      let (merged, e₂, f₂) = ok_parts (h.json_to_vec (h.json_merge pair.0 patch)) _ f₁ in
      let (bytes, e₃, f₃) = ok_parts (fold_chunks [] (h.body_chunks body)) _ e₁ in
      let (value, e₄, f₄) = ok_parts (h.json_from_slice bytes) _ f₃ in
      let (segs, same, total) = fold_chunks-ok [] (h.body_chunks body) bytes e₃ in
      let is_value : value ≡ pair.0 = ap (λ x. x.0) (ok-injective f₄) in
      record {
        segments = segs;
        value = value;
        merged = merged;
        read = same;
        parsed = ap (λ b. h.json_from_slice b) (sym total) ∙ e₄;
        written = ap (λ v. h.json_to_vec (h.json_merge v patch)) is_value ∙ e₂;
        body_set = ap (λ x. x.1) (sym (ok-injective f₂));
      }

  patch_body-IsPatchedBody :
      (action : Option (PatchBodyAction h)) (headers : h.HeaderMap) (body : h.Body)
      (hb : h.HeaderMap × h.Body)
      → patch_body h action (headers, body) ≡ ok hb
      → IsPatchedBody action body hb.1
  unfolding patch_body
  patch_body-IsPatchedBody none headers body hb e = ap (λ x. x.1) (sym (ok-injective e))
  patch_body-IsPatchedBody (some action) headers body hb e =
      patch_body-IsMergedBy action.contents headers body hb e

  pub replace_request-body :
      (action : Option (ReplaceAction h)) (r r' : Request h)
      → replace_request h r action ≡ ok r'
      → r'.body ≡ replaced_body action r.body
  unfolding replace_request
  replace_request-body none r r' e = ap (λ x. x.body) (sym (ok-injective e))
  replace_request-body (some a) r r' e =
      let (uri, e_path, e₁) = ok_parts (replace_path h r.uri a.path) _ e in
      let (uri', e_queries, e₂) = ok_parts (replace_queries h uri a.queries) _ e₁ in
      ap (λ x. x.body) (sym (ok-injective e₂)) ∙ replace_body-contents a.body r.headers r.body

  pub replace_response-body :
      (action : Option (ReplaceAction h)) (r : Response h)
      → (replace_response h r action).body ≡ replaced_body action r.body
  unfolding replace_response
  replace_response-body none r = refl
  replace_response-body (some a) r = replace_body-contents a.body r.headers r.body

  pub patch_request-IsPatchedBody :
      (action : Option (PatchAction h)) (r r' : Request h)
      → patch_request h r action ≡ ok r'
      → IsPatchedBody (patch_of action) r.body r'.body
  unfolding patch_request
  patch_request-IsPatchedBody none r r' e = ap (λ x. x.body) (sym (ok-injective e))
  patch_request-IsPatchedBody (some a) r r' e =
      let (uri, e_queries, e₁) = ok_parts (append_queries h r.uri a.queries) _ e in
      let (hb, e_body, e₂) = ok_parts (patch_body h a.body (r.headers, r.body)) _ e₁ in
      subst (IsPatchedBody a.body r.body) (ap (λ x. x.body) (ok-injective e₂))
        (patch_body-IsPatchedBody a.body r.headers r.body hb e_body)

  pub patch_response-IsPatchedBody :
      (action : Option (PatchAction h)) (r r' : Response h)
      → patch_response h r action ≡ ok r'
      → IsPatchedBody (patch_of action) r.body r'.body
  unfolding patch_response
  patch_response-IsPatchedBody none r r' e = ap (λ x. x.body) (sym (ok-injective e))
  patch_response-IsPatchedBody (some a) r r' e =
      let (hb, e_body, e₁) = ok_parts (patch_body h a.body (r.headers, r.body)) _ e in
      subst (IsPatchedBody a.body r.body) (ap (λ x. x.body) (ok-injective e₁))
        (patch_body-IsPatchedBody a.body r.headers r.body hb e_body)
