-- ===== src/Handler/Apply/Laws.antt =====
-- What a rule does when it is applied: the whole effect on headers, method and site, the sleep,
-- and the abort.
use chaos_tproxy.Prelude.{
  ℕ, ◌≡◌, refl, Bool, true, false, List, [], ◌∷◌, Option, none, some, if◌then◌else◌, sym, ◌∙◌,
  subst,
}
use chaos_tproxy.Outcome.{Result, ok, err, Run, Error, abort_applied}
use chaos_tproxy.Outcome.Results.{◌>>=◌ as and_then, ok_parts}
use chaos_tproxy.Outcome.Runs.{lift, fail_if, events, result, ◌>>=◌, ◌>>◌}
use chaos_tproxy.External.{Http}
use chaos_tproxy.External.Laws.{HeaderLaws, UriLaws}
use chaos_tproxy.Handler.Message.{Request, Response, Event, slept}
use chaos_tproxy.Handler.Rule.{Actions}
use chaos_tproxy.Handler.Action.{replace_request, patch_request, replace_response, patch_response}
use chaos_tproxy.Handler.Action.Targets.{
  IsReplacedUri, IsPatchedUri, replace_request-IsReplacedUri, patch_request-IsPatchedUri,
}
use chaos_tproxy.Handler.Action.Bodies.{
  IsPatchedBody, patch_of, replaced_body, replace_request-body, replace_response-body,
  patch_request-IsPatchedBody, patch_response-IsPatchedBody,
}
use chaos_tproxy.Handler.Action.Headers.{
  replaced_values, patched_values, replace_request-values, patch_request-values,
  replace_response-values, patch_response-values,
}
use chaos_tproxy.Handler.Action.Site.{
  HasSite, replaced_method, HasSite-trans, replace_request-parts, patch_request-parts,
}
use chaos_tproxy.Handler.Apply.{apply_request_action, apply_response_action, sleep}

module _ (h : Http) where
  -- The sleeps of an action that is not an abort.
  abbrev pub delays : Option ℕ → List (Event h)
  delays none = []
  delays (some d) = slept d ∷ []

  module _ {A B : Type 0} where
    -- Abort, delay, then two fallible changes.
    abbrev guarded : Bool → Option ℕ → Result A → (A → Result B) → Run (Event h) B
    guarded abort delay m k = do fail_if abort abort_applied; sleep h delay; x ← lift m; lift (k x)

    guarded-result :
        (b : Bool) (d : Option ℕ) (m : Result A) (k : A → Result B)
        → result (guarded b d m k) ≡ (if b then err abort_applied else and_then m k)
    guarded-result true d m k = refl
    guarded-result false d (err e) k = delayed d
      where
        delayed : (d : Option ℕ) → result (guarded false d (err e) k) ≡ err e
        delayed none = refl
        delayed (some n) = refl
    guarded-result false d (ok a) k = delayed d (k a)
      where
        delayed : (d : Option ℕ) (r : Result B) → result {E = Event h} (sleep h d >> lift r) ≡ r
        delayed none (ok b) = refl
        delayed none (err e) = refl
        delayed (some n) (ok b) = refl
        delayed (some n) (err e) = refl

    guarded-events :
        (b : Bool) (d : Option ℕ) (m : Result A) (k : A → Result B)
        → events (guarded b d m k) ≡ (if b then [] else delays d)
    guarded-events true d m k = refl
    guarded-events false d (err e) k = delayed d
      where
        delayed : (d : Option ℕ) → events (guarded false d (err e) k) ≡ delays d
        delayed none = refl
        delayed (some n) = refl
    guarded-events false d (ok a) k = delayed d (k a)
      where
        delayed :
            (d : Option ℕ) (r : Result B) → events {E = Event h} (sleep h d >> lift r) ≡ delays d
        delayed none (ok b) = refl
        delayed none (err e) = refl
        delayed (some n) (ok b) = refl
        delayed (some n) (err e) = refl

  pub apply_request_action-result :
      (r : Request h) (a : Actions h)
      → result (apply_request_action h r a) ≡ (
          if a.abort
          then err abort_applied
          else and_then (replace_request h r a.replace) (λ x. patch_request h x a.patch))
  unfolding apply_request_action
  apply_request_action-result r a =
      guarded-result a.abort a.delay (replace_request h r a.replace)
        (λ x. patch_request h x a.patch)

  pub apply_request_action-events :
      (r : Request h) (a : Actions h)
      → events (apply_request_action h r a) ≡ (if a.abort then [] else delays a.delay)
  unfolding apply_request_action
  apply_request_action-events r a =
      guarded-events a.abort a.delay (replace_request h r a.replace)
        (λ x. patch_request h x a.patch)

  pub apply_response_action-result :
      (r : Response h) (a : Actions h)
      → result (apply_response_action h r a) ≡ (
          if a.abort
          then err abort_applied
          else patch_response h (replace_response h r a.replace) a.patch)
  unfolding apply_response_action
  apply_response_action-result r a =
      guarded-result a.abort a.delay (ok (replace_response h r a.replace))
        (λ x. patch_response h x a.patch)

  pub apply_response_action-events :
      (r : Response h) (a : Actions h)
      → events (apply_response_action h r a) ≡ (if a.abort then [] else delays a.delay)
  unfolding apply_response_action
  apply_response_action-events r a =
      guarded-events a.abort a.delay (ok (replace_response h r a.replace))
        (λ x. patch_response h x a.patch)

  if-ok :
      {A : Type 0} (b : Bool) (m : Result A) (e : Error) {x : A}
      → (if b then err e else m) ≡ ok x
      → m ≡ ok x
  if-ok true m e h = cc
  if-ok false m e h = h

  pub apply_request_action-ok :
      (r r' : Request h) (a : Actions h)
      → result (apply_request_action h r a) ≡ ok r'
      → (mid : Request h) × (replace_request h r a.replace ≡ ok mid)
        × (patch_request h mid a.patch ≡ ok r')
  apply_request_action-ok r r' a e =
      ok_parts (replace_request h r a.replace) (λ x. patch_request h x a.patch)
        (if-ok a.abort _ _ (sym (apply_request_action-result r a) ∙ e))

  -- When a rule is applied to a request and succeeds, the values of every header name are those of
  -- the request, first as the replacement and then as the patch changes them: a replacement leaves
  -- the last value that it gives, a patch adds its values behind, and a body action takes the
  -- content length away.
  pub apply_request_action-values :
      (laws : HeaderLaws h) (r r' : Request h) (a : Actions h) (n : h.HeaderName)
      → result (apply_request_action h r a) ≡ ok r'
      → h.header_get_all r'.headers n
        ≡ patched_values h n a.patch (replaced_values h n a.replace (h.header_get_all r.headers n))
  apply_request_action-values laws r r' a n e =
      let (mid, e₁, e₂) = apply_request_action-ok r r' a e in
      cc (
        replace_request-values h laws n a.replace r mid e₁,
        patch_request-values h laws n a.patch mid r' e₂,
      )

  -- When a rule is applied to a response and succeeds, the values of every header name are those of
  -- the response, changed by the replacement and then by the patch in the same way.
  pub apply_response_action-values :
      (laws : HeaderLaws h) (r r' : Response h) (a : Actions h) (n : h.HeaderName)
      → result (apply_response_action h r a) ≡ ok r'
      → h.header_get_all r'.headers n
        ≡ patched_values h n a.patch (replaced_values h n a.replace (h.header_get_all r.headers n))
  apply_response_action-values laws r r' a n e =
      let e₁ = if-ok a.abort _ _ (sym (apply_response_action-result r a) ∙ e) in
      cc (
        replace_response-values h laws n a.replace r,
        patch_response-values h laws n a.patch _ r' e₁,
      )

  -- When a rule is applied to a request and succeeds, the scheme and the authority of its URI are
  -- as they were, and its method is the one that the replacement names or else the old one.
  pub apply_request_action-site :
      (laws : UriLaws h) (r r' : Request h) (a : Actions h)
      → result (apply_request_action h r a) ≡ ok r'
      → HasSite h (h.into_parts r.uri) r'.uri × (r'.method ≡ replaced_method h a.replace r.method)
  apply_request_action-site laws r r' a e =
      let (mid, e₁, e₂) = apply_request_action-ok r r' a e in
      let (site, method) = replace_request-parts h laws a.replace r mid e₁ in
      let (site', method') = patch_request-parts h laws a.patch mid r' e₂ in
      (HasSite-trans h laws site site', method' ∙ method)

  -- When a rule is applied to a request and succeeds, its URI is the one that the replacement and
  -- then the patch leave. A replaced path, or the root for an empty one, is put in front of the old
  -- query, unless the URI has no path and query. Replaced queries are merged into the old query. A
  -- patch with queries that are not empty puts them behind the path and query, or behind the root.
  -- All else of the URI is kept.
  pub apply_request_action-IsPatchedUri :
      (laws : UriLaws h) (r r' : Request h) (a : Actions h)
      → result (apply_request_action h r a) ≡ ok r'
      → (uri : h.Uri) × IsReplacedUri h a.replace r.uri uri × IsPatchedUri h a.patch uri r'.uri
  apply_request_action-IsPatchedUri laws r r' a e =
      let (mid, e₁, e₂) = apply_request_action-ok r r' a e in
      (
        mid.uri,
        replace_request-IsReplacedUri h laws a.replace r mid e₁,
        patch_request-IsPatchedUri h laws a.patch mid r' e₂,
      )

  -- When a rule is applied to a request and succeeds, its body is the one that the replacement
  -- names or else the old one, and with a patch of the body it is that one changed by the patch: no
  -- segment of it failed, the whole of them was JSON, and the text of the merge of the patch into
  -- that JSON is the new body.
  pub apply_request_action-IsPatchedBody :
      (r r' : Request h) (a : Actions h)
      → result (apply_request_action h r a) ≡ ok r'
      → IsPatchedBody h (patch_of h a.patch) (replaced_body h a.replace r.body) r'.body
  apply_request_action-IsPatchedBody r r' a e =
      let (mid, e₁, e₂) = apply_request_action-ok r r' a e in
      subst (λ b. IsPatchedBody h (patch_of h a.patch) b r'.body)
        (replace_request-body h a.replace r mid e₁)
        (patch_request-IsPatchedBody h a.patch mid r' e₂)

  pub apply_response_action-IsPatchedBody :
      (r r' : Response h) (a : Actions h)
      → result (apply_response_action h r a) ≡ ok r'
      → IsPatchedBody h (patch_of h a.patch) (replaced_body h a.replace r.body) r'.body
  apply_response_action-IsPatchedBody r r' a e =
      let e₁ = if-ok a.abort _ _ (sym (apply_response_action-result r a) ∙ e) in
      subst (λ b. IsPatchedBody h (patch_of h a.patch) b r'.body)
        (replace_response-body h a.replace r)
        (patch_response-IsPatchedBody h a.patch (replace_response h r a.replace) r' e₁)
