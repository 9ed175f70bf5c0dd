-- ===== src/Service/Transparent.antt =====
-- What the rules cannot change: a service outside its role is transparent, rules for requests and
-- rules for responses do not interfere, and the request that is sent on is the one that the rules
-- left, at a rebuilt URI.
use chaos_tproxy.Prelude.{
  ◌≡◌, refl, ◌∙◌, sym, ap, Bool, false, ◌&&◌, List, [], ◌∷◌, arith, filter, All, All-append,
}
use chaos_tproxy.Outcome.{Result, ok, err, Run, after}
use chaos_tproxy.Outcome.Runs.{events, result, events->>=, lift, ◌>>=◌}
use chaos_tproxy.External.{Http}
use chaos_tproxy.External.Laws.{HeaderLaws, UriLaws}
use chaos_tproxy.Handler.Message.{Request, Response, Event, slept, forwarded}
use chaos_tproxy.Handler.Rule.{Rule}
use chaos_tproxy.Handler.Selector.{select_request, select_response}
use chaos_tproxy.Service.{
  HttpService, Upstream, apply_request_rules, apply_response_rules, rebuild_uri, forward, role_ok,
  request_rules, response_rules, handle, or_bad_gateway, is_request, is_response,
}
use chaos_tproxy.Service.Rules.{sent, apply_request_rules-sent, apply_response_rules-sent}
use chaos_tproxy.Service.Forward.{IsRebuilt, rebuild_uri-IsRebuilt}

filter_none {ℓ} :
    {A : Type ℓ} (p : A → Bool) (xs : List A) → ((x : A) → p x ≡ false) → filter p xs ≡ []
filter_none p [] e = refl
filter_none p (x ∷ xs) e = rw (e x) (filter_none p xs e)

filter-filter {ℓ} :
    {A : Type ℓ} (p q s : A → Bool) (xs : List A)
    → filter (λ x. p x && q x && s x) xs ≡ filter (λ x. p x && s x) (filter q xs)
filter-filter p q s [] = refl
filter-filter p q s (x ∷ xs) = ground (arith, filter-filter p q s xs)

module _ (h : Http) (C : Type 0) (up : Upstream h C) where
  -- The proxy with no rule in it: the request is sent on with its URI rebuilt, and the client gets
  -- what comes back, or a gateway error.
  abbrev pub pass_through : HttpService h C → Request h → Run (Event h) (Response h)
  pass_through self r = do
    uri ← lift (rebuild_uri h C up self r)
    forward h C up self (record r { uri = uri })

  request_rules-off :
      (self : HttpService h C) (r : Request h)
      → role_ok h C up self ≡ false
      → request_rules h C up self r ≡ []
  request_rules-off self r off =
      filter_none
        (λ rule.
          role_ok h C up self
          && is_request rule.target
          && select_request h self.target.port r rule.selector)
        self.config.rules (λ rule. rw off refl)

  response_rules-off :
      (self : HttpService h C) (r : Request h) (answer : Response h)
      → role_ok h C up self ≡ false
      → response_rules h C up self r answer ≡ []
  response_rules-off self r answer off =
      filter_none
        (λ rule.
          role_ok h C up self
          && is_response rule.target
          && select_response h self.target.port r.uri r.method r.headers answer rule.selector)
        self.config.rules (λ rule. rw off refl)

  -- With no rule for the answer, what follows the rules for the request passes it on.
  pub passed :
      (self : HttpService h C) (r : Request h) (u : Result h.Uri)
      → ((answer : Response h) → response_rules h C up self r answer ≡ [])
      → (do
        uri ← lift u
        answer ← forward h C up self (record r { uri = uri })
        apply_response_rules h (response_rules h C up self r answer) answer)
        ≡ (do uri ← lift u; forward h C up self (record r { uri = uri }))
  unfolding forward apply_response_rules
  passed self r (err e) no_rule = refl
  passed self r (ok uri) no_rule =
      let answer : Response h =
        or_bad_gateway h
          (up.send self.tls_client_config self.target self.remote (record r { uri = uri })) in
      ap (λ rules. after (forwarded (record r { uri = uri })) (apply_response_rules h rules answer))
        (no_rule answer)

  -- Where the role of the service does not apply, handling a request is passing it through: no rule
  -- delays it, changes it or fails it, whatever the rules are.
  pub handle-role_off :
      (self : HttpService h C) (r : Request h)
      → role_ok h C up self ≡ false
      → handle h C up self r ≡ pass_through self r
  unfolding handle apply_request_rules
  handle-role_off self r off =
      rw (request_rules-off self r off)
        (passed self r _ (λ answer. response_rules-off self r answer off))

  -- The same service with other rules.
  abbrev pub with_rules : HttpService h C → List (Rule h) → HttpService h C
  with_rules self rules = record self { config = record self.config { rules = rules } }

  abbrev pub of_requests : List (Rule h) → List (Rule h)
  of_requests = filter (λ rule. is_request rule.target)

  abbrev pub of_responses : List (Rule h) → List (Rule h)
  of_responses = filter (λ rule. is_response rule.target)

  request_rules-with_rules :
      (self : HttpService h C) (rules rules' : List (Rule h)) (r : Request h)
      → of_requests rules ≡ of_requests rules'
      → request_rules h C up (with_rules self rules) r
        ≡ request_rules h C up (with_rules self rules') r
  unfolding role_ok
  request_rules-with_rules self rules rules' r same =
      let split =
        filter-filter (λ (rule : Rule h). role_ok h C up self) (λ rule. is_request rule.target)
          (λ rule. select_request h self.target.port r rule.selector) in
      split rules ∙ (ap (filter _) same ∙ sym (split rules'))

  response_rules-with_rules :
      (self : HttpService h C) (rules rules' : List (Rule h)) (r : Request h) (answer : Response h)
      → of_responses rules ≡ of_responses rules'
      → response_rules h C up (with_rules self rules) r answer
        ≡ response_rules h C up (with_rules self rules') r answer
  unfolding role_ok
  response_rules-with_rules self rules rules' r answer same =
      let split =
        filter-filter (λ (rule : Rule h). role_ok h C up self) (λ rule. is_response rule.target)
          (λ rule.
            select_response h self.target.port r.uri r.method r.headers answer rule.selector) in
      split rules ∙ (ap (filter _) same ∙ sym (split rules'))

  -- How the rules for requests stand among the rules for responses makes no difference: two lists
  -- of rules with the same rules for requests and the same rules for responses, each in the same
  -- order, handle every request alike.
  pub handle-by_target :
      (self : HttpService h C) (rules rules' : List (Rule h)) (r : Request h)
      → of_requests rules ≡ of_requests rules'
      → of_responses rules ≡ of_responses rules'
      → handle h C up (with_rules self rules) r ≡ handle h C up (with_rules self rules') r
  unfolding handle rebuild_uri forward
  handle-by_target self rules rules' r same_requests same_responses = λ i. do
    changed ← apply_request_rules h (request_rules-with_rules self rules rules' r same_requests i) r
    uri ← lift (rebuild_uri h C up self changed)
    answer ← forward h C up self (record changed { uri = uri })
    apply_response_rules h
        (response_rules-with_rules self rules rules' changed answer same_responses i) answer

  -- A request in the run is the one that the rules left, but for its URI, which is rebuilt.
  abbrev pub IsForwardOf : HttpService h C → Request h → Event h → Type 0
  IsForwardOf self c (slept d) = Unit
  IsForwardOf self c (forwarded q) =
      (q.method ≡ c.method)
      × (q.headers ≡ c.headers)
      × (q.body ≡ c.body)
      × IsRebuilt h C up self c q.uri

  quiet :
      (self : HttpService h C) (c : Request h) (es : List (Event h))
      → sent h es ≡ 0
      → All (IsForwardOf self c) es
  quiet self c [] e = tt
  quiet self c (slept d ∷ es) e = (tt, quiet self c es e)
  quiet self c (forwarded q ∷ es) e = absurd (omega arith)

  module _ (headers : HeaderLaws h) (uris : UriLaws h) where
    answered :
        (self : HttpService h C) (c : Request h) (u : Result h.Uri)
        → rebuild_uri h C up self c ≡ u
        → All (IsForwardOf self c) (
            events (do
              uri ← lift u
              answer ← forward h C up self (record c { uri = uri })
              apply_response_rules h (response_rules h C up self c answer) answer))
    unfolding forward
    answered self c (err e) built = tt
    answered self c (ok uri) built = (
      (refl, refl, refl, rebuild_uri-IsRebuilt h C up self headers uris c uri built),
      quiet self c _ (apply_response_rules-sent h _ _),
    )

    -- The request that is sent to the target has the method, the headers and the body that the
    -- rules for requests left. Its URI has the scheme of the connection, the path and query that
    -- the rules left or else the root, and as its authority the first Host header's value or else
    -- the address of the target.
    pub handle-forwards :
        (self : HttpService h C) (r c : Request h)
        → result (apply_request_rules h (request_rules h C up self r) r) ≡ ok c
        → All (IsForwardOf self c) (events (handle h C up self r))
    unfolding handle
    handle-forwards self r c e =
        let rules = request_rules h C up self r in
        rw (events->>= (apply_request_rules h rules r), e)
          (All-append (IsForwardOf self c) (events (apply_request_rules h rules r)) _
            (quiet self c _ (apply_request_rules-sent h rules r)) (answered self c _ refl))
