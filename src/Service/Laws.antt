-- ===== src/Service/Laws.antt =====
-- What the proxy promises of one request.
use chaos_tproxy.Prelude.{
  ℕ, ◌≤◌, ◌≡◌, refl, ◌∙◌, sym, ap, inl, inr, Bool, true, List, [], ◌∷◌, arith, filter, Bool-cases,
  Some,
}
use chaos_tproxy.Outcome.{Result, ok, err, Run}
use chaos_tproxy.Outcome.Results.{◌>>=◌ as and_then}
use chaos_tproxy.Outcome.Runs.{events, result, events_of, events->>=, result->>=, lift, ◌>>=◌}
use chaos_tproxy.External.{Http}
use chaos_tproxy.Handler.Message.{Request, Response, Event}
use chaos_tproxy.Handler.Rule.{Rule, Target}
use chaos_tproxy.Handler.Selector.{select_request}
use chaos_tproxy.Service.{
  HttpService, Upstream, apply_request_rules, apply_response_rules, or_bad_gateway, rebuild_uri,
  forward, role_ok, request_rules, response_rules, handle,
}
use chaos_tproxy.Service.Rules.{
  sent, sent-append, apply_request_rules-sent, apply_response_rules-sent, Fails, Aborts,
  apply_request_rules-Fails,
}

module _ (h : Http) (C : Type 0) (up : Upstream h C) where
  -- What follows the rules for the request, by the URI that was rebuilt.
  abbrev pub answer_with : HttpService h C → Request h → Result h.Uri → Run (Event h) (Response h)
  answer_with self changed rebuilt = do
    uri ← lift rebuilt
    answer ← forward h C up self (record changed { uri = uri })
    apply_response_rules h (response_rules h C up self changed answer) answer

  abbrev pub answer_to : HttpService h C → Request h → Run (Event h) (Response h)
  answer_to self changed = answer_with self changed (rebuild_uri h C up self changed)

  -- At most one request is sent on, and exactly one by a run that returns a response.
  abbrev Sends : Run (Event h) (Response h) → Type 0
  Sends m = (sent h (events m) ≤ 1) × ((a : Response h) → result m ≡ ok a → sent h (events m) ≡ 1)

  answer_with-Sends :
      (self : HttpService h C) (r : Request h) (u : Result h.Uri) → Sends (answer_with self r u)
  unfolding forward
  answer_with-Sends self r (err e) = (omega arith, λ a e. cc)
  answer_with-Sends self r (ok uri) =
      let answer =
        or_bad_gateway h
          (up.send self.tls_client_config self.target self.remote (record r { uri = uri })) in
      let rules = response_rules h C up self r answer in
      (
        omega (arith, apply_response_rules-sent h rules answer),
        λ a e. omega (arith, apply_response_rules-sent h rules answer),
      )

  events_of-sent :
      (m : Result (Request h)) (k : Request h → Run (Event h) (Response h))
      → ((r : Request h) → Sends (k r))
      → (sent h (events_of m k) ≤ 1)
        × ((a : Response h) → and_then m (λ r. result (k r)) ≡ ok a → sent h (events_of m k) ≡ 1)
  events_of-sent (ok r) k s = s r
  events_of-sent (err e) k s = (omega arith, λ a e. cc)

  bind-Sends :
      (m : Run (Event h) (Request h)) (k : Request h → Run (Event h) (Response h))
      → sent h (events m) ≡ 0
      → ((r : Request h) → Sends (k r))
      → Sends (m >>= k)
  bind-Sends m k none_sent s =
      let (bound, exact) = events_of-sent (result m) k s in
      let split : sent h (events (m >>= k)) ≡ sent h (events_of (result m) k) =
        ap (sent h) (events->>= m k)
        ∙ (sent-append h (events m) (events_of (result m) k) ∙ omega arith) in
      (omega arith, λ a e. split ∙ exact a (sym (result->>= m k) ∙ e))

  -- Handling a request sends at most one request to the target, and a run that returns a response
  -- has sent exactly one.
  pub handle-Sends :
      (self : HttpService h C) (r : Request h)
      → (sent h (events (handle h C up self r)) ≤ 1)
        × ((a : Response h)
            → result (handle h C up self r) ≡ ok a
            → sent h (events (handle h C up self r)) ≡ 1)
  unfolding handle
  handle-Sends self r =
      let rules = request_rules h C up self r in
      bind-Sends (apply_request_rules h rules r) (answer_to self)
        (apply_request_rules-sent h rules r) (λ c. answer_with-Sends self c _)

  -- The rule is about requests, selects this one, and aborts.
  pub record AbortsRequest (port : ℕ) (r : Request h) (rule : Rule h) : Type 0 where
    pub targets : rule.target ≡ Target.request
    pub selects : select_request h port r rule.selector ≡ true
    pub aborts : rule.actions.abort ≡ true

  pub filter-Aborts :
      (p : Rule h → Bool) (P : Rule h → Type 0) (rules : List (Rule h))
      → ((rule : Rule h) → P rule → (p rule ≡ true) × Aborts h rule)
      → Some P rules
      → Some (Aborts h) (filter p rules)
  filter-Aborts p P [] w s = absurd s
  filter-Aborts p P (rule ∷ rules) w (inl here) =
      let (kept, aborts) = w rule here in rw kept (inl aborts)
  filter-Aborts p P (rule ∷ rules) w (inr later) = elim (Bool-cases (p rule)) [
    | inl kept ↦ rw kept (inr (filter-Aborts p P rules w later))
    | inr dropped ↦ rw dropped (filter-Aborts p P rules w later)
  ]

  events_of-Fails :
      (m : Result (Request h)) (k : Request h → Run (Event h) (Response h))
      → Fails h m
      → Fails h (and_then m (λ r. result (k r))) × (sent h (events_of m k) ≡ 0)
  events_of-Fails (ok r) k f = absurd f
  events_of-Fails (err e) k f = (tt, refl)

  -- If the role of the service applies and some rule for requests that selects the request aborts,
  -- the client gets an error and nothing is sent to the target.
  pub handle-aborts :
      (self : HttpService h C) (r : Request h)
      → role_ok h C up self ≡ true
      → Some (AbortsRequest self.target.port r) self.config.rules
      → Fails h (result (handle h C up self r)) × (sent h (events (handle h C up self r)) ≡ 0)
  unfolding handle
  handle-aborts self r allowed s =
      let rules = request_rules h C up self r in
      let aborting : Some (Aborts h) rules =
        filter-Aborts _ (AbortsRequest self.target.port r) self.config.rules
          (λ rule w. (rw (allowed, w.targets, w.selects) refl, w.aborts)) s in
      let m = apply_request_rules h rules r in
      let (fails, quiet) =
        events_of-Fails (result m) (answer_to self)
          (apply_request_rules-Fails h rules r aborting) in
      (
        rw (result->>= m (answer_to self)) fails,
        ap (sent h) (events->>= m (answer_to self))
            ∙ (sent-append h (events m) (events_of (result m) (answer_to self))
                ∙ omega (arith, apply_request_rules-sent h rules r)),
      )
