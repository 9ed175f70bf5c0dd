-- ===== src/Service/Responses.antt =====
-- Rules for responses that abort.
use chaos_tproxy.Prelude.{ℕ, ◌≡◌, refl, ◌∙◌, ap, true, Some, arith}
use chaos_tproxy.Outcome.{ok}
use chaos_tproxy.Outcome.Runs.{events, result, events_of, events->>=, result->>=}
use chaos_tproxy.External.{Http}
use chaos_tproxy.Handler.Message.{Request, Response}
use chaos_tproxy.Handler.Rule.{Rule, Target}
use chaos_tproxy.Handler.Selector.{select_response}
use chaos_tproxy.Service.{
  HttpService, Upstream, apply_request_rules, or_bad_gateway, rebuild_uri, forward, role_ok,
  request_rules, response_rules, handle,
}
use chaos_tproxy.Service.Rules.{
  sent, sent-append, apply_request_rules-sent, apply_response_rules-sent, Fails, Aborts,
  apply_response_rules-Fails,
}
use chaos_tproxy.Service.Laws.{answer_with, answer_to, filter-Aborts}

module _ (h : Http) (C : Type 0) (up : Upstream h C) where
  -- What the target answers to a request that the rules have changed, at its rebuilt URI.
  abbrev pub answer_of : HttpService h C → Request h → h.Uri → Response h
  answer_of self changed uri =
      or_bad_gateway h
        (up.send self.tls_client_config self.target self.remote (record changed { uri = uri }))

  -- The rule is about responses, selects this one to that request, and aborts.
  pub record AbortsResponse (port : ℕ) (r : Request h) (answer : Response h) (rule : Rule h)
      : Type 0 where
    pub targets : rule.target ≡ Target.response
    pub selects : select_response h port r.uri r.method r.headers answer rule.selector ≡ true
    pub aborts : rule.actions.abort ≡ true

  answer_with-drops :
      (self : HttpService h C) (changed : Request h) (uri : h.Uri)
      → Some (Aborts h) (response_rules h C up self changed (answer_of self changed uri))
      → Fails h (result (answer_with h C up self changed (ok uri)))
        × (sent h (events (answer_with h C up self changed (ok uri))) ≡ 1)
  unfolding forward
  answer_with-drops self changed uri aborting =
      let answer = answer_of self changed uri in
      let rules = response_rules h C up self changed answer in
      (
        apply_response_rules-Fails h rules answer aborting,
        omega (arith, apply_response_rules-sent h rules answer),
      )

  -- If the role of the service applies, the rules for requests let a request pass, and some rule
  -- for responses selects the answer to what they left and aborts, then the client gets an error,
  -- though the request has been sent to the target, once.
  pub handle-drops_response :
      (self : HttpService h C) (r changed : Request h) (uri : h.Uri)
      → role_ok h C up self ≡ true
      → result (apply_request_rules h (request_rules h C up self r) r) ≡ ok changed
      → rebuild_uri h C up self changed ≡ ok uri
      → Some
          (AbortsResponse self.target.port changed (answer_of self changed uri))
          self.config.rules
      → Fails h (result (handle h C up self r)) × (sent h (events (handle h C up self r)) ≡ 1)
  unfolding handle
  handle-drops_response self r changed uri allowed passed rebuilt s =
      let m = apply_request_rules h (request_rules h C up self r) r in
      let aborting : Some (Aborts h)
          (response_rules h C up self changed (answer_of self changed uri)) =
        filter-Aborts h C up _
          (AbortsResponse self.target.port changed (answer_of self changed uri)) self.config.rules
          (λ rule w. (rw (allowed, w.targets, w.selects) refl, w.aborts)) s in
      let (fails, once) = answer_with-drops self changed uri aborting in
      (
        rw (result->>= m (answer_to h C up self), passed, rebuilt) fails,
        ap (sent h) (events->>= m (answer_to h C up self))
            ∙ (sent-append h (events m) (events_of (result m) (answer_to h C up self))
                ∙ rw (passed, rebuilt)
                    (omega
                      (arith, once, apply_request_rules-sent h (request_rules h C up self r) r))),
      )
