-- ===== src/Service/Rules.antt =====
-- The two loops over the selected rules: they send nothing, and an abort among them ends them.
use chaos_tproxy.Prelude.{
  ℕ, ◌+◌, suc, ◌≡◌, refl, ◌⊎◌, inl, inr, Bool, true, false, List, [], ◌∷◌, ◌++◌, Option, none, some,
  arith, Some, if◌then◌else◌, ◌∙◌, ap,
}
use chaos_tproxy.Outcome.{Result, ok, err, Run}
use chaos_tproxy.Outcome.Results.{◌>>=◌ as and_then}
use chaos_tproxy.Outcome.Runs.{events, result, ◌>>=◌, events_of, events->>=, result->>=}
use chaos_tproxy.External.{Http}
use chaos_tproxy.Handler.Message.{Request, Response, Event, slept, forwarded}
use chaos_tproxy.Handler.Rule.{Rule}
use chaos_tproxy.Handler.Apply.{apply_request_action, apply_response_action}
use chaos_tproxy.Handler.Apply.Laws.{
  delays, apply_request_action-events, apply_request_action-result, apply_response_action-events,
  apply_response_action-result,
}
use chaos_tproxy.Service.{apply_request_rules, apply_response_rules}

module _ (h : Http) where
  -- How many requests were sent on.
  abbrev pub sent : List (Event h) → ℕ
  sent [] = 0
  sent (slept d ∷ es) = sent es
  sent (forwarded r ∷ es) = suc (sent es)

  pub sent-append : (xs ys : List (Event h)) → sent (xs ++ ys) ≡ sent xs + sent ys
  sent-append [] ys = omega arith
  sent-append (slept d ∷ xs) ys = sent-append xs ys
  sent-append (forwarded r ∷ xs) ys = omega (arith, sent-append xs ys)

  delays-sent : (b : Bool) (d : Option ℕ) → sent (if b then [] else delays h d) ≡ 0
  delays-sent true d = refl
  delays-sent false none = refl
  delays-sent false (some d) = refl

  -- A sequence sends nothing if neither part does.
  bind-sent :
      {A B : Type 0} (m : Run (Event h) A) (k : A → Run (Event h) B)
      → sent (events m) ≡ 0
      → ((a : A) → sent (events (k a)) ≡ 0)
      → sent (events (m >>= k)) ≡ 0
  bind-sent {A} m k p q =
      ap sent (events->>= m k)
      ∙ (sent-append (events m) (events_of (result m) k) ∙ omega (arith, rest (result m)))
    where
      rest : (r : Result A) → sent (events_of r k) ≡ 0
      rest (ok a) = q a
      rest (err e) = refl

  pub apply_request_rules-sent :
      (rules : List (Rule h)) (r : Request h) → sent (events (apply_request_rules h rules r)) ≡ 0
  unfolding apply_request_rules
  apply_request_rules-sent [] r = refl
  apply_request_rules-sent (rule ∷ rules) r =
      bind-sent (apply_request_action h r rule.actions) (apply_request_rules h rules)
        (ap sent (apply_request_action-events h r rule.actions)
          ∙ delays-sent rule.actions.abort rule.actions.delay)
        (apply_request_rules-sent rules)

  pub apply_response_rules-sent :
      (rules : List (Rule h)) (r : Response h) → sent (events (apply_response_rules h rules r)) ≡ 0
  unfolding apply_response_rules
  apply_response_rules-sent [] r = refl
  apply_response_rules-sent (rule ∷ rules) r =
      bind-sent (apply_response_action h r rule.actions) (apply_response_rules h rules)
        (ap sent (apply_response_action-events h r rule.actions)
          ∙ delays-sent rule.actions.abort rule.actions.delay)
        (apply_response_rules-sent rules)

  abbrev pub Fails : {A : Type 0} → Result A → Type 0
  Fails (ok a) = ⊥
  Fails (err e) = Unit

  abbrev pub Aborts : Rule h → Type 0
  Aborts rule = rule.actions.abort ≡ true

  bind-Fails :
      {A B : Type 0} (m : Run (Event h) A) (k : A → Run (Event h) B)
      → Fails (result m) ⊎ ((a : A) → Fails (result (k a)))
      → Fails (result (m >>= k))
  bind-Fails {A} {B} m k f = rw (result->>= m k) (cases (result m) f)
    where
      cases :
          (r : Result A)
          → Fails r ⊎ ((a : A) → Fails (result (k a)))
          → Fails (and_then r (λ a. result (k a)))
      cases (ok a) (inl f) = absurd f
      cases (ok a) (inr f) = f a
      cases (err e) f = tt

  pub apply_request_rules-Fails :
      (rules : List (Rule h)) (r : Request h)
      → Some Aborts rules
      → Fails (result (apply_request_rules h rules r))
  unfolding apply_request_rules
  apply_request_rules-Fails [] r s = absurd s
  apply_request_rules-Fails (rule ∷ rules) r (inl aborts) =
      bind-Fails (apply_request_action h r rule.actions) (apply_request_rules h rules)
        (inl (rw (apply_request_action-result h r rule.actions, aborts) tt))
  apply_request_rules-Fails (rule ∷ rules) r (inr later) =
      bind-Fails (apply_request_action h r rule.actions) (apply_request_rules h rules)
        (inr (λ x. apply_request_rules-Fails rules x later))

  pub apply_response_rules-Fails :
      (rules : List (Rule h)) (r : Response h)
      → Some Aborts rules
      → Fails (result (apply_response_rules h rules r))
  unfolding apply_response_rules
  apply_response_rules-Fails [] r s = absurd s
  apply_response_rules-Fails (rule ∷ rules) r (inl aborts) =
      bind-Fails (apply_response_action h r rule.actions) (apply_response_rules h rules)
        (inl (rw (apply_response_action-result h r rule.actions, aborts) tt))
  apply_response_rules-Fails (rule ∷ rules) r (inr later) =
      bind-Fails (apply_response_action h r rule.actions) (apply_response_rules h rules)
        (inr (λ x. apply_response_rules-Fails rules x later))
