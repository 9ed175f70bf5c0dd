-- ===== src/Service/Unselected.antt =====
-- A request that no selector is about.
use chaos_tproxy.Prelude.{
  ℕ, ◌≡◌, refl, Bool, false, ◌&&◌, Bool-cases, inl, inr, List, [], ◌∷◌, filter, All, arith,
}
use chaos_tproxy.External.{Http}
use chaos_tproxy.External.Laws.{HeaderLaws, CodeLaws}
use chaos_tproxy.Handler.Message.{Request, Response}
use chaos_tproxy.Handler.Rule.{Rule}
use chaos_tproxy.Handler.Selector.{select_request, select_response}
use chaos_tproxy.Handler.Selector.Laws.{SelectsRequest, select_request_iff, select_response_iff}
use chaos_tproxy.Service.{
  HttpService, Upstream, apply_request_rules, is_request, is_response, role_ok, request_rules,
  response_rules, handle,
}
use chaos_tproxy.Service.Transparent.{pass_through, passed}

filter-All {ℓ} :
    {A : Type ℓ} (p q : A → Bool) (P : A → Type 0) (xs : List A)
    → ((x : A) → P x → q x ≡ false)
    → All P xs
    → filter (λ x. p x && q x) xs ≡ []
filter-All p q P [] out all = refl
filter-All p q P (x ∷ xs) out (px, all) = ground (arith, out x px, filter-All p q P xs out all)

module _ (h : Http) (C : Type 0) (up : Upstream h C) (headers : HeaderLaws h)
    (codes : CodeLaws h) where
  abbrev pub Unselected : ℕ → Request h → Rule h → Type 0
  Unselected port r rule = ¬ SelectsRequest h port r rule.selector

  not_request :
      (port : ℕ) (r : Request h) (rule : Rule h)
      → Unselected port r rule
      → select_request h port r rule.selector ≡ false
  not_request port r rule out = elim (Bool-cases (select_request h port r rule.selector)) [
    | inl selected ↦
        absurd (out ((select_request_iff h headers codes port r rule.selector).0 selected))
    | inr not_selected ↦ not_selected
  ]

  not_response :
      (port : ℕ) (r : Request h) (answer : Response h) (rule : Rule h)
      → Unselected port r rule
      → select_response h port r.uri r.method r.headers answer rule.selector ≡ false
  not_response port r answer rule out =
      let selects = select_response h port r.uri r.method r.headers answer rule.selector in
      elim (Bool-cases selects) [
        | inl selected ↦ absurd (
            out
              ((select_response_iff h headers codes port r answer rule.selector).0
                selected).about_request)
        | inr not_selected ↦ not_selected
      ]

  -- A request that no rule's selector is about, of the rules for requests and of those for
  -- responses, is passed through.
  pub handle-Unselected :
      (self : HttpService h C) (r : Request h)
      → All (Unselected self.target.port r) self.config.rules
      → handle h C up self r ≡ pass_through h C up self r
  unfolding handle apply_request_rules
  handle-Unselected self r out =
      let port : ℕ = self.target.port in
      let no_request : request_rules h C up self r ≡ [] =
        filter-All (λ rule. role_ok h C up self && is_request rule.target)
          (λ rule. select_request h port r rule.selector) (Unselected port r) self.config.rules
          (not_request port r) out in
      let no_response : (answer : Response h) → response_rules h C up self r answer ≡ [] = λ answer.
        filter-All (λ rule. role_ok h C up self && is_response rule.target)
          (λ rule. select_response h port r.uri r.method r.headers answer rule.selector)
          (Unselected port r) self.config.rules (not_response port r answer) out in
      rw no_request (passed h C up self r _ no_response)
