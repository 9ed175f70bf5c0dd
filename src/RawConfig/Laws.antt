-- ===== src/RawConfig/Laws.antt =====
-- What the conversion of chaos-tproxy-proxy/src/raw_config.rs keeps, and what it loses.
use mathlib.Core.Option
use chaos_tproxy.Prelude.{
  ◌≡◌, refl, sym, ap, false, List, [], ◌∷◌, some, String, arith, ◌≤◌, length, subst,
}
use chaos_tproxy.Outcome.{Result, ok}
use chaos_tproxy.Outcome.Results.{◌>>=◌, transpose, collect, ok_parts, ok-injective, collect-cons}
use chaos_tproxy.External.{Http}
use chaos_tproxy.External.Laws.{HeaderLaws, values_at}
use chaos_tproxy.Handler.Action.Headers.{last_or}
use chaos_tproxy.Handler.Rule.{Rule, Selector, Actions}
use chaos_tproxy.RawConfig.{RawRule, RawSelector, RawActions}
use chaos_tproxy.RawConfig.Convert.{
  unwrap_or, to_target, insert_parsed, try_from_vec, to_selector, to_actions, to_rule, to_rules,
  try_from_hash_map, to_replace, to_patch,
}

last_or-last {ℓ} : {V : Type ℓ} (vs : List V) (v : V) → length (last_or vs (v ∷ [])) ≡ 1
last_or-last [] v = refl
last_or-last (w ∷ vs) v = last_or-last vs w

last_or-le {ℓ} : {V : Type ℓ} (vs : List V) → length (last_or vs []) ≤ 1
last_or-le [] = omega arith
last_or-le (v ∷ vs) = omega (arith, last_or-last vs v)

module _ (h : Http) where
  -- One header of a list, parsed.
  abbrev pub parse_entry : String × String → Result (h.HeaderName × h.HeaderValue)
  parse_entry (key, value) = do name ← h.parse_name key; v ← h.parse_value value; ok (name, v)

  parse_entry-ok :
      {key value : String} {name : h.HeaderName} {v : h.HeaderValue}
      → h.parse_name key ≡ ok name
      → h.parse_value value ≡ ok v
      → parse_entry (key, value) ≡ ok (name, v)
  parse_entry-ok p q = rw (p, q)

  module _ (laws : HeaderLaws h) where
    insert_parsed-values :
        (es : List (String × String)) (m m' : h.HeaderMap)
        → insert_parsed h m es ≡ ok m'
        → (entries : List (h.HeaderName × h.HeaderValue)) × (collect parse_entry es ≡ ok entries)
          × ((n : h.HeaderName)
              → h.header_get_all m' n ≡ last_or (values_at h n entries) (h.header_get_all m n))
    unfolding insert_parsed
    insert_parsed-values [] m m' e =
        ([], refl, λ n. ap (λ x. h.header_get_all x n) (sym (ok-injective e)))
    insert_parsed-values ((key, value) ∷ es) m m' e =
        let (name, e_name, e₁) = ok_parts (h.parse_name key) _ e in
        let (v, e_value, e₂) = ok_parts (h.parse_value value) _ e₁ in
        let (entries, parsed, values) = insert_parsed-values es (h.header_insert name v m) m' e₂ in
        (
          (name, v) ∷ entries,
          collect-cons parse_entry (key, value) es (parse_entry-ok e_name e_value) parsed,
          λ n. ground (arith, values n, laws.get_insert name v m n),
        )

    -- A list of headers that converts has parsed entry by entry, and its map gives a name the last
    -- value that the list gives to it, and no other: earlier values of the same name are lost.
    pub try_from_vec-values :
        (es : List (String × String)) (m : h.HeaderMap)
        → try_from_vec h (some es) ≡ ok (some m)
        → (entries : List (h.HeaderName × h.HeaderValue)) × (collect parse_entry es ≡ ok entries)
          × ((n : h.HeaderName)
              → (h.header_get_all m n ≡ last_or (values_at h n entries) [])
                × (length (h.header_get_all m n) ≤ 1))
    unfolding try_from_vec
    try_from_vec-values es m e =
        let (m', built, e₁) = ok_parts (insert_parsed h h.header_new es) _ e in
        let same : m' ≡ m = cc in
        let (entries, parsed, values) = insert_parsed-values es h.header_new m (rw same at built) in
        let only : (n : h.HeaderName) → h.header_get_all m n ≡ last_or (values_at h n entries) [] =
          λ n. rw (laws.get_new n) at (values n) in
        (entries, parsed, λ n. (only n, rw (only n) (last_or-le (values_at h n entries))))

  -- What a checked rule keeps of the raw one: each field is the raw one or what that parses to.
  pub record KeepsSelector (raw : RawSelector) (s : Selector h) : Type 0 where
    pub port_kept : s.port ≡ raw.port
    pub path_kept : s.path ≡ Option.map h.wild_new raw.path
    pub method_parsed : transpose h.parse_method raw.method ≡ ok s.method
    pub code_parsed : transpose h.status_from_u16 raw.code ≡ ok s.code
    pub request_headers_parsed : try_from_hash_map h raw.request_headers ≡ ok s.request_headers
    pub response_headers_parsed : try_from_hash_map h raw.response_headers ≡ ok s.response_headers

  pub record KeepsActions (raw : RawActions) (a : Actions h) : Type 0 where
    pub abort_kept : a.abort ≡ unwrap_or raw.abort false
    pub delay_kept : a.delay ≡ raw.delay
    pub replace_parsed : transpose (to_replace h) raw.replace ≡ ok a.replace
    pub patch_parsed : transpose (to_patch h) raw.patch ≡ ok a.patch

  pub record KeepsRule (raw : RawRule) (rule : Rule h) : Type 0 where
    pub target_kept : rule.target ≡ to_target raw.target
    pub selector_kept : KeepsSelector raw.selector rule.selector
    pub actions_kept : KeepsActions raw.actions rule.actions

  -- The rules stand in the order of the raw rules, one for each.
  abbrev pub KeepsRules : List RawRule → List (Rule h) → Type 0
  KeepsRules [] [] = Unit
  KeepsRules [] (_ ∷ _) = ⊥
  KeepsRules (_ ∷ _) [] = ⊥
  KeepsRules (raw ∷ raws) (rule ∷ rules) = KeepsRule raw rule × KeepsRules raws rules

  to_selector-KeepsSelector :
      (raw : RawSelector) (s : Selector h) → to_selector h raw ≡ ok s → KeepsSelector raw s
  unfolding to_selector
  to_selector-KeepsSelector raw s e =
      let (method, m, e₁) = ok_parts (transpose h.parse_method raw.method) _ e in
      let (request_headers, q, e₂) = ok_parts (try_from_hash_map h raw.request_headers) _ e₁ in
      let (code, c, e₃) = ok_parts (transpose h.status_from_u16 raw.code) _ e₂ in
      let (response_headers, p, e₄) = ok_parts (try_from_hash_map h raw.response_headers) _ e₃ in
      subst (KeepsSelector raw) (ok-injective e₄) (record {
        port_kept = refl;
        path_kept = refl;
        method_parsed = m;
        code_parsed = c;
        request_headers_parsed = q;
        response_headers_parsed = p;
      })

  to_actions-KeepsActions :
      (raw : RawActions) (a : Actions h) → to_actions h raw ≡ ok a → KeepsActions raw a
  unfolding to_actions
  to_actions-KeepsActions raw a e =
      let (replace, r, e₁) = ok_parts (transpose (to_replace h) raw.replace) _ e in
      let (patch, p, e₂) = ok_parts (transpose (to_patch h) raw.patch) _ e₁ in
      subst (KeepsActions raw) (ok-injective e₂)
        (record { abort_kept = refl; delay_kept = refl; replace_parsed = r; patch_parsed = p })

  to_rule-KeepsRule : (raw : RawRule) (rule : Rule h) → to_rule h raw ≡ ok rule → KeepsRule raw rule
  unfolding to_rule
  to_rule-KeepsRule raw rule e =
      let (selector, s, e₁) = ok_parts (to_selector h raw.selector) _ e in
      let (actions, a, e₂) = ok_parts (to_actions h raw.actions) _ e₁ in
      subst (KeepsRule raw) (ok-injective e₂) (record {
        target_kept = refl;
        selector_kept = to_selector-KeepsSelector raw.selector selector s;
        actions_kept = to_actions-KeepsActions raw.actions actions a;
      })

  -- Rules that convert keep their order, one for each raw rule, with its target, port, path pattern
  -- and delay; a rule aborts exactly if the raw one says so, and each other part is what the raw
  -- one parses to.
  pub to_rules-KeepsRules :
      (raws : List RawRule) (rules : List (Rule h))
      → to_rules h raws ≡ ok rules
      → KeepsRules raws rules
  unfolding to_rules
  to_rules-KeepsRules [] rules e = subst (KeepsRules []) (ok-injective e) tt
  to_rules-KeepsRules (raw ∷ raws) rules e =
      let (rule, e_rule, e₁) = ok_parts (to_rule h raw) _ e in
      let (rest, e_rest, e₂) = ok_parts (collect (to_rule h) raws) _ e₁ in
      subst (KeepsRules (raw ∷ raws)) (ok-injective e₂)
        (to_rule-KeepsRule raw rule e_rule, to_rules-KeepsRules raws rest e_rest)
