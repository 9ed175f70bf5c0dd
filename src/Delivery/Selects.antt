-- ===== src/Delivery/Selects.antt =====
-- What the user's selector asks for, and that the checked selector asks for the same.
use mathlib.Core.Option
use chaos_tproxy.Prelude.{ℕ, ◌≡◌, sym, ap, ◌∙◌, subst, ◌↔◌, true, Option, none, some, Given}
use chaos_tproxy.Outcome.{Result, ok}
use chaos_tproxy.Outcome.Results.{transpose, ok_parts, ok-injective}
use chaos_tproxy.External.{Http}
use chaos_tproxy.Handler.Message.{Request}
use chaos_tproxy.Handler.Rule.{Selector}
use chaos_tproxy.Handler.Selector.Laws.{HasFields, SelectsRequest}
use chaos_tproxy.RawConfig.{RawSelector}
use chaos_tproxy.RawConfig.Laws.{KeepsSelector}

Given-map :
    {A B : Type 0} (P : A → Type 0) (Q : B → Type 0) (f : A → B) (o : Option A)
    → ((a : A) → P a ↔ Q (f a))
    → Given P o ↔ Given Q (Option.map f o)
Given-map P Q f none same = (λ g. tt, λ g. tt)
Given-map P Q f (some a) same = same a

Given-transpose :
    {A B : Type 0} (P : A → Type 0) (Q : B → Type 0) (f : A → Result B) (o : Option A)
    (o' : Option B)
    → transpose f o ≡ ok o'
    → ((a : A) (b : B) → f a ≡ ok b → P a ↔ Q b)
    → Given P o ↔ Given Q o'
Given-transpose P Q f none o' e same =
    subst (λ x. Given P none ↔ Given Q x) (ok-injective e) (λ g. tt, λ g. tt)
Given-transpose P Q f (some a) o' e same =
    let (b, e₁, e₂) = ok_parts (f a) _ e in
    subst (λ x. Given P (some a) ↔ Given Q x) (ok-injective e₂) (same a b e₁)

module _ (h : Http) where
  -- What the texts of a selector say of a request: its port, a path that the pattern matches, the
  -- method of that name, and every value of the headers that the map stands for.
  pub record UserSelects (port : ℕ) (r : Request h) (raw : RawSelector) : Type 0 where
    pub port_ok : Given (λ p. port ≡ p) raw.port
    pub path_ok : Given (λ p. h.wild_matches (h.wild_new p) (h.uri_path r.uri) ≡ true) raw.path
    pub method_ok : Given (λ m. h.parse_method m ≡ ok r.method) raw.method
    pub headers_ok :
        Given
          (λ fields. (m : h.HeaderMap) → h.header_from_map fields ≡ ok m → HasFields h r.headers m)
          raw.request_headers

  pub KeepsSelector-UserSelects :
      (port : ℕ) (r : Request h) (raw : RawSelector) (s : Selector h)
      → KeepsSelector h raw s
      → UserSelects port r raw ↔ SelectsRequest h port r s
  KeepsSelector-UserSelects port r raw s keeps =
      let path =
        Given-map (λ p. h.wild_matches (h.wild_new p) (h.uri_path r.uri) ≡ true)
          (λ p. h.wild_matches p (h.uri_path r.uri) ≡ true) h.wild_new raw.path
          (λ p. (λ e. e, λ e. e)) in
      let method =
        Given-transpose (λ m. h.parse_method m ≡ ok r.method) (λ m. r.method ≡ m) h.parse_method
          raw.method s.method keeps.method_parsed
          (λ text m e. (λ e'. ok-injective (sym e' ∙ e), λ same. e ∙ ap ok (sym same))) in
      let headers =
        Given-transpose
          (λ fields. (m : h.HeaderMap) → h.header_from_map fields ≡ ok m → HasFields h r.headers m)
          (HasFields h r.headers) h.header_from_map raw.request_headers s.request_headers
          keeps.request_headers_parsed
          (λ fields m e. (
            λ all. all m e,
            λ has m' e'. subst (HasFields h r.headers) (ok-injective (sym e ∙ e')) has,
          )) in
      (
        λ w. record {
          port_ok = subst (Given (λ p. port ≡ p)) (sym keeps.port_kept) w.port_ok;
          path_ok =
              subst (Given (λ p. h.wild_matches p (h.uri_path r.uri) ≡ true)) (sym keeps.path_kept)
                (path.0 w.path_ok);
          method_ok = method.0 w.method_ok;
          headers_ok = headers.0 w.headers_ok;
        },
        λ w. record {
          port_ok = subst (Given (λ p. port ≡ p)) keeps.port_kept w.port_ok;
          path_ok = path.1 (
              subst (Given (λ p. h.wild_matches p (h.uri_path r.uri) ≡ true)) keeps.path_kept
                w.path_ok);
          method_ok = method.1 w.method_ok;
          headers_ok = headers.1 w.headers_ok;
        },
      )
