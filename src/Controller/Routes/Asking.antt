-- ===== src/Controller/Routes/Asking.antt =====
-- The questions for the default gateway: the loop of `try_get_default_gateway` in
-- chaos-tproxy-controller/src/proxy/net/bridge.rs.
use chaos_tproxy.Prelude.{
  ℕ, zero, suc, ◌<◌, ◌≡◌, refl, ◌∙◌, sym, ap, ◌⊎◌, inl, inr, [], ◌∷◌, ◌++◌, append_assoc,
  append-nil, arith,
}
use chaos_tproxy.Outcome.{Error, Result, ok, err, no_gateway}
use chaos_tproxy.Controller.Shell.{Gateway, ask_gateway, History, Machine}
use chaos_tproxy.Controller.Routes.{first_answer, ask_gateway_times, try_get_default_gateway}

abbrev asked : ℕ → History
asked zero = []
asked (suc n) = ask_gateway ∷ asked n

none_below : (i : ℕ) → ¬ (i < 0)
none_below i = omega arith

module _ (m : Machine) where
  abbrev answer : History → ℕ → Result Gateway
  answer s k = m.default_gateway (s ++ asked k)

  abbrev Refused : History → ℕ → Type 0
  Refused s k = (e : Error) × (answer s k ≡ err e)

  -- The first of so many questions that is answered, after refusals only, or no answer to them all.
  abbrev pub Asked : ℕ → History → Result Gateway × History → Type 0
  Asked n s x =
      ((gw : Gateway) × (k : ℕ) × (k < n)
        × (x ≡ (ok gw, s ++ asked (suc k)))
        × (answer s k ≡ ok gw)
        × ((i : ℕ) → i < k → Refused s i))
      ⊎ ((x ≡ (err no_gateway, s ++ asked n)) × ((i : ℕ) → i < n → Refused s i))

  later : (s : History) (k : ℕ) → (s ++ ask_gateway ∷ []) ++ asked k ≡ s ++ asked (suc k)
  later s k = append_assoc s (ask_gateway ∷ []) (asked k)

  Refused-later :
      (s : History) (n : ℕ)
      → Refused s 0
      → ((i : ℕ) → i < n → Refused (s ++ ask_gateway ∷ []) i)
      → (i : ℕ) → i < suc n
      → Refused s i
  Refused-later s n first rest zero below = first
  Refused-later s n first rest (suc i) below =
      let (e, refused) = rest i (omega arith) in
      (e, ap m.default_gateway (sym (later s i)) ∙ refused)

  Asked-later :
      (n : ℕ) (s : History) (x : Result Gateway × History)
      → Refused s 0
      → Asked n (s ++ ask_gateway ∷ []) x
      → Asked (suc n) s x
  Asked-later n s x first (inl (gw, k, below, same, answered, refused)) = inl (
    gw,
    suc k,
    omega arith,
    same ∙ ap (λ h. (ok gw, h)) (later s (suc k)),
    ap m.default_gateway (sym (later s k)) ∙ answered,
    Refused-later s k first refused,
  )
  Asked-later n s x first (inr (same, refused)) =
      inr (same ∙ ap (λ h. (err no_gateway, h)) (later s n), Refused-later s n first refused)

  ask_gateway_times-Asked : (n : ℕ) (s : History) → Asked n s (ask_gateway_times m n s)
  unfolding ask_gateway_times
  ask_gateway_times-Asked zero s =
      inr
        (ap (λ h. (err no_gateway, h)) (sym (append-nil s)), λ i below. absurd (none_below i below))
  ask_gateway_times-Asked (suc n) s =
      by_answer (m.default_gateway s) refl (ask_gateway_times-Asked n (s ++ ask_gateway ∷ []))
    where
      again : Result Gateway × History
      again = ask_gateway_times m n (s ++ ask_gateway ∷ [])

      by_answer :
          (r : Result Gateway)
          → m.default_gateway s ≡ r
          → Asked n (s ++ ask_gateway ∷ []) again
          → Asked (suc n) s (first_answer r (s ++ ask_gateway ∷ []) again)
      by_answer (ok gw) e rest = inl (
        gw,
        0,
        omega arith,
        refl,
        ap m.default_gateway (append-nil s) ∙ e,
        λ i below. absurd (none_below i below),
      )
      by_answer (err e) refused rest =
          Asked-later n s again (e, ap m.default_gateway (append-nil s) ∙ refused) rest

  -- The gateway is asked for at most five times: the code ends with the first answer and asks no
  -- more, or fails after five refusals.
  pub try_get_default_gateway-Asked : (s : History) → Asked 5 s (try_get_default_gateway m s)
  unfolding try_get_default_gateway
  try_get_default_gateway-Asked s = ask_gateway_times-Asked 5 s
