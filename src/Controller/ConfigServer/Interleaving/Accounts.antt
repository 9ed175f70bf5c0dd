-- ===== src/Controller/ConfigServer/Interleaving/Accounts.antt =====
-- What the calls so far account for at each stage of the stop, and how a call keeps it.
use chaos_tproxy.Prelude.{
  ℕ, ◌≡◌, refl, ap, sym, false≢true, ◌∙◌, Bool, true, false, not, ◌&&◌, Bool-cases, inl, inr, List,
  [], ◌∷◌, ◌++◌, String,
}
use chaos_tproxy.Outcome.{Error, Result, ok, err}
use chaos_tproxy.Controller.Config.{RawConfig}
use chaos_tproxy.Controller.Shell.{History, Machine}
use chaos_tproxy.Controller.Proxy
use chaos_tproxy.Controller.Proxy.{Proxy, Stepped}
use chaos_tproxy.Controller.ConfigServer.{
  Request, Handled, ConfigServer, Served, panics, handle, serve, stop, tell,
}
use chaos_tproxy.Controller.ConfigServer.Interleaving.{
  Lock, free, by_call, by_stop, Stage, before, locked, idle, told, failed, over, is_told,
}

abbrev pub stepped : Result (Unit {0}) → Proxy → History → Stepped
stepped r p s = record { result = r; proxy = p; history = s }

abbrev pub is_by_stop : Lock → Bool
is_by_stop by_stop = true
is_by_stop free = false
is_by_stop by_call = false

abbrev pub left_by : Served → Proxy × History
left_by x = (x.proxy, x.history)

module _ (m : Machine) (from_slice : List ℕ → Result RawConfig) (show : Error → String) where
  -- These calls of the server, from a proxy and a history on, lead to that proxy and history, and
  -- if the server is still to serve then none of them has panicked.
  abbrev pub Leads : Proxy → History → List Request → Proxy → History → Bool → Type 0
  Leads p₀ s₀ rs p s serving =
      let x = serve m from_slice show rs p₀ s₀ in
      (left_by x ≡ (p, s)) × (serving ≡ true → x.serving ≡ true)

  abbrev after_call : Served → Request → Served
  after_call x r =
      let t = handle m from_slice show x.proxy r x.history in
      record { proxy = t.proxy; history = t.history; serving = not (panics t.result) }

  panicked_end :
      (q : Request) (rs : List Request) (p : Proxy) (s : History)
      → panics (handle m from_slice show p q s).result ≡ true
      → (serve m from_slice show (q ∷ rs) p s).serving ≡ false
  unfolding serve
  panicked_end q rs p s yes_ = rw yes_ refl

  goes_on :
      (q : Request) (rs : List Request) (p : Proxy) (s : History)
      → panics (handle m from_slice show p q s).result ≡ false
      → (serve m from_slice show (q ∷ rs) p s).serving ≡ (
          let t = handle m from_slice show p q s in
          (serve m from_slice show rs t.proxy t.history).serving)
  unfolding serve
  goes_on q rs p s no_ = rw no_ refl

  serve-append :
      (rs : List Request) (r : Request) (p : Proxy) (s : History)
      → (serve m from_slice show rs p s).serving ≡ true
      → serve m from_slice show (rs ++ r ∷ []) p s ≡ after_call (serve m from_slice show rs p s) r
  unfolding serve
  serve-append [] r p s alive = elim (Bool-cases (panics (handle m from_slice show p r s).result)) [
    | inl yes_ ↦ rw yes_ refl
    | inr no_ ↦ rw no_ refl
  ]
  serve-append (q ∷ rs) r p s alive =
      let t = handle m from_slice show p q s in
      elim (Bool-cases (panics t.result)) [
        | inl yes_ ↦ absurd (false≢true (sym (panicked_end q rs p s yes_) ∙ alive))
        | inr no_ ↦
            rw no_ (serve-append rs r t.proxy t.history (sym (goes_on q rs p s no_) ∙ alive))
      ]

  and_left : (a b : Bool) → a && b ≡ true → a ≡ true
  and_left true b e = refl
  and_left false b e = e

  Leads-handled :
      (p₀ : Proxy) (s₀ : History) (rs : List Request) (request : Request) (p : Proxy) (s : History)
      (serving : Bool)
      → Leads p₀ s₀ rs p s serving
      → (serving ≡ false → ⊥)
      → (let t = handle m from_slice show p request s in
          Leads p₀ s₀ (rs ++ request ∷ []) t.proxy t.history (not (panics t.result) && serving))
  Leads-handled p₀ s₀ rs request p s serving (same, alive) busy =
      let x = serve m from_slice show rs p₀ s₀ in
      let go : x.serving ≡ true = elim (Bool-cases serving) [
        | inl yes_ ↦ alive yes_
        | inr no_ ↦ absurd (busy no_)
      ] in
      let appended = serve-append rs request p₀ s₀ go in
      let left : Proxy × History → Handled = λ y. handle m from_slice show y.0 request y.1 in
      (
        ap left_by appended ∙ ap (λ y. ((left y).proxy, (left y).history)) same,
        λ e.
            ap (λ y. y.serving) appended
            ∙ (ap (λ y. not (panics (left y).result)) same ∙ and_left _ serving e),
      )

module _ (m : Machine) (from_slice : List ℕ → Result RawConfig) (show : Error → String)
    (self : ConfigServer) (start : History) where
  abbrev pub served : List Request → Proxy × History
  served requests = left_by (serve m from_slice show requests self.proxy start)

  abbrev pub proxy_stop : List Request → Stepped
  proxy_stop requests = Proxy.stop m (served requests).0 (served requests).1

  -- The stop of the server after these calls.
  abbrev pub stop_after : List Request → Stepped
  stop_after requests = stop m (record self { proxy = (served requests).0 }) (served requests).1

  -- What the calls so far, in order, account for at each stage. After a failed stop of the proxy
  -- there may be later calls.
  abbrev pub At : Stage → Lock → Proxy → History → Bool → List Request → Type 0
  At before lock p s serving rs =
      Leads m from_slice show self.proxy start rs p s serving × (is_by_stop lock ≡ false)
  At locked lock p s serving rs = (served rs ≡ (p, s)) × (lock ≡ by_stop)
  At idle lock p s serving rs = (proxy_stop rs ≡ stepped (ok tt) p s) × (lock ≡ by_stop)
  At told lock p s serving rs =
      (h : History) × (proxy_stop rs ≡ stepped (ok tt) p h)
      × (s ≡ (tell m self.sender h).1)
      × (lock ≡ by_stop)
  At (failed e) lock p s serving rs =
      (later : List Request) × ((proxy_stop rs).result ≡ err e)
      × Leads m from_slice show (proxy_stop rs).proxy (proxy_stop rs).history later p s serving
      × (is_by_stop lock ≡ false)
  At (over r) lock p s serving rs = (stop_after rs ≡ stepped r p s) × (serving ≡ false)

  pub At-lock_call :
      (st : Stage) (p : Proxy) (s : History) (serving : Bool) (rs : List Request)
      → At st free p s serving rs
      → At st by_call p s serving rs
  At-lock_call before p s serving rs (same, unheld) = (same, refl)
  At-lock_call locked p s serving rs (same, held) = cc
  At-lock_call idle p s serving rs (same, held) = cc
  At-lock_call told p s serving rs (h, same, acts, held) = cc
  At-lock_call (failed e) p s serving rs at_ = at_
  At-lock_call (over r) p s serving rs at_ = at_

  -- A call with the lock is one more that was served.
  pub At-handled :
      (st : Stage) (p : Proxy) (s : History) (serving : Bool) (request : Request)
      (rs : List Request)
      → At st by_call p s serving rs
      → (serving ≡ false → ⊥)
      → (let t = handle m from_slice show p request s in
          (rs' : List Request) × At st free t.proxy t.history
            (not (panics t.result) && serving)
            rs')
  At-handled before p s serving request rs (leads, unheld) busy = (
    rs ++ request ∷ [],
    (Leads-handled m from_slice show self.proxy start rs request p s serving leads busy, refl),
  )
  At-handled locked p s serving request rs (same, held) busy = cc
  At-handled idle p s serving request rs (same, held) busy = cc
  At-handled told p s serving request rs (h, same, acts, held) busy = cc
  At-handled (failed e) p s serving request rs (later, result, leads, unheld) busy =
      let t = proxy_stop rs in
      (
        rs,
        (
          later ++ request ∷ [],
          result,
          Leads-handled m from_slice show t.proxy t.history later request p s serving leads busy,
          refl,
        ),
      )
  At-handled (over r) p s serving request rs (same, ended) busy = elim (busy ended) [ ]

  pub told-At :
      (st : Stage) (lock : Lock) (p : Proxy) (s : History) (serving : Bool) (rs : List Request)
      → is_told st ≡ true
      → At st lock p s serving rs
      → At st lock p s false rs
  told-At before lock p s serving rs told_ at_ = cc
  told-At locked lock p s serving rs told_ at_ = cc
  told-At idle lock p s serving rs told_ at_ = cc
  told-At told lock p s serving rs told_ at_ = at_
  told-At (failed e) lock p s serving rs told_ (later, result, (same, alive), not_stop) =
      (later, result, (same, λ e. cc), not_stop)
  told-At (over r) lock p s serving rs told_ (same, ended_) = (same, refl)
