-- ===== src/Controller/ConfigServer/Laws.antt =====
-- What the requests to the server leave of the proxy.
use chaos_tproxy.Prelude.{
  ◌≡◌, refl, ◌∙◌, sym, ap, ℕ, Bool, true, false, ◌&&◌, Bool-cases, inl, inr, List, [], ◌∷◌, none,
  String, str_eq,
}
use chaos_tproxy.Outcome.{Error, Result, ok, err}
use chaos_tproxy.Outcome.Results.{ok-injective}
use chaos_tproxy.RawConfig.{RawConfig as ProxyRawConfig}
use chaos_tproxy.Controller.Config.{RawConfig}
use chaos_tproxy.Controller.Shell.{History, Machine}
use chaos_tproxy.Controller.Proxy
use chaos_tproxy.Controller.Proxy.{Proxy, Stepped, stopped, stop_task, reload}
use chaos_tproxy.Controller.Proxy.Pairing.{
  is_some, is_ok, IsWhole, IsReloaded, reload-IsReloaded, stopped-IsWhole,
}
use chaos_tproxy.Controller.ConfigServer.{
  Request, Response, Handled, panics, ConfigServer, read_config, after_reload, handle_config,
  handle, serve, stop,
}

-- What an answer tells of the proxy, from the configuration that was read: a request that is not a
-- configuration changes nothing, and else a task runs exactly if the call returned an answer and the
-- configuration has a text of ports, which may be empty.
abbrev pub Tells : Bool → Result ProxyRawConfig → Proxy → Handled → Type 0
Tells false read old t = (t.proxy ≡ old) × (t.result ≡ ok (record { status = 405; body = "" }))
Tells true (err e) old t =
    (t.proxy ≡ old) × (body : String) × (t.result ≡ ok (record { status = 400; body = body }))
Tells true (ok config) old t =
    (is_some t.proxy.task ≡ is_ok t.result && is_some config.proxy_ports)
    × ((answer : Response) → t.result ≡ ok answer → answer.status ≡ 200)

after_reload-Tells :
    (config : ProxyRawConfig) (old : Proxy) (r : Result (Unit {0})) (t : Stepped)
    → t.result ≡ r
    → IsReloaded config.proxy_ports t
    → IsWhole (after_reload r t).proxy × Tells true (ok config) old (after_reload r t)
unfolding after_reload
after_reload-Tells config old (ok u) t e (whole, runs) =
    (whole, (runs ∙ rw e refl, λ answer same. sym (ap (λ a. a.status) (ok-injective same))))
after_reload-Tells config old (err e') t e (whole, runs) =
    (whole, (runs ∙ rw e refl, λ answer same. cc))

module _ (m : Machine) (from_slice : List ℕ → Result RawConfig) (show : Error → String) where
  handle_config-Tells :
      (p : Proxy) (x : Result ProxyRawConfig × History)
      → IsWhole p
      → IsWhole (handle_config m from_slice show p x).proxy
        × Tells true x.0 p (handle_config m from_slice show p x)
  unfolding handle_config
  handle_config-Tells p (err e, s) whole = (whole, (refl, show e, refl))
  handle_config-Tells p (ok config, s) whole =
      let t = reload m config p s in
      after_reload-Tells config p t.result t refl (reload-IsReloaded m config p s whole)

  -- Whatever the request, the proxy stays whole. A request that is no PUT is answered by 405 and one
  -- whose configuration cannot be read by 400, and neither changes the proxy. After any other one a
  -- task runs exactly if the call returned an answer, not an error or a panic, and the told
  -- `proxy_ports` are present, be it as the text of an empty list; and its answer is then 200.
  pub handle-Tells :
      (p : Proxy) (request : Request) (s : History)
      → IsWhole p
      → IsWhole (handle m from_slice show p request s).proxy
        × Tells
            (str_eq request.method "PUT")
            (read_config m from_slice show request s).0
            p
            (handle m from_slice show p request s)
  unfolding handle
  handle-Tells p request s whole = elim (Bool-cases (str_eq request.method "PUT")) [
    | inl put ↦ rw put (handle_config-Tells p (read_config m from_slice show request s) whole)
    | inr other ↦ rw other (whole, (refl, refl))
  ]

  pub serve-IsWhole :
      (requests : List Request) (p : Proxy) (s : History)
      → IsWhole p
      → IsWhole (serve m from_slice show requests p s).proxy
  unfolding serve
  serve-IsWhole [] p s whole = whole
  serve-IsWhole (request ∷ requests) p s whole =
      let t = handle m from_slice show p request s in
      let kept = (handle-Tells p request s whole).0 in
      let rest = serve-IsWhole requests t.proxy t.history kept in
      elim (Bool-cases (panics t.result)) [ inl yes_ ↦ rw yes_ kept | inr no_ ↦ rw no_ rest ]

  -- Whatever requests the server of a whole proxy is sent, in any order, the proxy stays whole, and
  -- when the server is stopped after them no task of the proxy is left.
  pub serve-stops :
      (self : ConfigServer) (requests : List Request) (s : History)
      → IsWhole self.proxy
      → IsWhole (serve m from_slice show requests self.proxy s).proxy
        × ((stop m
              (record self { proxy = (serve m from_slice show requests self.proxy s).proxy })
              (serve m from_slice show requests self.proxy s).history).proxy.task
            ≡ none)
  unfolding stop Proxy.stop
  serve-stops self requests s whole =
      let served = serve m from_slice show requests self.proxy s in
      let kept = serve-IsWhole requests self.proxy s whole in
      (kept, (stopped-IsWhole served.proxy served.proxy.task refl kept).1)
