-- ===== src/Controller/ConfigServer/Interleaving/Laws.antt =====
-- What the stop leaves in every interleaving with the serving task, from the calls one after another
-- and the stop among them.
use chaos_tproxy.Prelude.{ℕ, ◌≡◌, refl, sym, ap, subst, ◌∙◌, Bool, true, false, List, none, String}
use chaos_tproxy.Outcome.{Error, Result, err}
use chaos_tproxy.Controller.Config.{RawConfig}
use chaos_tproxy.Controller.Shell.{History, Machine}
use chaos_tproxy.Controller.Proxy.{Stepped}
use chaos_tproxy.Controller.Proxy.Pairing.{IsWhole, stop-IsWhole}
use chaos_tproxy.Controller.ConfigServer.{Request, ConfigServer, serve}
use chaos_tproxy.Controller.ConfigServer.Laws.{serve-stops, serve-IsWhole}
use chaos_tproxy.Controller.ConfigServer.Interleaving.{
  Stage, before, locked, idle, told, failed, over, System, start_of, Reaches,
}
use chaos_tproxy.Controller.ConfigServer.Interleaving.Accounts.{
  stepped, left_by, served, proxy_stop, stop_after,
}
use chaos_tproxy.Controller.ConfigServer.Interleaving.Inv.{
  Inv, ended, stop_after-ended, known_there, start-Inv, Reaches-Inv,
}

-- The stop has returned.
abbrev pub is_back : Stage → Bool
is_back (failed e) = true
is_back (over r) = true
is_back before = false
is_back locked = false
is_back idle = false
is_back told = false

module _ (m : Machine) (from_slice : List ℕ → Result RawConfig) (show : Error → String)
    (self : ConfigServer) (start : History) where
  -- What is left when the stop has returned. After an error of the proxy's stop the lock is free,
  -- and later calls may have come until the serving task saw that the server is gone.
  abbrev pub Left : Stage → System → Type 0
  Left before x = ⊥
  Left locked x = ⊥
  Left idle x = ⊥
  Left told x = ⊥
  Left (failed e) x =
      (requests : List Request) × (later : List Request) × ((stop_after m from_slice show self start
          requests).result
        ≡ err e)
      × (let t = stop_after m from_slice show self start requests in
          left_by (serve m from_slice show later t.proxy t.history) ≡ (x.proxy, x.history))
      × IsWhole x.proxy
  Left (over r) x =
      (requests : List Request) × (stop_after m from_slice show self start requests
        ≡ stepped r x.proxy x.history)
      × (x.proxy.task ≡ none)
      × (x.serving ≡ false)

  ended-failed :
      (t : Stepped) (e : Error)
      → t.result ≡ err e
      → ended m from_slice show self start t ≡ stepped (err e) t.proxy t.history
  ended-failed t e failed_ = rw failed_ refl

  failed-Left :
      (x : System) (e : Error) (requests later : List Request)
      → IsWhole self.proxy
      → (proxy_stop m from_slice show self start requests).result ≡ err e
      → (let t = proxy_stop m from_slice show self start requests in
          left_by (serve m from_slice show later t.proxy t.history) ≡ (x.proxy, x.history))
      → Left (failed e) x
  failed-Left x e requests later whole result same =
      let t = proxy_stop m from_slice show self start requests in
      let ends = stop_after-ended m from_slice show self start requests ∙ ended-failed t e result in
      let kept = (serve-stops m from_slice show self requests start whole).0 in
      (
        requests,
        later,
        ap (λ v. v.result) ends,
        subst
            (λ v. left_by (serve m from_slice show later v.proxy v.history) ≡ (x.proxy, x.history))
            (sym ends) same,
        subst IsWhole (ap (λ y. y.0) same) (
            serve-IsWhole m from_slice show later t.proxy t.history (
              stop-IsWhole m (served m from_slice show self start requests).0
                (served m from_slice show self start requests).1 kept)),
      )

  stage-Left :
      (st : Stage) (x : System)
      → x.stage ≡ st
      → is_back st ≡ true
      → IsWhole self.proxy
      → Inv m from_slice show self start x
      → Left st x
  stage-Left (failed e) x stage back whole inv =
      let (later, result, (same, alive), unheld) =
        known_there m from_slice show self start x inv (failed e) stage in
      failed-Left x e inv.calls later whole result same
  stage-Left (over r) x stage back whole inv =
      let (same, ended_) = known_there m from_slice show self start x inv (over r) stage in
      let left = (serve-stops m from_slice show self inv.calls start whole).1 in
      (inv.calls, same, sym (ap (λ t. t.proxy.task) same) ∙ left, ended_)
  stage-Left before x stage back whole inv = cc
  stage-Left locked x stage back whole inv = cc
  stage-Left idle x stage back whole inv = cc
  stage-Left told x stage back whole inv = cc

  pub Reaches-stop_after :
      (x : System)
      → IsWhole self.proxy
      → Reaches m from_slice show self (start_of self start) x
      → is_back x.stage ≡ true
      → Left x.stage x
  Reaches-stop_after x whole reached back =
      stage-Left x.stage x refl back whole
        (Reaches-Inv m from_slice show self start reached (start-Inv m from_slice show self start))
