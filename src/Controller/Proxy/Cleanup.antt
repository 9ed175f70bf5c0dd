-- ===== src/Controller/Proxy/Cleanup.antt =====
-- What the proxy cleans up: on a stop, and on a start that fails.
use chaos_tproxy.Prelude.{
  ◌≡◌, refl, ◌∙◌, ap, arith, [], ◌∷◌, ◌++◌, Option, none, some, ℕ, String, Bool, true, false,
  Bool-cases, inl, inr, subst,
}
use chaos_tproxy.Outcome.{Error, Result, ok, err, panicked, is_panic}
use chaos_tproxy.RawConfig.{RawConfig}
use chaos_tproxy.Controller.Shell.{
  stop_proxy, await_proxy, History, Machine, proceed, give, act, recovered,
}
use chaos_tproxy.Controller.Shell.Laws.{acts_of}
use chaos_tproxy.Controller.Commands.{NetEnv}
use chaos_tproxy.Controller.Setup.{clear_commands}
use chaos_tproxy.Controller.Bridge.{clear_bridge}
use chaos_tproxy.Controller.Bridge.Laws.{clear_bridge-runs}
use chaos_tproxy.Controller.Proxy.{
  Proxy, Stepped, new_proxy, exec, stop_task, stopped, stop, renew, renewed, failed_with, finish,
  start_again, unless_failed, reload_stopped, reload,
}
use chaos_tproxy.Controller.Proxy.Pairing.{
  is_ok, IsPaired, IsWhole, IsPaired-taken, stopped-IsWhole,
}

-- The history goes on from `s` with the commands that clear the environment, and maybe more.
abbrev pub Clears : NetEnv → History → History → Type 0
Clears env s s' = (rest : History) × (s' ≡ (s ++ acts_of (clear_commands env)) ++ rest)

-- A reload has failed at `s`: by a panic, which nothing follows, or by an error, which is cleaned up.
abbrev pub Fails : Bool → NetEnv → History → Stepped → Type 0
Fails true env s t = (t.result ≡ err panicked) × (t.history ≡ s)
Fails false env s t = (is_ok t.result ≡ false) × Clears env s t.history

panic_of : (e : Error) → is_panic e ≡ true → e ≡ panicked
panic_of e panics = ground arith

module _ (m : Machine) where
  failed_with-Clears :
      (env : NetEnv) (e : Error) (p : Proxy) (s : History) (x : Result (Unit {0}) × History)
      → Clears env s x.1
      → (is_ok (failed_with e p x).result ≡ false) × Clears env s (failed_with e p x).history
  failed_with-Clears env e p s (ok u, s') clears = (refl, clears)
  failed_with-Clears env e p s (err e', s') clears = (refl, clears)

  finish-Ends :
      (e : Error) (p : Proxy) (s : History) → Fails (is_panic e) p.net_env s (finish m p (err e, s))
  unfolding finish
  finish-Ends e p s = elim (Bool-cases (is_panic e)) [
    | inl panics ↦ rw panics (ap err (panic_of e panics), refl)
    | inr fails ↦ rw fails (
        failed_with-Clears p.net_env e p s (clear_bridge m p.net_env s)
          (clear_bridge-runs m p.net_env s))
  ]

  -- The stop of a proxy with no task does nothing.
  stop-idle :
      (p : Proxy) (s : History)
      → p.task ≡ none
      → stop m p s ≡ record { result = ok tt; proxy = p; history = s }
  unfolding stop stop_task stopped
  stop-idle p s idle =
      let from : Option ℕ → Stepped = λ task. record {
        result = (stop_task m task p s).0;
        proxy = stopped task p;
        history = (stop_task m task p s).1;
      } in
      ap from idle

  renewed-new :
      (p new : Proxy) (s s₁ : History)
      → p.task ≡ none
      → new_proxy m p.opt.verbose s ≡ (ok new, s₁)
      → renewed m p.task p s ≡ (ok (renew p new), s₁)
  unfolding renewed
  renewed-new p new s s₁ idle made =
      ap (λ task. renewed m task p s) idle ∙ ap (λ x. proceed x (λ made. give (renew p made))) made

  stop-leaves_none : (p : Proxy) (s : History) → IsWhole p → (stop m p s).proxy.task ≡ none
  unfolding stop
  stop-leaves_none p s whole = (stopped-IsWhole p p.task refl whole).1

  failed_start :
      (config : RawConfig) (t : Stepped) (new : Proxy) (ports : String) (s₁ s₂ : History)
      (e : Error)
      → t.result ≡ ok tt
      → t.proxy.task ≡ none
      → config.proxy_ports ≡ some ports
      → new_proxy m t.proxy.opt.verbose t.history ≡ (ok new, s₁)
      → exec m (renew t.proxy new) config s₁ ≡ (err e, s₂)
      → unless_failed t.result t (reload_stopped m config.proxy_ports config t)
        ≡ finish m (renew t.proxy new) (err e, s₂)
  unfolding reload_stopped start_again
  failed_start config t new ports s₁ s₂ e stops idle ported made failed =
      ap (λ r. unless_failed r t (reload_stopped m config.proxy_ports config t)) stops
      ∙ (ap (λ ports. reload_stopped m ports config t) ported
          ∙ (ap (start_again m config t.proxy) (renewed-new t.proxy new t.history s₁ idle made)
              ∙ ap (finish m (renew t.proxy new)) failed))

  -- If a reload of a whole proxy for told ports stops it and gets as far as a new environment, and
  -- the start in it then fails with an error, at whatever act, the reload fails and goes on with all
  -- the commands that clear that new environment. If the start panics instead, the reload ends with
  -- the panic right there, and clears nothing.
  pub reload-Clears :
      (config : RawConfig) (p new : Proxy) (ports : String) (s s₁ s₂ : History) (e : Error)
      → IsWhole p
      → (stop m p s).result ≡ ok tt
      → config.proxy_ports ≡ some ports
      → new_proxy m (stop m p s).proxy.opt.verbose (stop m p s).history ≡ (ok new, s₁)
      → exec m (renew (stop m p s).proxy new) config s₁ ≡ (err e, s₂)
      → Fails (is_panic e) new.net_env s₂ (reload m config p s)
  unfolding reload
  reload-Clears config p new ports s s₁ s₂ e whole stops ported made failed =
      rw
        (failed_start config (stop m p s) new ports s₁ s₂ e stops (stop-leaves_none p s whole)
          ported made failed)
        (finish-Ends e (renew (stop m p s).proxy new) s₂)

  waited :
      (x : Result (Unit {0}) × History)
      → (proceed (recovered x tt) (λ u. act await_proxy m.await_task)).1 ≡ x.1 ++ await_proxy ∷ []
  waited (ok u, s) = refl
  waited (err e, s) = refl

  stop_task-acts :
      (c : ℕ) (p : Proxy) (s : History)
      → p.sender ≡ some c
      → (stop_task m (some c) p s).1
        ≡ (clear_bridge m p.net_env (s ++ stop_proxy ∷ [])).1 ++ await_proxy ∷ []
  unfolding stop_task
  stop_task-acts c p s reaches =
      rw reaches (waited (clear_bridge m p.net_env (s ++ stop_proxy ∷ [])))

  -- The stop of a whole proxy with a task tells the task first, then runs all the commands that
  -- clear the environment, and waits for the task at the end; a second stop does nothing.
  pub stop-Clears :
      (p : Proxy) (c : ℕ) (s : History)
      → IsWhole p
      → p.task ≡ some c
      → ((told : History) × Clears p.net_env (s ++ stop_proxy ∷ []) told
          × ((stop m p s).history ≡ told ++ await_proxy ∷ []))
        × ((t : History)
            → stop m (stop m p s).proxy t
              ≡ record { result = ok tt; proxy = (stop m p s).proxy; history = t })
  unfolding stop
  stop-Clears p c s whole running =
      let (sender, rx) =
        IsPaired-taken p.sender p.rx c (subst (IsPaired p.sender p.rx) running whole) in
      let (whole', idle) = stopped-IsWhole p p.task refl whole in
      let told = (clear_bridge m p.net_env (s ++ stop_proxy ∷ [])).1 in
      (
        (
          told,
          clear_bridge-runs m p.net_env (s ++ stop_proxy ∷ []),
          ap (λ task. (stop_task m task p s).1) running ∙ stop_task-acts c p s sender,
        ),
        λ t. stop-idle (stopped p.task p) t idle,
      )
