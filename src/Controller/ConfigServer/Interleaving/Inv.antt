-- ===== src/Controller/ConfigServer/Interleaving/Inv.antt =====
-- What is known in every state that the steps reach: the calls so far account for it.
use chaos_tproxy.Prelude.{
  ℕ, ◌≡◌, refl, sym, ap, subst, ◌∙◌, false, List, [], Option, none, some, String, false≢true,
}
use chaos_tproxy.Outcome.{Error, Result, ok, err}
use chaos_tproxy.Controller.Config.{RawConfig}
use chaos_tproxy.Controller.Shell.{History, Machine, proceed}
use chaos_tproxy.Controller.Proxy
use chaos_tproxy.Controller.Proxy.{Proxy, Stepped}
use chaos_tproxy.Controller.ConfigServer.{Request, ConfigServer, serve, stop, tell, wait_for}
use chaos_tproxy.Controller.ConfigServer.Interleaving.{
  by_call, by_stop, Stage, before, locked, idle, told, System, start_of, handled, after_stop,
  joined, Step, Reaches, arrive, receive, end_body, drop, lock_call, answer_call, lock_stop,
  stop_proxy, send, end_serving, join, here, after,
}
use chaos_tproxy.Controller.ConfigServer.Interleaving.Accounts.{
  stepped, At, proxy_stop, stop_after, At-lock_call, At-handled, told-At,
}

module _ (m : Machine) (from_slice : List ℕ → Result RawConfig) (show : Error → String)
    (self : ConfigServer) (start : History) where
  pub record Inv (x : System) : Type 0 where
    pub quiet : x.serving ≡ false → x.asked ≡ none
    pub calls : List Request
    pub accounted : At m from_slice show self start x.stage x.lock x.proxy x.history x.serving calls

  after_stop-Inv :
      (x : System) (r : Result (Unit {0})) (t : Stepped) (rs : List Request)
      → (x.serving ≡ false → x.asked ≡ none)
      → proxy_stop m from_slice show self start rs ≡ t
      → t.result ≡ r
      → x.lock ≡ by_stop
      → Inv (after_stop m from_slice show r (record x { proxy = t.proxy; history = t.history }))
  unfolding serve
  after_stop-Inv x (ok u) t rs quiet same e held = record {
    quiet = quiet;
    calls = rs;
    accounted = (same ∙ ap (λ v. stepped v t.proxy t.history) e, held);
  }
  after_stop-Inv x (err e') t rs quiet same e held = record {
    quiet = quiet;
    calls = rs;
    accounted = (
      [],
      ap (λ v. v.result) same ∙ e,
      (ap (λ v. (v.proxy, v.history)) same, λ alive. refl),
      refl,
    );
  }

  tell_then :
      {B : Type 0} (sender : Option ℕ) (s : History) (k : Unit {0} → History → Result B × History)
      → proceed (tell m sender s) k ≡ k tt (tell m sender s).1
  tell_then none s k = refl
  tell_then (some c) s k = refl

  -- What the stop of the server makes of the stop of its proxy.
  abbrev pub ended : Stepped → Stepped
  ended t =
      let end =
        proceed (t.result, t.history)
          (λ u s. proceed (tell m self.sender s) (λ v. wait_for m self.task)) in
      stepped end.0 t.proxy end.1

  pub stop_after-ended :
      (rs : List Request)
      → stop_after m from_slice show self start rs
        ≡ ended (proxy_stop m from_slice show self start rs)
  unfolding stop
  stop_after-ended rs = refl

  ended-joined :
      (p : Proxy) (h : History)
      → ended (stepped (ok tt) p h)
        ≡ (let end = wait_for m self.task (tell m self.sender h).1 in stepped end.0 p end.1)
  ended-joined p h =
      ap (λ end. stepped end.0 p end.1) (tell_then self.sender h (λ v. wait_for m self.task))

  -- What is known at a stage, from what is known at the stage of `x`.
  pub known_there :
      (x : System) (inv : Inv x) (st : Stage)
      → x.stage ≡ st
      → At m from_slice show self start st x.lock x.proxy x.history x.serving inv.calls
  known_there x inv st e =
      subst (λ v. At m from_slice show self start v x.lock x.proxy x.history x.serving inv.calls) e
        inv.accounted

  handled-Inv :
      (x : System) (request : Request)
      → Inv x
      → x.asked ≡ some request
      → x.lock ≡ by_call
      → Inv (handled m from_slice show x request)
  handled-Inv x request inv asked locked_ =
      let busy : x.serving ≡ false → ⊥ = λ e. cc (inv.quiet e, asked) in
      let at_ =
        subst (λ l. At m from_slice show self start x.stage l x.proxy x.history x.serving inv.calls)
          locked_ inv.accounted in
      let (rs, at') =
        At-handled m from_slice show self start x.stage x.proxy x.history x.serving request
          inv.calls at_ busy in
      record { quiet = λ e. refl; calls = rs; accounted = at' }

  joined-Inv :
      (x : System)
      → Inv x
      → x.stage ≡ told
      → x.serving ≡ false
      → Inv (joined m from_slice show self x)
  joined-Inv x inv stage over_ =
      let (h, same, acts, held) = known_there x inv told stage in
      let finish = ended-joined x.proxy h in
      record {
        quiet = inv.quiet;
        calls = inv.calls;
        accounted = (
          stop_after-ended inv.calls
              ∙ ap ended same
              ∙ subst
                  (λ s.
                    ended (stepped (ok tt) x.proxy h)
                    ≡ (let end = wait_for m self.task s in stepped end.0 x.proxy end.1))
                  (sym acts) finish,
          over_,
        );
      }

  pub Step-Inv : {x y : System} → Step m from_slice show self x y → Inv x → Inv y
  Step-Inv (arrive x method serves free_) inv = record {
    quiet = λ e. absurd (false≢true (sym e ∙ serves));
    calls = inv.calls;
    accounted = inv.accounted;
  }
  Step-Inv (receive x request segment asked unended) inv = record {
    quiet = λ e. cc (inv.quiet e, asked);
    calls = inv.calls;
    accounted = inv.accounted;
  }
  Step-Inv (end_body x) inv = record {
    quiet = inv.quiet;
    calls = inv.calls;
    accounted = inv.accounted;
  }
  Step-Inv (drop x not_held) inv = record {
    quiet = λ e. refl;
    calls = inv.calls;
    accounted = inv.accounted;
  }
  Step-Inv (lock_call x request asked unheld) inv =
      let at_ =
        subst (λ l. At m from_slice show self start x.stage l x.proxy x.history x.serving inv.calls)
          unheld inv.accounted in
      record {
        quiet = inv.quiet;
        calls = inv.calls;
        accounted =
            At-lock_call m from_slice show self start x.stage x.proxy x.history x.serving inv.calls
              at_;
      }
  Step-Inv (answer_call x request asked held read) inv = handled-Inv x request inv asked held
  Step-Inv (lock_stop x stage unheld) inv =
      let (same, not_stop) = known_there x inv before stage in
      record { quiet = inv.quiet; calls = inv.calls; accounted = (same.0, refl) }
  Step-Inv (stop_proxy x stage) inv =
      let (same, held) = known_there x inv locked stage in
      after_stop-Inv x (Proxy.stop m x.proxy x.history).result (Proxy.stop m x.proxy x.history)
        inv.calls inv.quiet (ap (λ y. Proxy.stop m y.0 y.1) same) refl held
  Step-Inv (send x stage) inv =
      let (same, held) = known_there x inv idle stage in
      record { quiet = inv.quiet; calls = inv.calls; accounted = (x.history, same, refl, held) }
  Step-Inv (end_serving x told_ not_held) inv = record {
    quiet = λ e. refl;
    calls = inv.calls;
    accounted =
        told-At m from_slice show self start x.stage x.lock x.proxy x.history x.serving inv.calls
          told_ inv.accounted;
  }
  Step-Inv (join x stage ended_) inv = joined-Inv x inv stage ended_

  pub start-Inv : Inv (start_of self start)
  unfolding serve
  start-Inv = record { quiet = λ e. refl; calls = []; accounted = ((refl, λ alive. refl), refl) }

  pub Reaches-Inv : {x y : System} → Reaches m from_slice show self x y → Inv x → Inv y
  Reaches-Inv (here x) inv = inv
  Reaches-Inv (after x y z reached step) inv = Step-Inv step (Reaches-Inv reached inv)
