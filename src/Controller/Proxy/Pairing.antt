-- ===== src/Controller/Proxy/Pairing.antt =====
-- The channel of the proxy: whom the sender of `Proxy` reaches.
use chaos_tproxy.Prelude.{
  ℕ, Bool, true, false, ◌&&◌, ◌≡◌, Bool-cases, inl, inr, [], ◌∷◌, ◌++◌, refl, ◌∙◌, sym, ap, Option,
  none, some, String, subst,
}
use chaos_tproxy.Outcome.{Result, ok, err, is_panic}
use chaos_tproxy.RawConfig.{RawConfig}
use chaos_tproxy.Controller.Shell.{
  bind_socket, spawn_listener, History, Machine, Sh, proceed, ◌>>=◌, ◌>>◌, give, of_result, act,
}
use chaos_tproxy.Controller.Bridge.{set_net, clear_bridge}
use chaos_tproxy.Controller.Proxy.{
  Proxy, Stepped, new_env, new_proxy, launch, exec, stop_task, stopped, stop, renew, renewed,
  failed_with, finish, start_again, unless_failed, reload_stopped, reload,
}

abbrev pub is_some {ℓ} : {A : Type ℓ} → Option A → Bool
is_some none = false
is_some (some a) = true

abbrev pub is_ok {ℓ} : {A : Type ℓ} → Result A → Bool
is_ok (err e) = false
is_ok (ok a) = true

-- What the sender, the receiver and the task may be: a new channel with both its ends here, a task
-- that waits on the channel of the sender, or nothing at all.
abbrev pub IsPaired : Option ℕ → Option ℕ → Option ℕ → Type 0
IsPaired none none none = Unit {0}
IsPaired (some a) (some b) none = a ≡ b
IsPaired (some a) none (some c) = a ≡ c
IsPaired none (some b) task = ⊥
IsPaired none none (some c) = ⊥
IsPaired (some a) none none = ⊥
IsPaired (some a) (some b) (some c) = ⊥

abbrev pub IsWhole : Proxy → Type 0
IsWhole p = IsPaired p.sender p.rx p.task

-- What a run gives, if it gives a value, has the property.
abbrev pub Gives : {A : Type 0} → (A → Type 0) → Result A × History → Type 0
Gives P (err e, s) = Unit {0}
Gives P (ok a, s) = P a

Gives-proceed :
    {A B : Type 0} (P : B → Type 0) (x : Result A × History) (k : A → Sh B)
    → ((a : A) (t : History) → Gives P (k a t))
    → Gives P (proceed x k)
Gives-proceed P (err e, s) k always = tt
Gives-proceed P (ok a, s) k always = always a s

-- A proxy whose parts are those of a new channel.
abbrev pub IsFresh : Proxy → Type 0
IsFresh p = (c : ℕ) × (p.sender ≡ some c) × (p.rx ≡ some c) × (p.task ≡ none)

-- A task runs, and the sender reaches it.
abbrev IsRunning : Proxy → Type 0
IsRunning p = (c : ℕ) × (p.sender ≡ some c) × (p.rx ≡ none) × (p.task ≡ some c)

pub IsFresh-IsWhole : (p : Proxy) → IsFresh p → IsWhole p
IsFresh-IsWhole p (c, sender, rx, task) = rw (sender, rx, task) refl

IsRunning-IsWhole : (p : Proxy) → IsRunning p → IsWhole p
IsRunning-IsWhole p (c, sender, rx, task) = rw (sender, rx, task) refl

-- A receiver that a task has taken is not here.
pub IsPaired-taken :
    (sender rx : Option ℕ) (c : ℕ) → IsPaired sender rx (some c) → (sender ≡ some c) × (rx ≡ none)
IsPaired-taken (some a) none c same = (ap some same, refl)
IsPaired-taken none none c impossible = elim impossible [ ]
IsPaired-taken none (some b) c impossible = elim impossible [ ]
IsPaired-taken (some a) (some b) c impossible = elim impossible [ ]

-- What `stop` leaves has no task, and is whole if it was.
pub stopped-IsWhole :
    (p : Proxy) (task : Option ℕ)
    → p.task ≡ task
    → IsPaired p.sender p.rx task
    → IsWhole (stopped task p) × ((stopped task p).task ≡ none)
unfolding stopped
stopped-IsWhole p none e whole = (rw e whole, e)
stopped-IsWhole p (some c) e whole =
    let (sender, rx) = IsPaired-taken p.sender p.rx c whole in (rw rx tt, refl)

pub stop-IsWhole : (m : Machine) (p : Proxy) (s : History) → IsWhole p → IsWhole (stop m p s).proxy
unfolding stop
stop-IsWhole m p s whole = (stopped-IsWhole p p.task refl whole).0

and_true : (b : Bool) → b && true ≡ b
and_true true = refl
and_true false = refl

-- What is known of a reload: the proxy is whole, and a task runs exactly if the reload succeeded
-- and the configuration has a text of ports.
abbrev pub IsReloaded : Option String → Stepped → Type 0
IsReloaded ports t = IsWhole t.proxy × (is_some t.proxy.task ≡ is_ok t.result && is_some ports)

module _ (m : Machine) where
  pub new_proxy-IsFresh : (verbose : ℕ) (s : History) → Gives IsFresh (new_proxy m verbose s)
  unfolding new_proxy
  new_proxy-IsFresh verbose s =
      Gives-proceed IsFresh (new_env m s) _ (λ env t. (m.channel s, refl, refl, refl))

  launch-IsRunning :
      (p : Proxy) (exe_path : String) (s : History)
      → IsFresh p
      → Gives IsRunning (launch m p exe_path s)
  launch-IsRunning p exe_path s (c, sender, rx, task) = rw rx (c, sender, refl, refl)

  exec-IsRunning :
      (p : Proxy) (config : RawConfig) (s : History)
      → IsFresh p
      → Gives IsRunning (exec m p config s)
  unfolding exec
  exec-IsRunning p config s fresh =
      let connect : Sh (Unit {0}) =
        set_net m p.net_env config.proxy_ports config.listen_port config.safe_mode in
      let network : String → Sh Proxy = λ exe_path. connect >> launch m p exe_path in
      let find_exe : Sh Proxy = of_result m.current_exe >>= network in
      let listen : Sh Proxy = act (spawn_listener p.opt.ipc_path) (λ x. ok tt) >> find_exe in
      let bound = act (bind_socket p.opt.ipc_path) (λ x. m.bind x p.opt.ipc_path) s in
      Gives-proceed IsRunning bound (λ u. listen)
        (λ u t₀.
          let t₁ = t₀ ++ spawn_listener p.opt.ipc_path ∷ [] in
          Gives-proceed IsRunning (of_result m.current_exe t₁) network (λ exe_path t₂.
            Gives-proceed IsRunning (connect t₂) (λ u. launch m p exe_path)
              (λ u t₃. launch-IsRunning p exe_path t₃ fresh)))

  -- The result, the proxy and whether a task runs, of code that is to leave a task if it succeeds.
  abbrev Leaves : Stepped → Type 0
  Leaves t = IsWhole t.proxy × (is_some t.proxy.task ≡ is_ok t.result)

  finish-Leaves :
      (p : Proxy) (x : Result Proxy × History)
      → IsFresh p
      → Gives IsRunning x
      → Leaves (finish m p x)
  unfolding finish
  finish-Leaves p (ok p', s) fresh running =
      let (c, sender, rx, task) = running in (IsRunning-IsWhole p' running, rw task refl)
  finish-Leaves p (err e, s) fresh running = elim (Bool-cases (is_panic e)) [
    | inl panics ↦ rw panics (kept (err e) refl)
    | inr fails ↦ rw fails (cleaned (clear_bridge m p.net_env s))
  ]
    where
      kept :
          (r : Result (Unit {0}))
          → is_ok r ≡ false
          → Leaves (record { result = r; proxy = p; history = s })
      kept r failed =
          let (c, sender, rx, task) = fresh in (IsFresh-IsWhole p fresh, rw (task, failed) refl)

      cleaned : (x : Result (Unit {0}) × History) → Leaves (failed_with e p x)
      cleaned (ok u, s) =
          let (c, sender, rx, task) = fresh in (IsFresh-IsWhole p fresh, rw task refl)
      cleaned (err e', s) =
          let (c, sender, rx, task) = fresh in (IsFresh-IsWhole p fresh, rw task refl)

  start_again-Leaves :
      (config : RawConfig) (old : Proxy) (x : Result Proxy × History)
      → IsWhole old
      → old.task ≡ none
      → Gives IsFresh x
      → Leaves (start_again m config old x)
  unfolding start_again
  start_again-Leaves config old (err e, s) whole idle fresh = (whole, rw idle refl)
  start_again-Leaves config old (ok p, s) whole idle fresh =
      finish-Leaves p (exec m p config s) fresh (exec-IsRunning p config s fresh)

  renewed-IsFresh : (p : Proxy) (s : History) → p.task ≡ none → Gives IsFresh (renewed m p.task p s)
  unfolding renewed
  renewed-IsFresh p s idle =
      subst (λ task. Gives IsFresh (renewed m task p s)) (sym idle)
        (by_new (new_proxy m p.opt.verbose s) (new_proxy-IsFresh p.opt.verbose s))
    where
      by_new :
          (x : Result Proxy × History)
          → Gives IsFresh x
          → Gives IsFresh (proceed x (λ new. give (renew p new)))
      by_new (err e, s) fresh = tt
      by_new (ok new, s) (c, sender, rx, task) = (c, sender, rx, idle)

  restarted-IsReloaded :
      (ports : Option String) (config : RawConfig) (r : Result (Unit {0})) (p : Proxy) (s : History)
      → IsWhole p
      → p.task ≡ none
      → IsReloaded ports (
          unless_failed r
            (record { result = r; proxy = p; history = s })
            (reload_stopped m ports config (record { result = r; proxy = p; history = s })))
  unfolding reload_stopped
  restarted-IsReloaded ports config (err e) p s whole idle = (whole, rw idle refl)
  restarted-IsReloaded none config (ok u) p s whole idle = (whole, rw idle refl)
  restarted-IsReloaded (some ports) config (ok u) p s whole idle =
      let (whole', same) =
        start_again-Leaves config p (renewed m p.task p s) whole idle (renewed-IsFresh p s idle) in
      (whole', same ∙ sym (and_true _))

  -- Whatever the machine answers, a reload keeps the proxy whole: a running task waits on the
  -- channel of the sender, and with no task either both ends of one channel are there or neither.
  -- After it a task runs exactly if the reload returned, with no error and no panic, and the told
  -- `proxy_ports` are present. The text of an empty list of ports is present too.
  pub reload-IsReloaded :
      (config : RawConfig) (p : Proxy) (s : History)
      → IsWhole p
      → IsReloaded config.proxy_ports (reload m config p s)
  unfolding reload stop
  reload-IsReloaded config p s whole =
      let (whole', idle) = stopped-IsWhole p p.task refl whole in
      let end = stop_task m p.task p s in
      restarted-IsReloaded config.proxy_ports config end.0 (stopped p.task p) end.1 whole' idle
