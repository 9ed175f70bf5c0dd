-- ===== src/Controller/Proxy/Launch.antt =====
-- The order of a start: the socket, the network, and the proxy behind them.
use chaos_tproxy.Prelude.{
  ◌≡◌, refl, sym, ap, [], ◌∷◌, ◌++◌, append-nil, Option, none, some, All, String, ℕ, ◌⊎◌, inl, inr,
}
use chaos_tproxy.Outcome.{Error, Result, ok, err}
use chaos_tproxy.Outcome.Results.{unwrap}
use chaos_tproxy.Outcome.Adds.{Adds}
use chaos_tproxy.RawConfig.{RawConfig}
use chaos_tproxy.Controller.Shell.{
  bind_socket, spawn_listener, spawn_proxy, History, Machine, Sh, proceed, ◌>>=◌, ◌>>◌, of_result,
  act, give,
}
use chaos_tproxy.Controller.Bridge.{set_net}
use chaos_tproxy.Controller.Bridge.Undone.{IsSetUp}
use chaos_tproxy.Controller.Bridge.SetNet.{set_net-Adds}
use chaos_tproxy.Controller.Proxy.{Proxy, proxy_command, launch, exec}

module _ (m : Machine) (p : Proxy) where
  abbrev bound : History → History
  bound s = s ++ bind_socket p.opt.ipc_path ∷ []

  abbrev listens : History → History
  listens s = bound s ++ spawn_listener p.opt.ipc_path ∷ []

  -- The socket is bound first, the task that sends the configuration on it is spawned, and the
  -- network is set up next. What succeeds has spawned the proxy of that socket last, with the
  -- receiver as its task, and what fails has spawned none, nor, if the socket was refused, anything.
  abbrev pub Launches : History → Result Proxy × History → Type 0
  Launches s (ok p', s') =
      (network : History) × (exe_path : String) × (s'
        ≡ (listens s ++ network) ++ spawn_proxy (proxy_command p exe_path) ∷ [])
      × All (IsSetUp p.net_env) network
      × (m.current_exe ≡ ok exe_path)
      × (p'.task ≡ p.rx)
      × (p'.rx ≡ none)
  Launches s (err e, s') =
      ((m.bind s p.opt.ipc_path ≡ err e) × (s' ≡ bound s))
      ⊎ ((network : History) × (s' ≡ listens s ++ network) × All (IsSetUp p.net_env) network)

  Launches-early : (s : History) (e : Error) → Launches s (err e, listens s)
  Launches-early s e = inr ([], sym (append-nil (listens s)), tt)

  Launches-network :
      (s : History) (exe_path : String) (x : Result (Unit {0}) × History)
      → m.current_exe ≡ ok exe_path
      → Adds (IsSetUp p.net_env) (listens s) x
      → Launches s (proceed x (λ u. launch m p exe_path))
  Launches-network s exe_path (err e, s') found adds = inr (adds.added, adds.follows, adds.of_kind)
  Launches-network s exe_path (ok u, s') found adds = by_receiver p.rx refl
    where
      by_receiver :
          (rx : Option ℕ)
          → p.rx ≡ rx
          → Launches s (
              proceed
                (unwrap rx, s')
                (λ rx. do
                  act (spawn_proxy (proxy_command p exe_path)) (λ s. ok tt)
                  give (record p { rx = none; task = some rx })))
      by_receiver none e = inr (adds.added, adds.follows, adds.of_kind)
      by_receiver (some rx) e = (
        adds.added,
        exe_path,
        ap (λ h. h ++ spawn_proxy (proxy_command p exe_path) ∷ []) adds.follows,
        adds.of_kind,
        found,
        sym e,
        refl,
      )

  -- The rest of a start behind the socket.
  abbrev go_on : RawConfig → Sh Proxy
  go_on config = do
    exe_path ← of_result m.current_exe
    set_net m p.net_env config.proxy_ports config.listen_port config.safe_mode
    launch m p exe_path

  abbrev spawn_and_go : RawConfig → Sh Proxy
  spawn_and_go config = do act (spawn_listener p.opt.ipc_path) (λ x. ok tt); go_on config

  go_on-Launches : (config : RawConfig) (s : History) → Launches s (go_on config (listens s))
  go_on-Launches config s = by_path m.current_exe refl
    where
      by_path :
          (r : Result String)
          → m.current_exe ≡ r
          → Launches s (
              proceed
                (r, listens s)
                (λ exe_path.
                  set_net m p.net_env config.proxy_ports config.listen_port config.safe_mode
                  >> launch m p exe_path))
      by_path (err e) found = Launches-early s e
      by_path (ok exe_path) found = Launches-network s exe_path _ found (
          set_net-Adds m p.net_env config.proxy_ports config.listen_port config.safe_mode
            (listens s))

  pub exec-Launches :
      (config : RawConfig) (s : History)
      → Launches s (exec m p config s)
        × ((e : Error) → m.bind s p.opt.ipc_path ≡ err e → exec m p config s ≡ (err e, bound s))
  unfolding exec
  exec-Launches config s = (
    by_bind (m.bind s p.opt.ipc_path) refl,
    λ e refused. ap (λ r. proceed (r, bound s) (λ u. spawn_and_go config)) refused,
  )
    where
      by_bind :
          (r : Result (Unit {0}))
          → m.bind s p.opt.ipc_path ≡ r
          → Launches s (proceed (r, bound s) (λ u. spawn_and_go config))
      by_bind (err e) refused = inl (refused, refl)
      by_bind (ok u) bound_ = go_on-Launches config s
