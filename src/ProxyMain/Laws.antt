-- ===== src/ProxyMain/Laws.antt =====
-- The proxy process as a whole: what is read is what its connections get.
use chaos_tproxy.Prelude.{
  ℕ, ◌≡◌, refl, ◌∙◌, ap, List, [], ◌∷◌, ◌++◌, Option, String, All, if◌then◌else◌,
}
use chaos_tproxy.Outcome.{Error, Result, ok, err, panicked}
use chaos_tproxy.Outcome.Effects.{OnOk, OnErr}
use chaos_tproxy.External.{Http}
use chaos_tproxy.RawConfig.{RawConfig}
use chaos_tproxy.RawConfig.Tls.{Tls, Config, to_config}
use chaos_tproxy.RawConfig.Tls.Laws.{FitsRaw, to_config-FitsRaw}
use chaos_tproxy.Tcp.{NetAct, Kernel, is_connection_error}
use chaos_tproxy.Server.{Arrival, incoming, failure, signalled, Task, HttpServer, serve}
use chaos_tproxy.Server.Spawned.{arrived, ending, spawned}
use chaos_tproxy.Server.Laws.{Fails, serve-Ends}
use chaos_tproxy.Server.Tasks.{SpawnsFor, serve-SpawnsFor}
use chaos_tproxy.Uds.{Uds, read_into}
use chaos_tproxy.ProxyMain.{
  SignalKind, from_kinds, new_server_for, joined_with, run_until, proxy_main,
}

-- The signal behind all that arrives adds no connection.
arrived-signalled :
    (arrivals : List Arrival) → arrived (arrivals ++ signalled ∷ []) ≡ arrived arrivals
arrived-signalled [] = refl
arrived-signalled (signalled ∷ arrivals) = refl
arrived-signalled (failure e ∷ arrivals) =
    ap (λ x. if is_connection_error e.kind then x else []) (arrived-signalled arrivals)
arrived-signalled (incoming stream ∷ arrivals) = ap (◌∷◌ stream) (arrived-signalled arrivals)

module _ (h : Http) (t : Tls) (k : Kernel (Task h t)) (io : Uds RawConfig) where
  -- What the process has done when it ends.
  abbrev pub ServesFor :
      Config h t → List Arrival → Result (Unit {0}) × List (NetAct (Task h t)) → Type 0
  ServesFor config arrivals x =
      OnOk (λ u s. spawned h t s ≡ arrived arrivals) x
      × OnErr
          (λ e s.
            (e ≡ panicked)
            × (e' : Error) × Fails h t k (new_server_for h t k io config)
                (arrivals ++ signalled ∷ []) [] e' s)
          x
      × All (SpawnsFor h t k (new_server_for h t k io config)) x.1

  joined-ServesFor :
      (config : Config h t) (arrivals : List Arrival)
      (x : Result (Option (Unit {0})) × List (NetAct (Task h t)))
      → OnOk
          (λ end s.
            (spawned h t s ≡ arrived (arrivals ++ signalled ∷ []))
            × (end ≡ ending (arrivals ++ signalled ∷ [])))
          x
      → OnErr (Fails h t k (new_server_for h t k io config) (arrivals ++ signalled ∷ []) []) x
      → All (SpawnsFor h t k (new_server_for h t k io config)) x.1
      → ServesFor config arrivals (joined_with h t k io x)
  joined-ServesFor config arrivals (ok end, s) (tasks, e) fails fine =
      (tasks ∙ arrived-signalled arrivals, tt, fine)
  joined-ServesFor config arrivals (err e, s) tasks fails fine = (tt, (refl, e, fails), fine)

  pub proxy_main-Ends :
      (raw : RawConfig) (config : Config h t) (signal : SignalKind → Result ℕ) (path : String)
      (arrivals : List Arrival)
      → ((kind : SignalKind) → (n : ℕ) × (signal kind ≡ ok n))
      → to_config t h raw ≡ ok config
      → read_into io (record { path = path }) [] ≡ ok raw
      → FitsRaw t h raw config
        × ServesFor config arrivals (proxy_main h t k io signal path arrivals [])
  unfolding proxy_main run_until from_kinds
  proxy_main-Ends raw config signal path arrivals signals made sent =
      let (interrupt, e) = signals SignalKind.interrupt in
      let (terminate, e') = signals SignalKind.terminate in
      let server : HttpServer h t = new_server_for h t k io config in
      let all : List Arrival = arrivals ++ signalled ∷ [] in
      let (tasks, fails) = serve-Ends h t k server all [] in
      let ends =
        joined-ServesFor config arrivals (serve h t k server all []) tasks fails
          (serve-SpawnsFor h t k server all [] tt) in
      (to_config-FitsRaw t h raw config made, rw (sent, made, e, e') ends)
