-- ===== src/Controller/CommandLine/Laws.antt =====
-- What the options allow, and what a run of the controller leaves behind.
use chaos_tproxy.Prelude.{
  ℕ, List, ◌≡◌, ◌⊎◌, ◌↔◌, inl, inr, refl, ◌∙◌, Bool, true, false, not, ◌&&◌, if◌then◌else◌, Option,
  none, some, String,
}
use chaos_tproxy.Outcome.{Error, Result, ok, err, config_file_required}
use chaos_tproxy.RawConfig.{RawConfig as ProxyRawConfig}
use chaos_tproxy.Controller.Shell.{History, Machine}
use chaos_tproxy.Controller.Config.{RawConfig}
use chaos_tproxy.Controller.ConfigServer
use chaos_tproxy.Controller.ConfigServer.{
  Request, Served, ConfigServer, new_server, serve_interactive, serve,
}
use chaos_tproxy.Controller.ConfigServer.Laws.{serve-IsWhole}
use chaos_tproxy.Controller.Proxy
use chaos_tproxy.Controller.Proxy.{Proxy, Stepped, stopped, stop_task, new_proxy, reload}
use chaos_tproxy.Controller.Proxy.Pairing.{
  is_some, IsWhole, Gives, IsFresh, IsFresh-IsWhole, new_proxy-IsFresh, IsReloaded,
  reload-IsReloaded, stopped-IsWhole,
}
use chaos_tproxy.Controller.CommandLine.{
  Opt, is_none, checked, Files, get_config_from_opt, after_signal, after_start, with_proxy,
  with_config, run_file, after_serving, with_server, with_new_proxy, run_interactive,
}

-- No task of the proxy is left, and the proxy is whole.
abbrev pub LeavesNone : Option Proxy → Type 0
LeavesNone none = Unit {0}
LeavesNone (some p) = IsWhole p × (p.task ≡ none)

not_some {ℓ} : {A : Type ℓ} (o : Option A) → is_some o ≡ false → o ≡ none
not_some none e = refl
not_some (some a) e = cc

module _ (m : Machine) (files : Files) (wait : History → Result (Unit {0})) where
  after_signal-LeavesNone :
      (p : Proxy) (r : Result (Unit {0})) (s : History)
      → IsWhole p
      → r ≡ ok tt
      → LeavesNone (after_signal m files wait p r s).proxy
  unfolding after_signal Proxy.stop
  after_signal-LeavesNone p (err e) s whole signalled = cc
  after_signal-LeavesNone p (ok u) s whole signalled = stopped-IsWhole p p.task refl whole

  after_start-LeavesNone :
      (ports : Option String) (r : Result (Unit {0})) (t : Stepped)
      → ((s : History) → wait s ≡ ok tt)
      → t.result ≡ r
      → IsReloaded ports t
      → LeavesNone (after_start m files wait r t).proxy
  unfolding after_start
  after_start-LeavesNone ports (err e) t waits same (whole, runs) =
      (whole, not_some t.proxy.task (runs ∙ rw same refl))
  after_start-LeavesNone ports (ok u) t waits same (whole, runs) =
      after_signal-LeavesNone t.proxy (wait t.history) t.history whole (waits t.history)

  with_proxy-LeavesNone :
      (config : ProxyRawConfig) (x : Result Proxy × History)
      → ((s : History) → wait s ≡ ok tt)
      → Gives IsFresh x
      → LeavesNone (with_proxy m files wait config x).proxy
  unfolding with_proxy
  with_proxy-LeavesNone config (err e, s) waits fresh = tt
  with_proxy-LeavesNone config (ok p, s) waits fresh =
      let t = reload m config p s in
      after_start-LeavesNone config.proxy_ports t.result t waits refl
        (reload-IsReloaded m config p s (IsFresh-IsWhole p fresh))

  with_config-LeavesNone :
      (opt : Opt) (x : Result ProxyRawConfig × History)
      → ((s : History) → wait s ≡ ok tt)
      → LeavesNone (with_config m files wait opt x).proxy
  unfolding with_config
  with_config-LeavesNone opt (err e, s) waits = tt
  with_config-LeavesNone opt (ok config, s) waits =
      with_proxy-LeavesNone config (new_proxy m opt.verbose s) waits
        (new_proxy-IsFresh m opt.verbose s)

  -- Where waiting for a signal does not fail, a run with a configuration file leaves no task of its
  -- proxy behind, whether it reads the file, starts the proxy and stops it or fails anywhere.
  pub run_file-LeavesNone :
      (opt : Opt) (s : History)
      → ((s : History) → wait s ≡ ok tt)
      → LeavesNone (run_file m files wait opt s).proxy
  unfolding run_file
  run_file-LeavesNone opt s waits =
      with_config-LeavesNone opt (get_config_from_opt files m opt s) waits

module _ (m : Machine) (from_slice : List ℕ → Result RawConfig) (show : Error → String)
    (wait : History → Result (Unit {0})) where
  after_serving-LeavesNone :
      (self : ConfigServer) (r : Result (Unit {0})) (end : Served)
      → IsWhole end.proxy
      → r ≡ ok tt
      → LeavesNone (after_serving m from_slice show wait self r end).proxy
  unfolding after_serving ConfigServer.stop Proxy.stop
  after_serving-LeavesNone self (err e) end whole signalled = cc
  after_serving-LeavesNone self (ok u) end whole signalled =
      stopped-IsWhole end.proxy end.proxy.task refl whole

  with_new_proxy-LeavesNone :
      (requests : List Request) (x : Result Proxy × History)
      → ((s : History) → wait s ≡ ok tt)
      → Gives IsFresh x
      → LeavesNone (with_new_proxy m from_slice show wait requests x).proxy
  unfolding with_new_proxy with_server serve_interactive new_server
  with_new_proxy-LeavesNone requests (err e, s) waits fresh = tt
  with_new_proxy-LeavesNone requests (ok p, s) waits fresh =
      let end = serve m from_slice show requests p s in
      after_serving-LeavesNone
        (record (new_server (m.channel s) p) { rx = none; task = some (m.channel s) })
        (wait end.history) end
        (serve-IsWhole m from_slice show requests p s (IsFresh-IsWhole p fresh)) (waits end.history)

  pub run_interactive-LeavesNone :
      (opt : Opt) (requests : List Request) (s : History)
      → ((s : History) → wait s ≡ ok tt)
      → LeavesNone (run_interactive m from_slice show wait opt requests s).proxy
  unfolding run_interactive
  run_interactive-LeavesNone opt requests s waits =
      with_new_proxy-LeavesNone requests (new_proxy m opt.verbose s) waits
        (new_proxy-IsFresh m opt.verbose s)

guard_iff :
    (interactive proxy : Bool) (input : Option String) (opt : Opt)
    → ((if not interactive && not proxy && is_none input then err config_file_required else ok opt)
        ≡ ok opt)
      ↔ ((interactive ≡ true) ⊎ (proxy ≡ true) ⊎ (is_some input ≡ true))
guard_iff true proxy input opt = (λ e. inl refl, λ given. refl)
guard_iff false true input opt = (λ e. inr (inl refl), λ given. refl)
guard_iff false false (some path) opt = (λ e. inr (inr refl), λ given. refl)
guard_iff false false none opt =
    (λ e. cc, λ given. elim given [ inl e ↦ cc | inr (inl e) ↦ cc | inr (inr e) ↦ cc ])

-- The options pass the check exactly if they ask for the interactive mode or the proxy alone, or
-- name a file.
pub checked_iff :
    (opt : Opt)
    → (checked opt ≡ ok opt)
      ↔ ((opt.interactive ≡ true) ⊎ (opt.proxy ≡ true) ⊎ (is_some opt.input ≡ true))
unfolding checked
checked_iff opt = guard_iff opt.interactive opt.proxy opt.input opt
