-- ===== src/Controller/Bridge/Laws.antt =====
-- The clean-up is best effort.
use chaos_tproxy.Prelude.{◌≡◌, [], ◌∷◌, ◌++◌, Bool-cases, inl, inr, List, all, ◌==◌}
use chaos_tproxy.Outcome.{Result, ok}
use chaos_tproxy.Outcome.Adds.{Adds, Adds-refl, Adds-proceed, Adds-recovered}
use chaos_tproxy.Controller.Shell.{Route, Gateway, Act, History, Machine, Sh, ◌>>=◌, ◌>>◌, recover}
use chaos_tproxy.Controller.Shell.Laws.{acts_of, execute_all_with_log_error-acts}
use chaos_tproxy.Controller.Shell.Adds.{execute_all_with_log_error-Adds}
use chaos_tproxy.Controller.Commands.{NetEnv, arp_set}
use chaos_tproxy.Controller.Routes.{
  try_get_default_gateway, get_routes_noblock, del_routes_noblock, load_routes,
}
use chaos_tproxy.Controller.Routes.Adds.{
  try_get_default_gateway-Adds, get_routes_noblock-Adds, del_routes_noblock-Adds, load_routes-Adds,
}
use chaos_tproxy.Controller.Setup.{clear_commands}
use chaos_tproxy.Controller.Bridge.{clear_bridge, restore_gateway}

abbrev AnyAct : Act → Type 0
AnyAct a = Unit

-- The run starts from a history and only adds to it.
abbrev Extends : {A : Type 0} → History → Result A × History → Type 0
Extends s x = Adds AnyAct s x

module _ (m : Machine) where
  restore_gateway-Extends :
      (env : NetEnv) (gw : Gateway) (s : History) → Extends s (restore_gateway m env gw s)
  restore_gateway-Extends env gw s = elim (Bool-cases (all (λ i. i == 0) gw.mac_octets)) [
    | inl zero_mac ↦ rw zero_mac (Adds-refl AnyAct s (ok tt))
    | inr given ↦ rw given (
        execute_all_with_log_error-Adds AnyAct m (arp_set gw.ip_text gw.mac_text env.device ∷ []) s
          (tt, tt))
  ]

  -- What clear_bridge does behind its commands, from its last part to the whole.
  abbrev answer_gateway : NetEnv → Sh (Unit {0})
  answer_gateway env = try_get_default_gateway m >>= restore_gateway m env

  abbrev reload_routes : NetEnv → Sh (Unit {0})
  reload_routes env = recover (load_routes m env.save_routes) tt >> answer_gateway env

  abbrev drop_routes : NetEnv → List Route → Sh (Unit {0})
  drop_routes env routes = recover (del_routes_noblock m routes) tt >> reload_routes env

  abbrev restore : NetEnv → Sh (Unit {0})
  restore env = recover (get_routes_noblock m) [] >>= drop_routes env

  answer_gateway-Extends : (env : NetEnv) (s : History) → Extends s (answer_gateway env s)
  answer_gateway-Extends env s =
      Adds-proceed AnyAct s (try_get_default_gateway m s) (restore_gateway m env)
        (try_get_default_gateway-Adds AnyAct m s tt) (restore_gateway-Extends env)

  reload_routes-Extends : (env : NetEnv) (s : History) → Extends s (reload_routes env s)
  reload_routes-Extends env s =
      Adds-proceed AnyAct s (recover (load_routes m env.save_routes) tt s) (λ u. answer_gateway env)
        (Adds-recovered AnyAct s (load_routes m env.save_routes s) tt
          (load_routes-Adds AnyAct m env.save_routes s (λ route. tt)))
        (λ u. answer_gateway-Extends env)

  drop_routes-Extends :
      (env : NetEnv) (routes : List Route) (s : History) → Extends s (drop_routes env routes s)
  drop_routes-Extends env routes s =
      Adds-proceed AnyAct s (recover (del_routes_noblock m routes) tt s) (λ u. reload_routes env)
        (Adds-recovered AnyAct s (del_routes_noblock m routes s) tt
          (del_routes_noblock-Adds AnyAct m routes s (λ route. tt)))
        (λ u. reload_routes-Extends env)

  restore-Extends : (env : NetEnv) (s : History) → Extends s (restore env s)
  restore-Extends env s =
      Adds-proceed AnyAct s (recover (get_routes_noblock m) [] s) (drop_routes env)
        (Adds-recovered AnyAct s (get_routes_noblock m s) []
          (get_routes_noblock-Adds AnyAct m s tt))
        (drop_routes-Extends env)

  -- Whatever fails, clearing the environment first runs each of its commands, in order; what else it
  -- does comes after.
  pub clear_bridge-runs :
      (env : NetEnv) (s : History)
      → (rest : History) × ((clear_bridge m env s).1 ≡ (s ++ acts_of (clear_commands env)) ++ rest)
  unfolding clear_bridge
  clear_bridge-runs env s = rw (execute_all_with_log_error-acts m (clear_commands env) s) (
      let rest = restore-Extends env (s ++ acts_of (clear_commands env)) in
      (rest.added, rest.follows))
