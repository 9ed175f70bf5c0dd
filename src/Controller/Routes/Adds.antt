-- ===== src/Controller/Routes/Adds.antt =====
-- What asking for the gateway and changing the routes adds to the history.
use chaos_tproxy.Prelude.{ℕ, zero, suc, List, [], ◌∷◌, ◌++◌, Option, none, filter}
use chaos_tproxy.Outcome.{Error, Result, ok, err, no_gateway}
use chaos_tproxy.Outcome.Adds.{Adds, Adds-refl, Adds-act, Adds-trans, Adds-proceed, Adds-recovered}
use chaos_tproxy.Controller.Shell.{
  Route, Gateway, Act, list_routes, ask_gateway, delete_route, add_route, History, Machine, give,
  act,
}
use chaos_tproxy.Controller.Routes.{
  first_answer, settle, noted, not_local, ask_gateway_times, try_get_default_gateway,
  get_routes_noblock, delete_each, del_routes_noblock, load_routes,
}

module _ (P : Act → Type 0) (m : Machine) where
  first_answer-Adds :
      (s t : History) (r : Result Gateway) (again : Result Gateway × History)
      → Adds P s (r, t)
      → Adds P s again
      → Adds P s (first_answer r t again)
  first_answer-Adds s t (ok found) again p q = p
  first_answer-Adds s t (err e) again p q = q

  ask_gateway_times-Adds :
      (n : ℕ) (s : History) → P ask_gateway → Adds P s (ask_gateway_times m n s)
  unfolding ask_gateway_times
  ask_gateway_times-Adds zero s here = Adds-refl P {A = Gateway} s (err no_gateway)
  ask_gateway_times-Adds (suc n) s here =
      let asked : History = s ++ ask_gateway ∷ [] in
      let again = ask_gateway_times m n asked in
      let one = Adds-act P {A = Gateway} s ask_gateway (m.default_gateway s) here in
      first_answer-Adds s asked (m.default_gateway s) again one (
        Adds-trans P s (m.default_gateway s, asked) again one (ask_gateway_times-Adds n asked here))

  pub try_get_default_gateway-Adds :
      (s : History) → P ask_gateway → Adds P s (try_get_default_gateway m s)
  unfolding try_get_default_gateway
  try_get_default_gateway-Adds s here = ask_gateway_times-Adds 5 s here

  pub get_routes_noblock-Adds : (s : History) → P list_routes → Adds P s (get_routes_noblock m s)
  unfolding get_routes_noblock
  get_routes_noblock-Adds s here =
      Adds-proceed P s (act list_routes m.routes s) (λ routes. give (filter not_local routes))
        (Adds-act P s list_routes (m.routes s) here)
        (λ routes t. Adds-refl P t (ok (filter not_local routes)))

  delete_each-Adds :
      (found : Option Error) (msgs : List Route) (s : History)
      → ((route : Route) → P (delete_route route))
      → Adds P s (delete_each m found msgs s)
  unfolding delete_each
  delete_each-Adds found [] s here = Adds-refl P s (settle found)
  delete_each-Adds found (route ∷ msgs) s here =
      let deleted : History = s ++ delete_route route ∷ [] in
      let found' : Option Error = noted found (m.delete s route) in
      Adds-trans P s (m.delete s route, deleted) (delete_each m found' msgs deleted)
        (Adds-act P s (delete_route route) (m.delete s route) (here route))
        (delete_each-Adds found' msgs deleted here)

  pub del_routes_noblock-Adds :
      (msgs : List Route) (s : History)
      → ((route : Route) → P (delete_route route))
      → Adds P s (del_routes_noblock m msgs s)
  unfolding del_routes_noblock
  del_routes_noblock-Adds msgs s here = delete_each-Adds none msgs s here

  pub load_routes-Adds :
      (msgs : List Route) (s : History)
      → ((route : Route) → P (add_route route))
      → Adds P s (load_routes m msgs s)
  unfolding load_routes
  load_routes-Adds [] s here = Adds-refl P s (ok tt)
  load_routes-Adds (route ∷ msgs) s here =
      Adds-proceed P s _ (λ _. load_routes m msgs)
        (Adds-recovered P s (act (add_route route) (λ s'. m.add s' route) s) tt
          (Adds-act P s (add_route route) (m.add s route) (here route)))
        (λ u t. load_routes-Adds msgs t here)
