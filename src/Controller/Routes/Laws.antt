-- ===== src/Controller/Routes/Laws.antt =====
-- The routes that are deleted and put back.
use chaos_tproxy.Prelude.{
  ◌≡◌, refl, ◌∙◌, sym, ap, Bool, true, false, ◌&&◌, List, [], ◌∷◌, ◌++◌, map, append_assoc,
  append-nil, Option, none, some,
}
use chaos_tproxy.Outcome.{Error, Result, ok, err}
use chaos_tproxy.Controller.Shell.{Route, delete_route, add_route, History, Machine, proceed}
use chaos_tproxy.Outcome.Effects.{recovered_tt}
use chaos_tproxy.Controller.Routes.{noted, settle, delete_each, del_routes_noblock, load_routes}

abbrev pub succeeds {ℓ} : {A : Type ℓ} → Result A → Bool
succeeds (err e) = false
succeeds (ok a) = true

abbrev pub is_none {ℓ} : {A : Type ℓ} → Option A → Bool
is_none none = true
is_none (some a) = false

succeeds-settle : (found : Option Error) → succeeds (settle found) ≡ is_none found
succeeds-settle none = refl
succeeds-settle (some e) = refl

noted-is_none :
    (found : Option Error) (r : Result (Unit {0}))
    → is_none (noted found r) ≡ is_none found && succeeds r
noted-is_none none (ok u) = refl
noted-is_none none (err e) = refl
noted-is_none (some e) (ok u) = refl
noted-is_none (some e) (err e') = refl

and_assoc : (a b c : Bool) → (a && b) && c ≡ a && (b && c)
and_assoc true b c = refl
and_assoc false b c = refl

and_true : (b : Bool) → b && true ≡ b
and_true true = refl
and_true false = refl

module _ (m : Machine) where
  -- Each deletion is asked for where those before it have been.
  abbrev pub all_deleted : History → List Route → Bool
  all_deleted s [] = true
  all_deleted s (route ∷ msgs) =
      succeeds (m.delete s route) && all_deleted (s ++ delete_route route ∷ []) msgs

  delete_each-acts :
      (found : Option Error) (msgs : List Route) (s : History)
      → ((delete_each m found msgs s).1 ≡ s ++ map delete_route msgs)
        × (succeeds (delete_each m found msgs s).0 ≡ is_none found && all_deleted s msgs)
  unfolding delete_each
  delete_each-acts found [] s =
      (sym (append-nil s), succeeds-settle found ∙ sym (and_true (is_none found)))
  delete_each-acts found (route ∷ msgs) s =
      let deleted : History = s ++ delete_route route ∷ [] in
      let (acts, good) = delete_each-acts (noted found (m.delete s route)) msgs deleted in
      (
        acts ∙ append_assoc s (delete_route route ∷ []) (map delete_route msgs),
        good
            ∙ (ap (λ b. b && all_deleted deleted msgs) (noted-is_none found (m.delete s route))
                ∙ and_assoc (is_none found) (succeeds (m.delete s route))
                    (all_deleted deleted msgs)),
      )

  -- Every route of the list is deleted, in order and whatever fails, and the result is a success
  -- exactly if every deletion was one.
  pub del_routes_noblock-acts :
      (msgs : List Route) (s : History)
      → ((del_routes_noblock m msgs s).1 ≡ s ++ map delete_route msgs)
        × (succeeds (del_routes_noblock m msgs s).0 ≡ all_deleted s msgs)
  unfolding del_routes_noblock
  del_routes_noblock-acts msgs s = delete_each-acts none msgs s

  -- Every saved route is put back, in order, and a failure is no failure of the whole.
  pub load_routes-acts :
      (msgs : List Route) (s : History) → load_routes m msgs s ≡ (ok tt, s ++ map add_route msgs)
  unfolding load_routes
  load_routes-acts [] s = ap (λ (x : History). (ok tt, x)) (sym (append-nil s))
  load_routes-acts (route ∷ msgs) s =
      let added : History = s ++ add_route route ∷ [] in
      ap (λ x. proceed x (λ u. load_routes m msgs)) (recovered_tt (m.add s route) added)
      ∙ (load_routes-acts msgs added
          ∙ ap (λ (x : History). (ok tt, x))
              (append_assoc s (add_route route ∷ []) (map add_route msgs)))
