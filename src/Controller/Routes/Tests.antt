-- ===== src/Controller/Routes/Tests.antt =====
-- Runs of the functions on routes on the sample machine.
use chaos_tproxy.Prelude.{◌≡◌, refl, true, false, List, [], ◌∷◌, ◌++◌, map, show_nat, join}
use chaos_tproxy.Outcome.{Result, ok, err, no_gateway}
use chaos_tproxy.Controller.Shell.{
  Act, Route, Gateway, Machine, ask_gateway, gateway, add_route, delete_route,
}
use chaos_tproxy.Controller.Shell.Sample.{quiet, local_route, main_route}
use chaos_tproxy.Controller.Routes.{
  is_kernel_route, try_get_default_gateway, ask_gateway_times, del_routes_noblock, load_routes,
}
use chaos_tproxy.Controller.Routes.Laws.{
  succeeds, all_deleted, del_routes_noblock-acts, load_routes-acts,
}
use chaos_tproxy.Controller.Routes.Asking.{Asked, try_get_default_gateway-Asked}

finds_kernel_route : is_kernel_route "10.0.0.2/24" main_route ≡ true
unfolding is_kernel_route show_nat join
finds_kernel_route = refl

-- The route's address is only a part of the text of the device's.
finds_part_of_address : is_kernel_route "10.0.0.24/24" main_route ≡ true
unfolding is_kernel_route show_nat join
finds_part_of_address = refl

leaves_gateway :
    is_kernel_route "10.0.0.2/24" (record main_route { nlas = gateway (10 ∷ []) ∷ main_route.nlas })
    ≡ false
unfolding is_kernel_route show_nat join
leaves_gateway = refl

abbrev both : List Route
both = main_route ∷ local_route ∷ []

deletes_both :
    ((del_routes_noblock quiet both []).1 ≡ [] ++ map delete_route both)
    × (succeeds (del_routes_noblock quiet both []).0 ≡ all_deleted quiet [] both)
deletes_both = del_routes_noblock-acts quiet both []

puts_both_back : load_routes quiet both [] ≡ (ok tt, [] ++ map add_route both)
puts_both_back = load_routes-acts quiet both []

-- A machine that knows its gateway when it is asked for the third time.
abbrev answer_at : List Act → Result Gateway
answer_at (a ∷ b ∷ s) = ok (record { mac_octets = 1 ∷ []; mac_text = "01"; ip_text = "10.0.0.1" })
answer_at (a ∷ []) = err no_gateway
answer_at [] = err no_gateway

abbrev slow : Machine
slow = record quiet { default_gateway = answer_at }

asks_three_times :
    (try_get_default_gateway slow []).1 ≡ ask_gateway ∷ ask_gateway ∷ ask_gateway ∷ []
unfolding try_get_default_gateway ask_gateway_times
asks_three_times = refl

try_get_default_gateway-Asked_example : Asked slow 5 [] (try_get_default_gateway slow [])
try_get_default_gateway-Asked_example = try_get_default_gateway-Asked slow []
