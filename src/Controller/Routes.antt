-- ===== src/Controller/Routes.antt =====
-- chaos-tproxy-controller/src/proxy/net/routes.rs, and the gateway that
-- chaos-tproxy-controller/src/proxy/net/bridge.rs asks for: the kernel's routes, and which of them
-- stand for the device's address.
pub mod Laws
pub mod Adds
pub mod Asking
mod Tests
use Prim.Native.String
use text.Mathlib.Text.{find?}
use chaos_tproxy.Prelude.{
  ℕ, zero, suc, Bool, true, false, not, ◌&&◌, List, [], ◌∷◌, ◌++◌, Option, none, some, String,
  if◌then◌else◌, ◌==◌, all, any, filter, map, show_nat, join,
}
use chaos_tproxy.Outcome.{Error, Result, ok, err, no_gateway, library, stderr}
use chaos_tproxy.Controller.Shell.{
  Nla, pref_source, gateway, other, Route, Gateway, list_routes, ask_gateway, delete_route,
  add_route, History, Machine, Sh, proceed, ◌>>=◌, ◌>>◌, give, act, recover,
}

-- `route.header.table != 255`
abbrev pub not_local : Route → Bool
not_local route = not (route.table == 255)

-- `self.ip.contains(&addr_string)`: as a part of the text.
abbrev contains : String → String → Bool
contains text part = elim (find? text part) [ none ↦ false | some i ↦ true ]

abbrev from_address : String → Nla → Bool
from_address ip (pref_source addr) = contains ip (join "." (map show_nat addr))
from_address ip (gateway addr) = false
from_address ip other = false

abbrev is_gateway : Nla → Bool
is_gateway (pref_source addr) = false
is_gateway (gateway addr) = true
is_gateway other = false

-- The routes that the kernel made for the address of the device.
unfoldable pub is_kernel_route : String → Route → Bool
is_kernel_route ip msg =
    not_local msg && any (from_address ip) msg.nlas && all (λ n. not (is_gateway n)) msg.nlas

abbrev message : Error → String
message (library text) = text
message (stderr text) = text
message e = ""

-- `reduce(|accum, item| anyhow!("{} \n {}", accum, item))` over the errors.
abbrev join_error : Option Error → Error → Option Error
join_error none e = some e
join_error (some first) e =
    some (library (String.◌++◌ (message first) (String.◌++◌ " \n " (message e))))

abbrev pub settle : Option Error → Result (Unit {0})
settle none = ok tt
settle (some e) = err e

abbrev pub noted : Option Error → Result (Unit {0}) → Option Error
noted found (ok u) = found
noted found (err e) = join_error found e

-- `Ok(gateway) => return Ok(gateway)`; an error is logged, and the loop goes on.
abbrev pub first_answer :
    Result Gateway → History → Result Gateway × History → Result Gateway × History
first_answer (ok found) s again = (ok found, s)
first_answer (err e) s again = again

module _ (m : Machine) where
  -- `while count > 0`
  unfoldable pub ask_gateway_times : ℕ → Sh Gateway
  ask_gateway_times zero s = (err no_gateway, s)
  ask_gateway_times (suc count) s =
      let again = ask_gateway_times count (s ++ ask_gateway ∷ []) in
      first_answer (m.default_gateway s) (s ++ ask_gateway ∷ []) again

  unfoldable pub try_get_default_gateway : Sh Gateway
  try_get_default_gateway = ask_gateway_times 5

  unfoldable pub get_routes_noblock : Sh (List Route)
  get_routes_noblock = do routes ← act list_routes m.routes; give (filter not_local routes)

  -- Each route is deleted, and the errors are put together at the end.
  unfoldable pub delete_each : Option Error → List Route → Sh (Unit {0})
  delete_each found [] s = (settle found, s)
  delete_each found (route ∷ msgs) s =
      delete_each (noted found (m.delete s route)) msgs (s ++ delete_route route ∷ [])

  unfoldable pub del_routes_noblock : List Route → Sh (Unit {0})
  del_routes_noblock msgs = delete_each none msgs

  unfoldable pub load_routes : List Route → Sh (Unit {0})
  load_routes [] = give tt
  load_routes (route ∷ msgs) = do
    recover (act (add_route route) (λ s. m.add s route)) tt
    load_routes msgs
