-- ===== src/Controller/Net.antt =====
-- The interfaces of the machine, as chaos-tproxy-controller/src/proxy/net/bridge.rs looks at them.
-- The list of interfaces is what the pnet crate reports, a parameter of every function.
pub mod Laws
use Prim.Native.String
use chaos_tproxy.Prelude.{
  ℕ, ◌/◌, ◌%◌, Bool, not, ◌&&◌, List, [], ◌∷◌, Option, none, some, String, str_eq, if◌then◌else◌,
  show_nat, join, true, false,
}
use chaos_tproxy.Outcome.{Result, ok, err, no_valid_interface}
use chaos_tproxy.Handler.Rule.{Ipv4Addr}

-- `pnet::ipnetwork::IpNetwork`: an address and the length of its prefix.
pub data IpNetwork : Type 0 where
  v4 : Ipv4Addr → ℕ → IpNetwork
  v6 : ℕ → ℕ → IpNetwork

-- `pnet::datalink::NetworkInterface`, with its flags.
pub record NetworkInterface : Type 0 where
  pub name : String
  pub is_loopback : Bool
  pub is_up : Bool
  pub ips : List IpNetwork
  pub mac : Option String

abbrev pub is_empty {ℓ} : {A : Type ℓ} → List A → Bool
is_empty [] = true
is_empty (_ ∷ _) = false

-- `Ipv4Addr::to_string`
unfoldable pub show_ipv4 : Ipv4Addr → String
show_ipv4 ip = join "." (
    show_nat (ip / 16777216)
    ∷ show_nat (ip / 65536 % 256)
    ∷ show_nat (ip / 256 % 256)
    ∷ show_nat (ip % 256)
    ∷ [])

abbrev pub is_usable : NetworkInterface → Bool
is_usable i = not i.is_loopback && i.is_up && not (is_empty i.ips)

unfoldable pub get_default_interface : List NetworkInterface → Result NetworkInterface
get_default_interface [] = err no_valid_interface
get_default_interface (i ∷ interfaces) =
    if is_usable i then ok i else get_default_interface interfaces

unfoldable pub get_interface : String → List NetworkInterface → Result NetworkInterface
get_interface name [] = err no_valid_interface
get_interface name (i ∷ interfaces) =
    if str_eq i.name name then ok i else get_interface name interfaces

-- The loop of `get_ipv4`: the first IPv4 network, as text with its prefix.
unfoldable pub get_ipv4 : List IpNetwork → Option String
get_ipv4 [] = none
get_ipv4 (v4 ip prefix ∷ ips) =
    some (String.◌++◌ (show_ipv4 ip) (String.◌++◌ "/" (show_nat prefix)))
get_ipv4 (v6 ip prefix ∷ ips) = get_ipv4 ips
