-- ===== src/Controller/Shell.antt =====
-- What the controller does to the machine, and what the machine answers.
-- An act is a command, a request to the kernel or a step of the proxy process. The history is the
-- list of all acts so far, and whatever the machine answers may depend on all of it, so a question
-- that is asked twice may get two answers. `execute` and its two loops are those of
-- chaos-tproxy-controller/src/proxy/net/bridge.rs.
pub mod Laws
pub mod Adds
pub mod Sample
mod Tests
use chaos_tproxy.Prelude.{ℕ, Bool, List, [], ◌∷◌, ◌++◌, Option, String, str_eq, if◌then◌else◌}
use chaos_tproxy.Outcome.{Error, Result, ok, err, stderr}
use chaos_tproxy.Controller.Net.{NetworkInterface}
pub use chaos_tproxy.Outcome.Effects.{
  proceed, ◌>>=◌, ◌>>◌, give, of_result, act, recovered, recover, unwrapped,
}
use chaos_tproxy.Outcome.Effects.{Eff}

abbrev pub Command : Type 0
Command = List String

-- `rtnetlink`'s attributes of a route: those that the source looks at.
pub data Nla : Type 0 where
  pref_source : List ℕ → Nla
  gateway : List ℕ → Nla
  other : Nla

pub record Route : Type 0 where
  pub table : ℕ
  pub nlas : List Nla

-- `default_net::Gateway`, with the texts of its addresses.
pub record Gateway : Type 0 where
  pub mac_octets : List ℕ
  pub mac_text : String
  pub ip_text : String

-- What `libarp` knows of an interface, and the message that it sends: those of its operations and
-- kinds of frames that the source names.
pub record ArpInterface : Type 0 where
  pub ip : Option String
  pub mac : List ℕ

pub data EtherType : Type 0 where
  arp : EtherType

pub data Operation : Type 0 where
  arp_request : Operation

pub record ArpMessage : Type 0 where
  pub ether_type : EtherType
  pub source_mac : List ℕ
  pub source_ip : String
  pub target_mac : List ℕ
  pub target_ip : String
  pub operation : Operation

-- `surge_ping`'s pinger, with the seconds that it waits for a reply.
pub record Pinger : Type 0 where
  pub addr : String
  pub identifier : ℕ
  pub timeout : ℕ

pub data Act : Type 0 where
  command : Command → Act
  list_routes ask_gateway ask_interfaces : Act
  announce : ArpMessage → Act
  start_pings : Pinger → Act
  delete_route add_route : Route → Act
  bind_socket : String → Act
  spawn_listener : String → Act
  spawn_proxy : Command → Act
  stop_proxy await_proxy stop_server await_server : Act

abbrev pub History : Type 0
History = List Act

-- The standard error of a command that ran, or why it could not run; and so on.
pub record Machine : Type 0 where
  pub output : History → Command → Result String
  pub interfaces : History → List NetworkInterface
  pub default_gateway : History → Result Gateway
  pub routes : History → Result (List Route)
  pub delete : History → Route → Result (Unit {0})
  pub add : History → Route → Result (Unit {0})
  pub bind : History → String → Result (Unit {0})
  pub arp_interface : History → String → Option ArpInterface
  pub send_arp : History → ArpMessage → Result (Unit {0})
  pub ping_client : History → Result (Unit {0})
  pub ping_identifier : History → ℕ
  pub await_task : History → Result (Unit {0})
  pub await_server_task : History → Result (Unit {0})
  pub current_exe : Result String
  pub network_ip : String → Result String
  -- What `Proxy::new` draws: the path of the socket, the identifiers tried as a prefix of names, as
  -- many as the loop needs, and the number of the channel between the proxy and its task.
  pub socket_path : History → String
  pub uuids : History → List String
  pub channel : History → ℕ

abbrev pub Sh : Type 0 → Type 0
Sh A = Eff Act A

-- `os_err`: anything on the standard error is a failure.
unfoldable pub os_err : String → Result (Unit {0})
os_err text = if str_eq text "" then ok tt else err (stderr text)

abbrev pub after_output : Result String → Result (Unit {0})
after_output (err e) = err e
after_output (ok text) = os_err text

module _ (m : Machine) where
  unfoldable pub execute : Command → Sh (Unit {0})
  execute [] = give tt
  execute (program ∷ args) =
      act (command (program ∷ args)) (λ s. after_output (m.output s (program ∷ args)))

  -- It stops at the first failure.
  unfoldable pub execute_all : List Command → Sh (Unit {0})
  execute_all [] = give tt
  execute_all (c ∷ cs) = do execute c; execute_all cs

  -- A failure is logged, and the next command runs.
  unfoldable pub execute_all_with_log_error : List Command → Sh (Unit {0})
  execute_all_with_log_error [] = give tt
  execute_all_with_log_error (c ∷ cs) = do recover (execute c) tt; execute_all_with_log_error cs
