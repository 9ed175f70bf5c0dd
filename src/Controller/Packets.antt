-- ===== src/Controller/Packets.antt =====
-- chaos-tproxy-controller/src/proxy/net/arp.rs and ping.rs beside it: the packets that the set-up
-- sends. Sending a message and starting the task of the pings are acts; what the pings themselves
-- return is thrown away.
pub mod Adds
mod Tests
use chaos_tproxy.Prelude.{ℕ, zero, suc, ◌+◌, List, [], ◌∷◌, String}
use chaos_tproxy.Outcome.{ok}
use chaos_tproxy.Outcome.Results.{unwrap_result}
use chaos_tproxy.Controller.Shell.{
  arp, arp_request, ArpMessage, Pinger, announce, start_pings, Machine, Sh, ◌>>=◌, ◌>>◌, give, act,
  recover,
}

abbrev pub gratuitous_message : String → List ℕ → ArpMessage
gratuitous_message ip_addr mac_addr = record {
  ether_type = arp;
  source_mac = mac_addr;
  source_ip = ip_addr;
  target_mac = 255 ∷ 255 ∷ 255 ∷ 255 ∷ 255 ∷ 255 ∷ [];
  target_ip = ip_addr;
  operation = arp_request;
}

-- One ping: its `PingSequence` and its payload.
pub record Ping : Type 0 where
  pub sequence : ℕ
  pub payload : List ℕ

abbrev zeros : ℕ → List ℕ
zeros zero = []
zeros (suc n) = 0 ∷ zeros n

-- So many rounds of the loop: each binds an `idx` of its own to one more than that outside.
abbrev rounds : ℕ → ℕ → List Ping
rounds idx zero = []
rounds idx (suc n) = record { sequence = idx + 1; payload = zeros 56 } ∷ rounds idx n

-- `let idx = 0`
abbrev pub pings : ℕ → List Ping
pings n = rounds 0 n

module _ (m : Machine) where
  -- A failure to send is logged.
  unfoldable pub gratuitous_arp : String → List ℕ → Sh (Unit {0})
  gratuitous_arp ip_addr mac_addr =
      recover
        (act (announce (gratuitous_message ip_addr mac_addr))
          (λ s. m.send_arp s (gratuitous_message ip_addr mac_addr)))
        tt

  abbrev new_pinger : String → Sh Pinger
  new_pinger addr s =
      (ok (record { addr = addr; identifier = m.ping_identifier s; timeout = 1 }), s)

  -- `Client::new` is unwrapped, and the task of the pings is spawned.
  unfoldable pub try_ping : String → Sh (Unit {0})
  try_ping addr = do
    λ s. (unwrap_result (m.ping_client s), s)
    pinger ← new_pinger addr
    act (start_pings pinger) (λ s. ok tt)
