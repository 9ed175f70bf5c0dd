-- ===== src/Controller/Packets/Adds.antt =====
-- What the packets add to the history.
use chaos_tproxy.Prelude.{List, ℕ, String}
use chaos_tproxy.Outcome.Adds.{Adds, Adds-act, Adds-answer, Adds-recovered}
use chaos_tproxy.Controller.Shell.{Act, ArpMessage, Pinger, announce, start_pings, History, Machine}
use chaos_tproxy.Controller.Packets.{gratuitous_arp, try_ping}

module _ (P : Act → Type 0) (m : Machine) where
  pub gratuitous_arp-Adds :
      (ip_addr : String) (mac_addr : List ℕ) (s : History)
      → ((message : ArpMessage) → P (announce message))
      → Adds P s (gratuitous_arp m ip_addr mac_addr s)
  unfolding gratuitous_arp
  gratuitous_arp-Adds ip_addr mac_addr s here =
      Adds-recovered P s _ tt (Adds-act P s _ (m.send_arp s _) (here _))

  pub try_ping-Adds :
      (addr : String) (s : History)
      → ((pinger : Pinger) → P (start_pings pinger))
      → Adds P s (try_ping m addr s)
  unfolding try_ping
  try_ping-Adds addr s here = search (Adds-answer P, Adds-act P, here)
