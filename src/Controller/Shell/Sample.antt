-- ===== src/Controller/Shell/Sample.antt =====
-- A machine on which the tests of the controller run: everything succeeds, and the second end of
-- the pair of links is there once something has been done. Its sibling fails every command.
use chaos_tproxy.Prelude.{true, false, List, [], ◌∷◌, some}
use chaos_tproxy.Outcome.{ok}
use chaos_tproxy.Controller.Net.{v4, NetworkInterface}
use chaos_tproxy.Controller.Shell.{Act, pref_source, Route, Gateway, Machine}

abbrev pub eth0 : NetworkInterface
eth0 = record {
  name = "eth0";
  is_loopback = false;
  is_up = true;
  ips = v4 167772162 24 ∷ [];
  mac = some "aa:00";
}

abbrev pub lo : NetworkInterface
lo = record eth0 { name = "lo"; is_loopback = true }

abbrev pub veth : NetworkInterface
veth = record eth0 { name = "0123456789abcv4" }

abbrev pub local_route : Route
local_route = record { table = 255; nlas = [] }

abbrev pub main_route : Route
main_route = record { table = 254; nlas = pref_source (10 ∷ 0 ∷ 0 ∷ 2 ∷ []) ∷ [] }

abbrev router : Gateway
router = record { mac_octets = 1 ∷ []; mac_text = "01"; ip_text = "10.0.0.1" }

abbrev interfaces_at : List Act → List NetworkInterface
interfaces_at [] = lo ∷ eth0 ∷ []
interfaces_at (_ ∷ _) = lo ∷ eth0 ∷ veth ∷ []

abbrev pub quiet : Machine
quiet = record {
  output = λ s c. ok "";
  interfaces = interfaces_at;
  default_gateway = λ s. ok router;
  routes = λ s. ok (local_route ∷ main_route ∷ []);
  delete = λ s r. ok tt;
  add = λ s r. ok tt;
  bind = λ s path. ok tt;
  arp_interface = λ s name. some (record { ip = some "10.0.0.2"; mac = 170 ∷ 0 ∷ [] });
  send_arp = λ s message. ok tt;
  ping_client = λ s. ok tt;
  ping_identifier = λ s. 9;
  await_task = λ s. ok tt;
  await_server_task = λ s. ok tt;
  current_exe = ok "/bin/tproxy";
  network_ip = λ ip. ok "10.0.0.0";
  socket_path = λ s. "/tmp/a.sock";
  uuids = λ s. "0123456789abcdef" ∷ "fedcba9876543210" ∷ [];
  channel = λ s. 7;
}

abbrev pub denied : Machine
denied = record quiet { output = λ s c. ok "Operation not permitted" }
