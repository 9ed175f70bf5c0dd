-- ===== src/Controller/Iptables/Tests.antt =====
-- The packet rules of a sample environment.
use chaos_tproxy.Prelude.{[], some, All}
use chaos_tproxy.Controller.Commands.{NetEnv}
use chaos_tproxy.Controller.Iptables.{set_iptables, set_iptables_safe}
use chaos_tproxy.Controller.Iptables.Laws.{IsUndone, set_iptables-IsUndone}

abbrev env : NetEnv
env = record {
  netns = "ans";
  device = "eth0";
  ip = "10.0.0.2/24";
  bridge1 = "ab1";
  bridge2 = "ab2";
  veth1 = "av1";
  veth2 = "veth0";
  veth3 = "veth1";
  veth4 = "av4";
  save_routes = [];
}

undoes_rules :
    All (IsUndone env.netns) (set_iptables env (some "80") "1025" "aa:00")
    × All (IsUndone env.netns) (set_iptables_safe env "aa:00")
undoes_rules = set_iptables-IsUndone env (some "80") "1025" "aa:00"
