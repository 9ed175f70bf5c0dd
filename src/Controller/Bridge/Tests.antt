-- ===== src/Controller/Bridge/Tests.antt =====
-- The clean-up on a machine that fails every command.
use chaos_tproxy.Prelude.{◌≡◌, [], ◌∷◌, ◌++◌, some, true, All}
use chaos_tproxy.Controller.Shell.{History, await_proxy}
use chaos_tproxy.Controller.Shell.Sample.{denied, main_route}
use chaos_tproxy.Controller.Shell.Laws.{acts_of}
use chaos_tproxy.Controller.Commands.{NetEnv}
use chaos_tproxy.Controller.Setup.{clear_commands}
use chaos_tproxy.Controller.Bridge.{clear_bridge, set_net}
use chaos_tproxy.Controller.Bridge.Laws.{clear_bridge-runs}
use chaos_tproxy.Controller.Bridge.Undone.{IsSetUp}
use chaos_tproxy.Controller.Bridge.SetNet.{set_net-IsSetUp}

abbrev env : NetEnv
env = record {
  netns = "ans";
  device = "eth0";
  ip = "10.0.0.2/24";
  bridge1 = "ab1";
  bridge2 = "ab2";
  veth1 = "av1";
  veth2 = "veth0";
  veth3 = "veth1";
  veth4 = "av4";
  save_routes = main_route ∷ [];
}

abbrev earlier : History
earlier = await_proxy ∷ []

clears_all :
    (rest : History) × ((clear_bridge denied env earlier).1
      ≡ (earlier ++ acts_of (clear_commands env)) ++ rest)
clears_all = clear_bridge-runs denied env earlier

set_net-IsSetUp_example :
    ((added : History) × ((set_net denied env (some "80") 1025 true earlier).1 ≡ earlier ++ added)
      × All (IsSetUp env) added)
    × ((later : History)
        → (rest : History) × ((clear_bridge denied env later).1
            ≡ (later ++ acts_of (clear_commands env)) ++ rest))
set_net-IsSetUp_example = set_net-IsSetUp denied env (some "80") 1025 true earlier
