-- ===== src/Main/Tests.antt =====
-- Runs of `main` on the sample machine and the sample kernel.
use chaos_tproxy.Prelude.{◌≡◌, refl, true, false, [], ◌∷◌, none, some}
use chaos_tproxy.Outcome.{ok}
use chaos_tproxy.External.Sample.{sample}
use chaos_tproxy.RawConfig.{RawConfig as ProxyRawConfig}
use chaos_tproxy.RawConfig.Tls.Sample.{sample_tls}
use chaos_tproxy.Tcp.Sample.{open_kernel}
use chaos_tproxy.Server.{incoming}
use chaos_tproxy.Uds.{Uds}
use chaos_tproxy.Controller.Shell.Sample.{quiet}
use chaos_tproxy.Controller.CommandLine.{Opt, default_config, checked}
use chaos_tproxy.Main.{exited, from_args_checked, Outside, Inside, main}
use chaos_tproxy.Main.Laws.{Runs, main-Runs}

abbrev nothing : Opt
nothing = record { input = none; interactive = false; verbose = 0; proxy = false; ipc_path = none }

abbrev proxy_alone : Opt
proxy_alone = record nothing { proxy = true; ipc_path = some "/tmp/a.sock" }

abbrev with_file : Opt
with_file = record nothing { input = some "chaos.json" }

abbrev outside : Outside
outside = record {
  machine = quiet;
  files = record {
    read_to_string = λ path. ok "{}";
    extension = λ path. some "json";
    from_json = λ text. ok (record default_config { proxy_ports = some (80 ∷ []) });
    from_yaml = λ text. ok default_config;
  };
  from_slice = λ bytes. ok default_config;
  show = λ e. "bad";
  wait = λ s. ok tt;
  requests = [];
}

abbrev raw : ProxyRawConfig
raw = record {
  proxy_ports = some "80";
  listen_port = 1025;
  safe_mode = false;
  rules = [];
  role = none;
  tls = none;
}

abbrev socket : Uds ProxyRawConfig
socket = record {
  bound = λ s path. ok 3;
  removed = λ s path. ok tt;
  connect = λ path. ok 5;
  read_to_end = λ stream buf. ok (1 ∷ []);
  to_vec = λ c. ok (1 ∷ []);
  from_slice = λ b. ok raw;
}

abbrev inside : Inside sample sample_tls
inside = record {
  kernel = open_kernel;
  socket = socket;
  signal = λ kind. ok 2;
  arrivals = incoming 11 ∷ [];
}

refuses_nothing :
    main sample sample_tls inside outside (ok nothing)
    ≡ record { status = exited 1; history = []; proxy = none; calls = [] }
unfolding main from_args_checked checked
refuses_nothing = refl

main-Runs_of_file :
    Runs sample sample_tls inside outside
      (ok with_file)
      (main sample sample_tls inside outside (ok with_file))
main-Runs_of_file = main-Runs sample sample_tls inside outside (λ s. refl) (ok with_file)

main-Runs_of_proxy :
    Runs sample sample_tls inside outside
      (ok proxy_alone)
      (main sample sample_tls inside outside (ok proxy_alone))
main-Runs_of_proxy = main-Runs sample sample_tls inside outside (λ s. refl) (ok proxy_alone)
