-- ===== src/Delivery/Whole/Tests.antt =====
-- A proxy process that serves one connection by a user's rule that aborts GET.
use chaos_tproxy.Prelude.{◌≡◌, refl, false, [], ◌∷◌, none, some, inl, inr, ℕ, All, Some, ap}
use chaos_tproxy.Outcome.{Result, ok}
use chaos_tproxy.External.Sample.{sample, sample_headers, sample_codes}
use chaos_tproxy.Handler.Rule.{client}
use chaos_tproxy.RawConfig.{RawConfig as ProxyRawConfig}
use chaos_tproxy.RawConfig.Convert.{to_target, to_selector, to_actions, to_rule, to_rules}
use chaos_tproxy.RawConfig.Tls.{to_config}
use chaos_tproxy.RawConfig.Tls.Sample.{sample_tls}
use chaos_tproxy.Controller.Ports.{free_from, get_free_port}
use chaos_tproxy.Controller.Net.{get_default_interface}
use chaos_tproxy.Controller.Config.{ipv4s_of, ports_text, to_proxy_config}
use chaos_tproxy.External.{Bytes}
use chaos_tproxy.Tcp.{Kernel}
use chaos_tproxy.Tcp.Sample.{open_kernel}
use chaos_tproxy.Server.{incoming, Task}
use chaos_tproxy.Uds.{UdsAct, write_all, Uds, listen_on}
use chaos_tproxy.ProxyMain.{SignalKind, proxy_main}
use chaos_tproxy.ProxyMain.Laws.{ServesFor}
use chaos_tproxy.Delivery.Whole.{Connected, ServesUser, proxy_main-ServesUser}
use chaos_tproxy.Delivery.Sample.{eth0, abort_get, raw, made, upstream}
use chaos_tproxy.Prelude.{join, show_nat}

abbrev told : ProxyRawConfig
told = record {
  proxy_ports = some "80";
  listen_port = 1025;
  safe_mode = false;
  rules = abort_get ∷ [];
  role = some (client (167772162 ∷ []));
  tls = none;
}

is_told : to_proxy_config (eth0 ∷ []) raw ≡ ok told
unfolding to_proxy_config get_default_interface ipv4s_of get_free_port free_from ports_text join
    show_nat
is_told = refl

is_converted : to_config sample_tls sample told ≡ ok made
unfolding to_config to_rules to_rule to_selector to_actions to_target
is_converted = refl

-- The socket delivers one byte, which stands for the configuration.
abbrev socket : Uds ProxyRawConfig
socket = record {
  bound = λ s path. ok 3;
  removed = λ s path. ok tt;
  connect = λ path. ok 5;
  read_to_end = λ stream buf. ok (1 ∷ []);
  to_vec = λ c. ok (1 ∷ []);
  from_slice = λ b. ok told;
}

abbrev bytes_of : UdsAct → Bytes
bytes_of (write_all stream b) = b
bytes_of a = []

is_written :
    (x : ℕ) (b : Bytes)
    → Some (λ a. ◌≡◌ {A = UdsAct} a (write_all x b)) (write_all 5 (1 ∷ []) ∷ [])
    → ◌≡◌ {A = Result Bytes} (ok (1 ∷ [])) (ok b)
is_written x b (inl same) = ap (λ a. ok (bytes_of a)) same
is_written x b (inr none_else) = elim none_else [ ]

abbrev kernel : Kernel (Task sample sample_tls)
kernel = open_kernel

registers : (kind : SignalKind) → (n : ℕ) × (◌≡◌ {A = Result ℕ} (ok 2) (ok n))
registers kind = (2, refl)

links_both : Connected socket (record { payload = told; path = "/tmp/a.sock" })
unfolding listen_on
links_both = record {
  answers = ok 5 ∷ [];
  stream = 5;
  buf = 1 ∷ [];
  written = refl;
  reads_back = refl;
  connected = refl;
  is_accepted = inl refl;
  delivers = is_written;
}

proxy_main-ServesUser_example :
    All
      (ServesUser sample sample_tls sample_headers sample_codes upstream (eth0 ∷ []) raw)
      (proxy_main sample sample_tls kernel socket
        (λ kind. ok 2)
        "/tmp/a.sock"
        (incoming 11 ∷ [])
        []).1
    × ServesFor sample sample_tls kernel socket made (incoming 11 ∷ []) (
        proxy_main sample sample_tls kernel socket
          (λ kind. ok 2)
          "/tmp/a.sock"
          (incoming 11 ∷ [])
          [])
proxy_main-ServesUser_example =
    proxy_main-ServesUser sample sample_tls sample_headers sample_codes upstream (eth0 ∷ []) raw
      kernel socket told made "/tmp/a.sock" is_told is_converted links_both (λ kind. ok 2)
      (incoming 11 ∷ []) registers
