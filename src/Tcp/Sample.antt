-- ===== src/Tcp/Sample.antt =====
-- A kernel that refuses nothing, for the examples, and its sibling without privileges.
use chaos_tproxy.Prelude.{refl}
use chaos_tproxy.Outcome.{ok, library}
use chaos_tproxy.Handler.Rule.{v4, SocketAddr}
use chaos_tproxy.Tcp.{Kernel}
use chaos_tproxy.Tcp.Laws.{Works}

abbrev pub client_addr : SocketAddr
client_addr = record { ip = v4 1; port = 5000 }

abbrev pub target_addr : SocketAddr
target_addr = record { ip = v4 2; port = 80 }

abbrev pub open_kernel : {T : Type 0} → Kernel T
open_kernel = record {
  socket = λ s. ok 3;
  setsockopt = λ s socket. 0;
  last_os_error = λ s. library "os error";
  reuse = λ s socket. ok tt;
  bound = λ s socket addr. ok tt;
  listening = λ s socket. ok 4;
  connected = λ s socket addr. ok 9;
  nodelay_set = λ s stream. ok tt;
  peer_addr = λ s stream. ok client_addr;
  local_addr = λ s stream. ok target_addr;
  tls_accepted = λ s stream. ok stream;
  written = λ s stream bytes. ok tt;
  copied = λ s x y. ok tt;
  addr_text = λ a. "addr";
  error_text = λ e. "error";
}

abbrev pub unprivileged : {T : Type 0} → Kernel T
unprivileged = record open_kernel { setsockopt = λ s socket. 1 }

pub open_kernel-Works : {T : Type 0} → Works (open_kernel {T = T})
open_kernel-Works = record {
  socket_given = λ s. (3, refl);
  option_set = λ s socket. refl;
  reuse_set = λ s socket. refl;
  bound_given = λ s socket addr. refl;
  stream_given = λ s socket addr. (9, refl);
}
