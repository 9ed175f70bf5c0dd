-- ===== src/Tcp.antt =====
-- chaos-tproxy-proxy/src/proxy/tcp/transparent_socket.rs and listener.rs, and
-- chaos-tproxy-proxy/src/proxy/http/connector.rs: sockets that carry foreign addresses.
-- What the kernel answers is a parameter; a socket and a stream are their descriptors.
pub mod Laws
pub mod Sample
mod Tests
use chaos_tproxy.Prelude.{ℕ, Bool, true, false, List, String, if◌then◌else◌, ◌==◌}
use chaos_tproxy.Outcome.{Error, Result, ok, err}
use chaos_tproxy.Outcome.Effects.{Eff, ◌>>=◌, ◌>>◌, give, act, recover}
use chaos_tproxy.External.{Bytes}
use chaos_tproxy.Handler.Rule.{SocketAddr}

-- `io::ErrorKind`: those that the source tells apart.
pub data ErrorKind : Type 0 where
  connection_refused connection_aborted connection_reset other : ErrorKind

pub record IoError : Type 0 where
  pub kind : ErrorKind
  pub error : Error

-- A call into the kernel or into tokio; `T` are the tasks that may be spawned.
pub data NetAct (T : Type 0) : Type 0 where
  new_socket : NetAct T
  set_transparent : ℕ → NetAct T
  set_reuseaddr : ℕ → Bool → NetAct T
  bind_addr : ℕ → SocketAddr → NetAct T
  listen : ℕ → ℕ → NetAct T
  connect_to : ℕ → SocketAddr → NetAct T
  nodelay : ℕ → Bool → NetAct T
  ask_peer ask_local : ℕ → NetAct T
  accept_tls serve_round : ℕ → NetAct T
  write_all : ℕ → Bytes → NetAct T
  copy_bidirectional : ℕ → ℕ → NetAct T
  spawn : T → NetAct T

-- The answers, each from all the calls before it. `setsockopt` is the returned code.
pub record Kernel (T : Type 0) : Type 0 where
  pub socket : List (NetAct T) → Result ℕ
  pub setsockopt : List (NetAct T) → ℕ → ℕ
  pub last_os_error : List (NetAct T) → Error
  pub reuse : List (NetAct T) → ℕ → Result (Unit {0})
  pub bound : List (NetAct T) → ℕ → SocketAddr → Result (Unit {0})
  pub listening : List (NetAct T) → ℕ → Result ℕ
  pub connected : List (NetAct T) → ℕ → SocketAddr → Result ℕ
  pub nodelay_set : List (NetAct T) → ℕ → Result (Unit {0})
  pub peer_addr : List (NetAct T) → ℕ → Result SocketAddr
  pub local_addr : List (NetAct T) → ℕ → Result SocketAddr
  pub tls_accepted : List (NetAct T) → ℕ → Result ℕ
  pub written : List (NetAct T) → ℕ → Bytes → Result (Unit {0})
  pub copied : List (NetAct T) → ℕ → ℕ → Result (Unit {0})
  -- `Display` of addresses and errors.
  pub addr_text : SocketAddr → String
  pub error_text : Error → String

-- `is_connection_error`
abbrev pub is_connection_error : ErrorKind → Bool
is_connection_error connection_refused = true
is_connection_error connection_aborted = true
is_connection_error connection_reset = true
is_connection_error other = false

-- `HttpConnector`; its `TransparentSocket` is the address that it binds.
pub record HttpConnector : Type 0 where
  pub target : SocketAddr
  pub socket : SocketAddr

unfoldable pub new_connector : SocketAddr → SocketAddr → HttpConnector
new_connector dst src = record { target = dst; socket = src }

pub record TcpListener : Type 0 where
  pub listener : ℕ
  pub tcp_nodelay : Bool

unfoldable pub set_nodelay : TcpListener → Bool → TcpListener
set_nodelay self enabled = record self { tcp_nodelay = enabled }

module _ {T : Type 0} (k : Kernel T) where
  -- `set_ip_transparent`: a code that is not 0 is an error.
  unfoldable pub set_ip_transparent : ℕ → Eff (NetAct T) (Unit {0})
  set_ip_transparent socket =
      act (set_transparent socket)
        (λ s. if k.setsockopt s socket == 0 then ok tt else err (k.last_os_error s))

  -- `set_socket`
  unfoldable pub set_socket : Eff (NetAct T) ℕ
  set_socket = do
    socket ← act new_socket k.socket
    set_ip_transparent socket
    act (set_reuseaddr socket true) (λ s. k.reuse s socket)
    give socket

  -- `TransparentSocket::bind`
  unfoldable pub bind : SocketAddr → Eff (NetAct T) ℕ
  bind addr = do
    socket ← set_socket
    act (bind_addr socket addr) (λ s. k.bound s socket addr)
    give socket

  -- `TransparentSocket::conn`
  unfoldable pub conn : SocketAddr → SocketAddr → Eff (NetAct T) ℕ
  conn addr dist = do
    socket ← set_socket
    act (bind_addr socket addr) (λ s. k.bound s socket addr)
    act (connect_to socket dist) (λ s. k.connected s socket dist)

  -- `HttpConnector::connect`
  unfoldable pub connect : HttpConnector → Eff (NetAct T) ℕ
  connect self = conn self.socket self.target

  -- `TcpListener::bind`
  unfoldable pub bind_listener : SocketAddr → Eff (NetAct T) TcpListener
  bind_listener addr = do
    socket ← bind addr
    listener ← act (listen socket 1024) (λ s. k.listening s socket)
    give (record { listener = listener; tcp_nodelay = true })

  -- The stream that `TcpListener::accept` returns: a failure to set its option is logged.
  unfoldable pub accepted : TcpListener → ℕ → Eff (NetAct T) (Unit {0})
  accepted self stream =
      recover (act (nodelay stream self.tcp_nodelay) (λ s. k.nodelay_set s stream)) tt
