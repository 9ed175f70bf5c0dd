-- ===== src/Server.antt =====
-- chaos-tproxy-proxy/src/proxy/http/server.rs around `HttpService`: `HttpServer`, which accepts the
-- connections that iptables redirects, and the two functions that serve one connection.
-- What arrives is a list: `accept` and the receiver of the stop, as `select!` meets them. The loop
-- of `accept` and that of `serve` are one recursion on it. hyper serves a stream for a round, which
-- ends with a result and maybe with the stream and the bytes read ahead; the rounds are a list.
pub mod Spawned
pub mod Laws
pub mod Tasks
pub mod Tunnel
pub mod Connections
mod Tests
use chaos_tproxy.Prelude.{
  ℕ, Bool, true, false, List, [], ◌∷◌, Option, none, some, String, if◌then◌else◌,
}
use chaos_tproxy.Outcome.{Error, Result, ok, err, panicked, library}
use chaos_tproxy.Outcome.Effects.{Eff, ◌>>=◌, ◌>>◌, give, of_result, act}
use chaos_tproxy.External.{Http, Bytes}
use chaos_tproxy.Handler.Rule.{v4, SocketAddr}
use chaos_tproxy.Handler.Action.Uris.{joined}
use chaos_tproxy.Service.{HttpConfig, HttpService}
use chaos_tproxy.RawConfig.Tls.{Tls, TlsConfig, Config}
use chaos_tproxy.Tcp.{
  IoError, NetAct, ask_peer, ask_local, accept_tls, serve_round, connect_to, write_all,
  copy_bidirectional, spawn, Kernel, is_connection_error, TcpListener, bind, bind_listener,
  accepted,
}

pub data Arrival : Type 0 where
  incoming : ℕ → Arrival
  failure : IoError → Arrival
  signalled : Arrival

-- `Parts` of hyper: the stream, and what was read of it and not used.
pub record ConnParts : Type 0 where
  pub io : ℕ
  pub read_buf : Bytes

-- The result of a round: its error, and whether that is one of parsing.
pub data RoundResult : Type 0 where
  served : RoundResult
  broken : Bool → Error → RoundResult

pub record Round : Type 0 where
  pub r : RoundResult
  pub parts : Option ConnParts

abbrev pub Service : (h : Http) → (t : Tls) → Type 0
Service h t = HttpService h t.ClientConfig

-- What is spawned for a connection: `serve_https` with its acceptor, or
-- `serve_http_with_error_return`.
pub data Task (h : Http) (t : Tls) : Type 0 where
  https : ℕ → Service h t → t.ServerConfig → Task h t
  http : ℕ → Service h t → Task h t

pub record HttpServer (h : Http) (t : Tls) : Type 0 where
  pub config : Config h t

-- `HttpService::new`
abbrev pub new_service :
    (h : Http)
    → (t : Tls) → SocketAddr
    → SocketAddr
    → HttpConfig h
    → Option t.ClientConfig
    → Service h t
new_service h t addr_remote addr_target config tls = record {
  remote = addr_remote;
  target = addr_target;
  config = config;
  tls_client_config = tls;
}

abbrev pub unwrapped : Result (Unit {0}) → Result (Unit {0})
unwrapped (ok u) = ok u
unwrapped (err e) = err panicked

module _ (h : Http) (t : Tls) where
  -- The task for an accepted stream: TLS with the configuration for it, and plain HTTP without one.
  abbrev pub task_for :
      HttpServer h t → ℕ → SocketAddr → SocketAddr → Option (TlsConfig t) → Task h t
  task_for self stream remote local none =
      http stream (new_service h t remote local self.config.http_config none)
  task_for self stream remote local (some tls) =
      https stream
        (new_service h t remote local self.config.http_config (some tls.tls_client_config))
        tls.tls_server_config

module _ (h : Http) (t : Tls) (k : Kernel (Task h t)) where
  -- The body of the loop, from an accepted stream to the spawned task.
  unfoldable pub handle_stream : HttpServer h t → ℕ → Eff (NetAct (Task h t)) (Unit {0})
  handle_stream self stream = do
    addr_remote ← act (ask_peer stream) (λ s. k.peer_addr s stream)
    addr_local ← act (ask_local stream) (λ s. k.local_addr s stream)
    act (spawn (task_for h t self stream addr_remote addr_local self.config.tls_config))
        (λ s. ok tt)

  -- `some tt` is the return on the signal, and `none` that it still waits.
  unfoldable pub serve_from :
      HttpServer h t → TcpListener → List Arrival → Eff (NetAct (Task h t)) (Option (Unit {0}))
  serve_from self listener [] = give none
  serve_from self listener (signalled ∷ arrivals) = give (some tt)
  serve_from self listener (failure e ∷ arrivals) =
      if is_connection_error e.kind
      then serve_from self listener arrivals
      else of_result (err e.error)
  serve_from self listener (incoming stream ∷ arrivals) = do
    accepted k listener stream
    handle_stream self stream
    serve_from self listener arrivals

  -- `HttpServer::serve`
  unfoldable pub serve : HttpServer h t → List Arrival → Eff (NetAct (Task h t)) (Option (Unit {0}))
  serve self arrivals = do
    listener ← bind_listener k (record { ip = v4 0; port = self.config.http_config.listen_port })
    serve_from self listener arrivals

  -- `format!("{{ peer={},local={} }}", stream.peer_addr()?, stream.local_addr()?)`
  unfoldable pub log_key : ℕ → Eff (NetAct (Task h t)) String
  log_key stream = do
    peer ← act (ask_peer stream) (λ s. k.peer_addr s stream)
    local ← act (ask_local stream) (λ s. k.local_addr s stream)
    give (joined "{ peer=" (k.addr_text peer) (joined ",local=" (k.addr_text local) " }"))

  -- A connection that is no HTTP is handed on: a socket with the client's address connects to the
  -- target, gets what was read, and the two streams are copied into each other.
  unfoldable pub tunnel : ConnParts → Eff (NetAct (Task h t)) (Unit {0})
  tunnel part = do
    addr_target ← act (ask_local part.io) (λ s. k.local_addr s part.io)
    addr_local ← act (ask_peer part.io) (λ s. k.peer_addr s part.io)
    socket ← bind k addr_local
    client_stream ← act (connect_to socket addr_target) (λ s. k.connected s socket addr_target)
    act (write_all client_stream part.read_buf)
        (λ s. unwrapped (k.written s client_stream part.read_buf))
    act (copy_bidirectional part.io client_stream) (λ s. k.copied s part.io client_stream)

  abbrev pub finish_tunnel : Option ConnParts → Eff (NetAct (Task h t)) (Option (Unit {0}))
  finish_tunnel none = give (some tt)
  finish_tunnel (some part) = tunnel part >> give (some tt)

  -- What follows a round of plain HTTP: the next one on the stream, or the end.
  abbrev pub after_http :
      RoundResult
      → Option ConnParts
      → (ℕ → Eff (NetAct (Task h t)) (Option (Unit {0})))
      → Eff (NetAct (Task h t)) (Option (Unit {0}))
  after_http served none next = give (some tt)
  after_http served (some part) next = next part.io
  after_http (broken true e) parts next = finish_tunnel parts
  after_http (broken false e) parts next = give (some tt)

  unfoldable pub http_rounds : List Round → ℕ → Eff (NetAct (Task h t)) (Option (Unit {0}))
  http_rounds [] stream = give none
  http_rounds (round ∷ rounds) stream = do
    act (serve_round stream) (λ s. ok tt)
    after_http round.r round.parts (http_rounds rounds)

  -- `serve_http_with_error_return`
  unfoldable pub serve_http : List Round → ℕ → Eff (NetAct (Task h t)) (Option (Unit {0}))
  serve_http rounds stream = do key ← log_key stream; http_rounds rounds stream

  -- What follows a round over TLS: an error ends it, with a text of its own.
  abbrev pub after_https :
      String
      → RoundResult
      → Option ConnParts
      → (ℕ → Eff (NetAct (Task h t)) (Option (Unit {0})))
      → Eff (NetAct (Task h t)) (Option (Unit {0}))
  after_https key served none next = give (some tt)
  after_https key served (some part) next = next part.io
  after_https key (broken parse e) parts next =
      of_result (err (library (joined key ": stream block with error: " (k.error_text e))))

  unfoldable pub https_rounds :
      String → List Round → ℕ → Eff (NetAct (Task h t)) (Option (Unit {0}))
  https_rounds key [] stream = give none
  https_rounds key (round ∷ rounds) stream = do
    act (serve_round stream) (λ s. ok tt)
    after_https key round.r round.parts (https_rounds key rounds)

  -- `serve_https`
  unfoldable pub serve_https : List Round → ℕ → Eff (NetAct (Task h t)) (Option (Unit {0}))
  serve_https rounds stream = do
    key ← log_key stream
    tls_stream ← act (accept_tls stream) (λ s. k.tls_accepted s stream)
    https_rounds key rounds tls_stream
