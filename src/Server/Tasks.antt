-- ===== src/Server/Tasks.antt =====
-- For whom the server's tasks work.
use chaos_tproxy.Prelude.{
  ℕ, ◌≡◌, refl, true, Bool-cases, inl, inr, List, [], ◌∷◌, ◌++◌, Option, none, some, All,
  All-append,
}
use chaos_tproxy.Outcome.{ok}
use chaos_tproxy.Outcome.Effects.{Eff, ◌>>=◌, ◌>>◌, give, act, Always-answer, Always-part}
use chaos_tproxy.External.{Http}
use chaos_tproxy.Handler.Rule.{v4, SocketAddr}
use chaos_tproxy.RawConfig.Tls.{Tls, TlsConfig}
use chaos_tproxy.Tcp.{
  NetAct, ask_peer, ask_local, nodelay, spawn, Kernel, is_connection_error, TcpListener, listen,
  set_ip_transparent, set_socket, bind, bind_listener, new_socket, set_transparent, set_reuseaddr,
  bind_addr,
}
use chaos_tproxy.Server.{
  Arrival, incoming, failure, signalled, Task, https, http, HttpServer, Service, task_for,
  handle_stream, serve_from, serve,
}
use chaos_tproxy.Server.Spawned.{stream_of, accepted-nodelay}

module _ (h : Http) (t : Tls) where
  -- The task of a connection, from the configuration of the server: over TLS exactly if there is a
  -- configuration for it, whose client side the service gets.
  abbrev pub FitsTls : Option (TlsConfig t) → Task h t → Type 0
  FitsTls none (http stream service) = service.tls_client_config ≡ none
  FitsTls (some tls) (http stream service) = ⊥
  FitsTls none (https stream service config) = ⊥
  FitsTls (some tls) (https stream service config) =
      (service.tls_client_config ≡ some tls.tls_client_config) × (config ≡ tls.tls_server_config)

  abbrev pub service_of : Task h t → Service h t
  service_of (http stream service) = service
  service_of (https stream service config) = service

module _ (h : Http) (t : Tls) (k : Kernel (Task h t)) where
  -- A task serves its connection between the two addresses that the kernel gave for it.
  pub record IsFor (self : HttpServer h t) (task : Task h t) : Type 0 where
    pub fits_tls : FitsTls h t self.config.tls_config task
    pub rules : (service_of h t task).config ≡ self.config.http_config
    pub asked : List (NetAct (Task h t))
    pub peer : k.peer_addr asked (stream_of h t task) ≡ ok (service_of h t task).remote
    pub asked_next : List (NetAct (Task h t))
    pub local : k.local_addr asked_next (stream_of h t task) ≡ ok (service_of h t task).target

  abbrev pub SpawnsFor : HttpServer h t → NetAct (Task h t) → Type 0
  SpawnsFor self (spawn task) = IsFor self task
  SpawnsFor self _ = Unit

  task_for-IsFor :
      (self : HttpServer h t) (tls : Option (TlsConfig t)) (stream : ℕ) (remote local : SocketAddr)
      (s s' : List (NetAct (Task h t)))
      → self.config.tls_config ≡ tls
      → k.peer_addr s stream ≡ ok remote
      → k.local_addr s' stream ≡ ok local
      → IsFor self (task_for h t self stream remote local tls)
  task_for-IsFor self none stream remote local s s' e peer here = record {
    fits_tls = rw e refl;
    rules = refl;
    asked = s;
    peer = peer;
    asked_next = s';
    local = here;
  }
  task_for-IsFor self (some tls) stream remote local s s' e peer here = record {
    fits_tls = rw e (refl, refl);
    rules = refl;
    asked = s;
    peer = peer;
    asked_next = s';
    local = here;
  }

  Fine : HttpServer h t → List (NetAct (Task h t)) → Type 0
  Fine self s = All (SpawnsFor self) s

  handle_stream-SpawnsFor :
      (self : HttpServer h t) (stream : ℕ) (s : List (NetAct (Task h t)))
      → Fine self s
      → Fine self (handle_stream h t k self stream s).1
  unfolding Fine handle_stream
  handle_stream-SpawnsFor self stream s fine =
      let Acts : Type 0 = List (NetAct (Task h t)) in
      let tls : Option (TlsConfig t) = self.config.tls_config in
      let P : NetAct (Task h t) → Type 0 = SpawnsFor self in
      let s₁ : Acts = s ++ ask_peer stream ∷ [] in
      let s₂ : Acts = s₁ ++ ask_local stream ∷ [] in
      let fine₁ : All P s₁ = All-append P s (ask_peer stream ∷ []) fine (tt, tt) in
      let fine₂ : All P s₂ = All-append P s₁ (ask_local stream ∷ []) fine₁ (tt, tt) in
      let last : SocketAddr → SocketAddr → Eff (NetAct (Task h t)) (Unit {0}) =
        λ remote local. act (spawn (task_for h t self stream remote local tls)) (λ x. ok tt) in
      Always-answer (All P) (k.peer_addr s stream) s₁
        (λ remote. act (ask_local stream) (λ x. k.local_addr x stream) >>= last remote) fine₁
        (λ remote e.
          Always-answer (All P) (k.local_addr s₁ stream) s₂ (last remote) fine₂ (λ local e'.
            All-append P s₂ (spawn (task_for h t self stream remote local tls) ∷ []) fine₂
              (task_for-IsFor self tls stream remote local s s₁ refl e e', tt)))

  serve_from-SpawnsFor :
      (self : HttpServer h t) (listener : TcpListener) (arrivals : List Arrival)
      (s : List (NetAct (Task h t)))
      → Fine self s
      → Fine self (serve_from h t k self listener arrivals s).1
  unfolding serve_from Fine
  serve_from-SpawnsFor self listener [] s fine = fine
  serve_from-SpawnsFor self listener (signalled ∷ arrivals) s fine = fine
  serve_from-SpawnsFor self listener (failure e ∷ arrivals) s fine =
      elim (Bool-cases (is_connection_error e.kind)) [
        | inl passed ↦ rw passed (serve_from-SpawnsFor self listener arrivals s fine)
        | inr fatal ↦ rw fatal fine
      ]
  serve_from-SpawnsFor self listener (incoming stream ∷ arrivals) s fine =
      let s₁ : List (NetAct (Task h t)) = s ++ nodelay stream listener.tcp_nodelay ∷ [] in
      rw (accepted-nodelay h t k listener stream s) (
        Always-part (Fine self) (handle_stream h t k self stream s₁)
          (λ u. serve_from h t k self listener arrivals)
          (handle_stream-SpawnsFor self stream s₁ (
            All-append (SpawnsFor self) s (nodelay stream listener.tcp_nodelay ∷ []) fine (tt, tt)))
          (λ u s₂ fine₂. serve_from-SpawnsFor self listener arrivals s₂ fine₂))

  set_socket-SpawnsFor :
      (self : HttpServer h t) (s : List (NetAct (Task h t)))
      → Fine self s
      → Fine self (set_socket k s).1
  unfolding Fine set_socket set_ip_transparent
  set_socket-SpawnsFor self s fine =
      let Acts : Type 0 = List (NetAct (Task h t)) in
      let P : NetAct (Task h t) → Type 0 = SpawnsFor self in
      let s₁ : Acts = s ++ new_socket ∷ [] in
      let fine₁ : All P s₁ = All-append P s (new_socket ∷ []) fine (tt, tt) in
      let reuse : ℕ → Eff (NetAct (Task h t)) ℕ =
        λ socket. act (set_reuseaddr socket true) (λ x. k.reuse x socket) >> give socket in
      Always-answer (All P) (k.socket s) s₁ (λ socket. set_ip_transparent k socket >> reuse socket)
        fine₁
        (λ socket e.
          let s₂ : Acts = s₁ ++ set_transparent socket ∷ [] in
          let s₃ : Acts = s₂ ++ set_reuseaddr socket true ∷ [] in
          let fine₂ : All P s₂ = All-append P s₁ (set_transparent socket ∷ []) fine₁ (tt, tt) in
          let fine₃ : All P s₃ = All-append P s₂ (set_reuseaddr socket true ∷ []) fine₂ (tt, tt) in
          Always-answer (All P) _ s₂ (λ u. reuse socket) fine₂
            (λ u e'.
              Always-answer (All P) (k.reuse s₂ socket) s₃ (λ u. give socket) fine₃
                (λ u e''. fine₃)))

  bind_listener-SpawnsFor :
      (self : HttpServer h t) (addr : SocketAddr) (s : List (NetAct (Task h t)))
      → Fine self s
      → Fine self (bind_listener k addr s).1
  unfolding Fine bind_listener bind
  bind_listener-SpawnsFor self addr s fine =
      let P : NetAct (Task h t) → Type 0 = SpawnsFor self in
      let use_ : ℕ → Eff (NetAct (Task h t)) TcpListener =
        λ listener. give (record { listener = listener; tcp_nodelay = true }) in
      let open_ : ℕ → Eff (NetAct (Task h t)) TcpListener =
        λ socket. act (listen socket 1024) (λ x. k.listening x socket) >>= use_ in
      let name : ℕ → Eff (NetAct (Task h t)) ℕ =
        λ socket. act (bind_addr socket addr) (λ x. k.bound x socket addr) >> give socket in
      Always-part (All P) (bind k addr s) open_
        (Always-part (All P) (set_socket k s) name (set_socket-SpawnsFor self s fine)
          (λ socket s₁ fine₁.
            let fine₂ = All-append P s₁ (bind_addr socket addr ∷ []) fine₁ (tt, tt) in
            Always-answer (All P) (k.bound s₁ socket addr) (s₁ ++ bind_addr socket addr ∷ [])
              (λ u. give socket) fine₂ (λ u e. fine₂)))
        (λ socket s₁ fine₁.
          let fine₂ = All-append P s₁ (listen socket 1024 ∷ []) fine₁ (tt, tt) in
          Always-answer (All P) (k.listening s₁ socket) (s₁ ++ listen socket 1024 ∷ []) use_ fine₂
            (λ listener e. fine₂))

  -- Whatever arrives and whether the server fails or not, each task that it spawns serves its
  -- connection between the two addresses that the kernel gave for that connection, with the rules
  -- of the configuration, and over TLS exactly if the configuration has it.
  pub serve-SpawnsFor :
      (self : HttpServer h t) (arrivals : List Arrival) (s : List (NetAct (Task h t)))
      → All (SpawnsFor self) s
      → All (SpawnsFor self) (serve h t k self arrivals s).1
  unfolding serve Fine
  serve-SpawnsFor self arrivals s fine =
      let addr : SocketAddr = record { ip = v4 0; port = self.config.http_config.listen_port } in
      Always-part (Fine self) (bind_listener k addr s)
        (λ listener. serve_from h t k self listener arrivals)
        (bind_listener-SpawnsFor self addr s fine)
        (λ listener s₁ fine₁. serve_from-SpawnsFor self listener arrivals s₁ fine₁)
