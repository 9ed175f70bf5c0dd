-- ===== src/Server/Spawned.antt =====
-- What the server spawns for what arrives.
use chaos_tproxy.Prelude.{
  ℕ, ◌≡◌, refl, ◌∙◌, sym, ap, true, Bool-cases, inl, inr, List, [], ◌∷◌, ◌++◌, append_assoc,
  append-nil, Option, none, some, if◌then◌else◌,
}
use chaos_tproxy.Outcome.{ok}
use chaos_tproxy.Outcome.Effects.{
  Eff, ◌>>=◌, give, act, recovered_tt, OnOk, OnOk-weaken, OnOk-part, OnOk-answer,
}
use chaos_tproxy.External.{Http}
use chaos_tproxy.Handler.Rule.{v4, SocketAddr}
use chaos_tproxy.RawConfig.Tls.{Tls, TlsConfig}
use chaos_tproxy.Tcp.{
  NetAct, ask_peer, ask_local, nodelay, spawn, Kernel, is_connection_error, TcpListener, accepted,
  listen, bind, bind_listener,
}
use chaos_tproxy.Tcp.Laws.{Adds, opened, bind-opened}
use chaos_tproxy.Server.{
  Arrival, incoming, failure, signalled, Task, https, http, HttpServer, task_for, handle_stream,
  serve_from, serve,
}

-- The connections that arrive until the signal, or until an error that is not of a connection.
abbrev pub arrived : List Arrival → List ℕ
arrived [] = []
arrived (signalled ∷ arrivals) = []
arrived (failure e ∷ arrivals) = if is_connection_error e.kind then arrived arrivals else []
arrived (incoming stream ∷ arrivals) = stream ∷ arrived arrivals

-- Whether the signal comes, after what may be passed over.
abbrev pub ending : List Arrival → Option (Unit {0})
ending [] = none
ending (signalled ∷ arrivals) = some tt
ending (failure e ∷ arrivals) = if is_connection_error e.kind then ending arrivals else none
ending (incoming stream ∷ arrivals) = ending arrivals

module _ (h : Http) (t : Tls) where
  abbrev pub stream_of : Task h t → ℕ
  stream_of (http stream service) = stream
  stream_of (https stream service config) = stream

  -- The streams that tasks were spawned for.
  abbrev pub spawned : List (NetAct (Task h t)) → List ℕ
  spawned [] = []
  spawned (spawn task ∷ s) = stream_of task ∷ spawned s
  spawned (_ ∷ s) = spawned s

  pub spawned-append :
      (s s' : List (NetAct (Task h t))) → spawned (s ++ s') ≡ spawned s ++ spawned s'
  spawned-append [] s' = refl
  spawned-append (spawn task ∷ s) s' = ap (◌∷◌ (stream_of task)) (spawned-append s s')
  spawned-append (a ∷ s) s' = spawned-append s s'

  pub task_for-stream :
      (self : HttpServer h t) (tls : Option (TlsConfig t)) (stream : ℕ) (remote local : SocketAddr)
      → stream_of (task_for h t self stream remote local tls) ≡ stream
  task_for-stream self none stream remote local = refl
  task_for-stream self (some tls) stream remote local = refl

module _ (h : Http) (t : Tls) (k : Kernel (Task h t)) where
  pub handle_stream-spawned :
      (self : HttpServer h t) (stream : ℕ) (s : List (NetAct (Task h t)))
      → OnOk
          (λ u s'. spawned h t s' ≡ spawned h t s ++ stream ∷ [])
          (handle_stream h t k self stream s)
  unfolding handle_stream
  handle_stream-spawned self stream s =
      let Acts : Type 0 = List (NetAct (Task h t)) in
      let Post : Unit {0} → Acts → Type 0 = λ u s'. spawned h t s' ≡ spawned h t s ++ stream ∷ [] in
      let tls : Option (TlsConfig t) = self.config.tls_config in
      let s₁ : Acts = s ++ ask_peer stream ∷ [] in
      let s₂ : Acts = s₁ ++ ask_local stream ∷ [] in
      let last : SocketAddr → SocketAddr → Eff (NetAct (Task h t)) (Unit {0}) =
        λ remote local. act (spawn (task_for h t self stream remote local tls)) (λ x. ok tt) in
      OnOk-answer Post (k.peer_addr s stream) s₁
        (λ remote. act (ask_local stream) (λ x. k.local_addr x stream) >>= last remote)
        (λ remote e. OnOk-answer Post (k.local_addr s₁ stream) s₂ (last remote) (λ local e'.
          spawned-append h t s₂ _
          ∙ (ap (λ x. x ++ stream_of h t (task_for h t self stream remote local tls) ∷ [])
                (spawned-append h t s₁ _ ∙ (append-nil _ ∙ (spawned-append h t s _ ∙ append-nil _)))
              ∙ ap (λ x. spawned h t s ++ x ∷ [])
                  (task_for-stream h t self tls stream remote local))))

  pub accepted-nodelay :
      (listener : TcpListener) (stream : ℕ) (s : List (NetAct (Task h t)))
      → accepted k listener stream s ≡ (ok tt, s ++ nodelay stream listener.tcp_nodelay ∷ [])
  unfolding accepted
  accepted-nodelay listener stream s = recovered_tt (k.nodelay_set s stream) _

  serve_from-spawned :
      (self : HttpServer h t) (listener : TcpListener) (arrivals : List Arrival)
      (s : List (NetAct (Task h t)))
      → OnOk
          (λ end s'. (spawned h t s' ≡ spawned h t s ++ arrived arrivals) × (end ≡ ending arrivals))
          (serve_from h t k self listener arrivals s)
  unfolding serve_from
  serve_from-spawned self listener [] s = (sym (append-nil _), refl)
  serve_from-spawned self listener (signalled ∷ arrivals) s = (sym (append-nil _), refl)
  serve_from-spawned self listener (failure e ∷ arrivals) s =
      elim (Bool-cases (is_connection_error e.kind)) [
        | inl passed ↦ rw passed (serve_from-spawned self listener arrivals s)
        | inr fatal ↦ rw fatal tt
      ]
  serve_from-spawned self listener (incoming stream ∷ arrivals) s =
      let Acts : Type 0 = List (NetAct (Task h t)) in
      let Post : Option (Unit {0}) → Acts → Type 0 = λ end s'.
        (spawned h t s' ≡ spawned h t s ++ stream ∷ arrived arrivals) × (end ≡ ending arrivals) in
      let s₁ : Acts = s ++ nodelay stream listener.tcp_nodelay ∷ [] in
      rw (accepted-nodelay listener stream s) (
        OnOk-part (λ u s'. spawned h t s' ≡ spawned h t s₁ ++ stream ∷ []) Post
          (handle_stream h t k self stream s₁) (λ u. serve_from h t k self listener arrivals)
          (handle_stream-spawned self stream s₁)
          (λ u s₂ e.
            let done : spawned h t s₂ ≡ spawned h t s ++ stream ∷ [] =
              e ∙ ap (λ x. x ++ stream ∷ []) (spawned-append h t s _ ∙ append-nil _) in
            OnOk-weaken
              (λ end s'.
                (spawned h t s' ≡ spawned h t s₂ ++ arrived arrivals) × (end ≡ ending arrivals))
              Post (serve_from h t k self listener arrivals s₂)
              (λ end s' (p, q). (
                p
                    ∙ (ap (λ x. x ++ arrived arrivals) done
                        ∙ append_assoc (spawned h t s) (stream ∷ []) (arrived arrivals)),
                q,
              ))
              (serve_from-spawned self listener arrivals s₂)))

  pub bind_listener-spawned :
      (addr : SocketAddr) (s : List (NetAct (Task h t)))
      → OnOk (λ listener s'. spawned h t s' ≡ spawned h t s) (bind_listener k addr s)
  unfolding bind_listener
  bind_listener-spawned addr s =
      let Post : TcpListener → List (NetAct (Task h t)) → Type 0 =
        λ listener s'. spawned h t s' ≡ spawned h t s in
      let rest : ℕ → Eff (NetAct (Task h t)) TcpListener = λ socket.
        act (listen socket 1024) (λ x. k.listening x socket) >>= λ listener.
        give (record { listener = listener; tcp_nodelay = true }) in
      OnOk-part (Adds s (λ socket. opened socket addr)) Post (bind k addr s) rest
        (bind-opened k addr s)
        (λ socket s₁ e.
          OnOk-answer Post (k.listening s₁ socket) (s₁ ++ listen socket 1024 ∷ []) _ (λ listener e'.
            spawned-append h t s₁ _
            ∙ (append-nil _ ∙ (ap (spawned h t) e ∙ (spawned-append h t s _ ∙ append-nil _)))))

  -- A server that has not failed has spawned one task for each connection that arrived before the
  -- signal, in the order of arrival, whatever connections failed in between; it has returned
  -- exactly if the signal came, and otherwise still waits.
  pub serve-spawned :
      (self : HttpServer h t) (arrivals : List Arrival) (s : List (NetAct (Task h t)))
      → OnOk
          (λ end s'. (spawned h t s' ≡ spawned h t s ++ arrived arrivals) × (end ≡ ending arrivals))
          (serve h t k self arrivals s)
  unfolding serve
  serve-spawned self arrivals s =
      let addr : SocketAddr = record { ip = v4 0; port = self.config.http_config.listen_port } in
      let Post : Option (Unit {0}) → List (NetAct (Task h t)) → Type 0 =
        λ end s'. (spawned h t s' ≡ spawned h t s ++ arrived arrivals) × (end ≡ ending arrivals) in
      OnOk-part (λ listener s'. spawned h t s' ≡ spawned h t s) Post (bind_listener k addr s)
        (λ listener. serve_from h t k self listener arrivals) (bind_listener-spawned addr s)
        (λ listener s₁ e.
          OnOk-weaken
            (λ end s'.
              (spawned h t s' ≡ spawned h t s₁ ++ arrived arrivals) × (end ≡ ending arrivals))
            Post (serve_from h t k self listener arrivals s₁)
            (λ end s' (p, q). (p ∙ ap (λ x. x ++ arrived arrivals) e, q))
            (serve_from-spawned self listener arrivals s₁))
