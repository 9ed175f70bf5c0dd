-- ===== src/Server/Laws.antt =====
-- When the server fails, and what it has spawned by then.
use chaos_tproxy.Prelude.{
  ℕ, ◌≡◌, refl, ◌∙◌, sym, ap, subst, true, false, Bool-cases, inl, inr, ◌⊎◌, List, [], ◌∷◌, ◌++◌,
  append_assoc, append-nil, Option, none, some, if◌then◌else◌,
}
use chaos_tproxy.Outcome.{Error, ok, err}
use chaos_tproxy.Outcome.Effects.{
  Eff, ◌>>=◌, act, OnOk, OnErr, OnErr-weaken, OnErr-itself, OnErr-part, OnErr-answer,
}
use chaos_tproxy.External.{Http}
use chaos_tproxy.Handler.Rule.{v4, SocketAddr}
use chaos_tproxy.RawConfig.Tls.{Tls}
use chaos_tproxy.Tcp.{
  IoError, NetAct, ask_peer, ask_local, nodelay, spawn, Kernel, is_connection_error, TcpListener,
  bind_listener,
}
use chaos_tproxy.Server.{
  Arrival, incoming, failure, signalled, Task, HttpServer, task_for, handle_stream, serve_from,
  serve,
}
use chaos_tproxy.Server.Spawned.{
  arrived, ending, spawned, spawned-append, handle_stream-spawned, accepted-nodelay,
  bind_listener-spawned, serve-spawned,
}

-- The first error of `accept` before the signal that is not of a single connection.
abbrev pub fatal : List Arrival → Option Error
fatal [] = none
fatal (signalled ∷ arrivals) = none
fatal (failure e ∷ arrivals) = if is_connection_error e.kind then fatal arrivals else some e.error
fatal (incoming stream ∷ arrivals) = fatal arrivals

module _ (h : Http) (t : Tls) (k : Kernel (Task h t)) where
  -- One of the two addresses of the stream was asked for and refused.
  abbrev pub Refused : ℕ → Error → Type 0
  Refused stream e =
      (asked : List (NetAct (Task h t))) × ((k.peer_addr asked stream ≡ err e)
        ⊎ (k.local_addr asked stream ≡ err e))

  -- The loop ends with an error, from the connections that had tasks before it: at an error of
  -- `accept`, behind a task for each connection that arrived before, or at the first connection
  -- whose addresses are refused, behind a task for each one before it.
  abbrev pub Stops : List Arrival → List ℕ → Error → List (NetAct (Task h t)) → Type 0
  Stops arrivals base e s =
      ((spawned h t s ≡ base ++ arrived arrivals) × (fatal arrivals ≡ some e))
      ⊎ ((earlier : List ℕ) × (stream : ℕ) × (later : List ℕ) × (arrived arrivals
            ≡ earlier ++ stream ∷ later)
          × (spawned h t s ≡ base ++ earlier)
          × Refused stream e)

  handle_stream-fails :
      (self : HttpServer h t) (stream : ℕ) (s : List (NetAct (Task h t)))
      → OnErr
          (λ e s'. (spawned h t s' ≡ spawned h t s) × Refused stream e)
          (handle_stream h t k self stream s)
  unfolding handle_stream
  handle_stream-fails self stream s =
      let Acts : Type 0 = List (NetAct (Task h t)) in
      let Post : Error → Acts → Type 0 =
        λ e s'. (spawned h t s' ≡ spawned h t s) × Refused stream e in
      let s₁ : Acts = s ++ ask_peer stream ∷ [] in
      let s₂ : Acts = s₁ ++ ask_local stream ∷ [] in
      let last : SocketAddr → SocketAddr → Eff (NetAct (Task h t)) (Unit {0}) = λ remote local.
        act (spawn (task_for h t self stream remote local self.config.tls_config)) (λ x. ok tt) in
      let same₁ : spawned h t s₁ ≡ spawned h t s = spawned-append h t s _ ∙ append-nil _ in
      OnErr-answer Post (k.peer_addr s stream) s₁
        (λ remote. act (ask_local stream) (λ x. k.local_addr x stream) >>= last remote)
        (λ e refused. (same₁, (s, inl refused)))
        (λ remote e.
          OnErr-answer Post (k.local_addr s₁ stream) s₂ (last remote)
            (λ e refused. (spawned-append h t s₁ _ ∙ (append-nil _ ∙ same₁), (s₁, inr refused)))
            (λ local e'. tt))

  -- The loop behind one more connection.
  Stops-later :
      (stream : ℕ) (arrivals : List Arrival) (base : List ℕ) (e : Error)
      (s : List (NetAct (Task h t)))
      → Stops arrivals (base ++ stream ∷ []) e s
      → Stops (incoming stream ∷ arrivals) base e s
  Stops-later stream arrivals base e s (inl (tasks, found)) =
      inl (tasks ∙ append_assoc base (stream ∷ []) (arrived arrivals), found)
  Stops-later stream arrivals base e s (inr (earlier, gone, later, order, tasks, refused)) = inr (
    stream ∷ earlier,
    gone,
    later,
    ap (◌∷◌ stream) order,
    tasks ∙ append_assoc base (stream ∷ []) earlier,
    refused,
  )

  Stops-passed :
      (f : IoError) (arrivals : List Arrival) (base : List ℕ)
      → is_connection_error f.kind ≡ true
      → (e : Error) (s : List (NetAct (Task h t))) → Stops arrivals base e s
      → Stops (failure f ∷ arrivals) base e s
  Stops-passed f arrivals base passed e s stops = rw passed stops

  Stops-fatal :
      (f : IoError) (arrivals : List Arrival) (s : List (NetAct (Task h t)))
      → is_connection_error f.kind ≡ false
      → Stops (failure f ∷ arrivals) (spawned h t s) f.error s
  Stops-fatal f arrivals s fatal_ = rw fatal_ (inl (sym (append-nil _), refl))

  serve_from-Stops :
      (self : HttpServer h t) (listener : TcpListener) (arrivals : List Arrival)
      (s : List (NetAct (Task h t)))
      → OnErr (Stops arrivals (spawned h t s)) (serve_from h t k self listener arrivals s)
  unfolding serve_from
  serve_from-Stops self listener [] s = tt
  serve_from-Stops self listener (signalled ∷ arrivals) s = tt
  serve_from-Stops self listener (failure e ∷ arrivals) s =
      elim (Bool-cases (is_connection_error e.kind)) [
        | inl passed ↦ rw passed (
            OnErr-weaken (Stops arrivals (spawned h t s))
              (Stops (failure e ∷ arrivals) (spawned h t s))
              (serve_from h t k self listener arrivals s)
              (Stops-passed e arrivals (spawned h t s) passed)
              (serve_from-Stops self listener arrivals s))
        | inr fatal_ ↦ rw fatal_ (Stops-fatal e arrivals s fatal_)
      ]
  serve_from-Stops self listener (incoming stream ∷ arrivals) s =
      let s₁ : List (NetAct (Task h t)) = s ++ nodelay stream listener.tcp_nodelay ∷ [] in
      let Post : Error → List (NetAct (Task h t)) → Type 0 =
        Stops (incoming stream ∷ arrivals) (spawned h t s) in
      let same : spawned h t s₁ ≡ spawned h t s = spawned-append h t s _ ∙ append-nil _ in
      rw (accepted-nodelay h t k listener stream s) (
        OnErr-part (λ u s'. spawned h t s' ≡ spawned h t s₁ ++ stream ∷ []) Post
          (handle_stream h t k self stream s₁) (λ u. serve_from h t k self listener arrivals)
          (handle_stream-spawned h t k self stream s₁)
          (OnErr-weaken (λ e s'. (spawned h t s' ≡ spawned h t s₁) × Refused stream e) Post
            (handle_stream h t k self stream s₁)
            (λ e s' (tasks, refused).
              inr (
                [],
                stream,
                arrived arrivals,
                refl,
                (tasks ∙ (same ∙ sym (append-nil _))),
                refused,
              ))
            (handle_stream-fails self stream s₁))
          (λ u s₂ tasks.
            let tasks' = tasks ∙ ap (λ x. x ++ stream ∷ []) same in
            OnErr-weaken (Stops arrivals (spawned h t s₂)) Post
              (serve_from h t k self listener arrivals s₂)
              (λ e s' stops.
                Stops-later stream arrivals (spawned h t s) e s'
                  (subst (λ base. Stops arrivals base e s') tasks' stops))
              (serve_from-Stops self listener arrivals s₂)))

  -- What an error of the whole server means: its socket could not be bound and listened on, or the
  -- loop ended with it.
  abbrev pub Fails :
      HttpServer h t
      → List Arrival
      → List (NetAct (Task h t))
      → Error
      → List (NetAct (Task h t))
      → Type 0
  Fails self arrivals s e s' =
      (bind_listener k (record { ip = v4 0; port = self.config.http_config.listen_port }) s
        ≡ (err e, s'))
      ⊎ Stops arrivals (spawned h t s) e s'

  -- Whatever the kernel answers and whatever arrives: a server that does not fail has spawned one
  -- task for each connection that arrived before the signal, in order, and has returned exactly if
  -- the signal came, and else still waits. It fails in three ways only: its socket is not bound or
  -- listened on; `accept` gives an error that is not of a single connection, behind one task for
  -- each connection before it, in order; or a connection's peer or local address is refused, behind
  -- one task for each connection before that one. Errors of single connections in `accept` never
  -- end it.
  pub serve-Ends :
      (self : HttpServer h t) (arrivals : List Arrival) (s : List (NetAct (Task h t)))
      → OnOk
          (λ end s'. (spawned h t s' ≡ spawned h t s ++ arrived arrivals) × (end ≡ ending arrivals))
          (serve h t k self arrivals s)
        × OnErr (Fails self arrivals s) (serve h t k self arrivals s)
  unfolding serve
  serve-Ends self arrivals s =
      let addr : SocketAddr = record { ip = v4 0; port = self.config.http_config.listen_port } in
      (
        serve-spawned h t k self arrivals s,
        OnErr-part (λ listener s'. spawned h t s' ≡ spawned h t s) (Fails self arrivals s)
            (bind_listener k addr s) (λ listener. serve_from h t k self listener arrivals)
            (bind_listener-spawned h t k addr s)
            (OnErr-itself (Fails self arrivals s) (bind_listener k addr s)
              (λ e s' failed. inl failed))
            (λ listener s₁ same.
              OnErr-weaken (Stops arrivals (spawned h t s₁)) (Fails self arrivals s)
                (serve_from h t k self listener arrivals s₁)
                (λ e s' stops. inr (subst (λ base. Stops arrivals base e s') same stops))
                (serve_from-Stops self listener arrivals s₁)),
      )
