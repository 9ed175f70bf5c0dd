-- ===== src/Tcp/Laws.antt =====
-- What a socket that was opened has been through.
use chaos_tproxy.Prelude.{
  ℕ, ◌≡◌, ◌∙◌, ap, true, List, [], ◌∷◌, ◌++◌, append_assoc, if◌then◌else◌, ◌==◌,
}
use chaos_tproxy.Outcome.{ok, err}
use chaos_tproxy.Outcome.Effects.{
  Eff, ◌>>◌, give, act, OnOk, OnOk-part, OnOk-answer, OnOk-last, IsOk, IsOk-answer, IsOk-part,
  IsOk-last, Returns, Returns-both,
}
use chaos_tproxy.Handler.Rule.{SocketAddr}
use chaos_tproxy.Tcp.{
  NetAct, new_socket, set_transparent, set_reuseaddr, bind_addr, connect_to, Kernel,
  set_ip_transparent, set_socket, bind, conn, connect, new_connector,
}

-- The calls that open a socket with an address: it is made transparent before it is bound.
abbrev pub opened : {T : Type 0} → ℕ → SocketAddr → List (NetAct T)
opened socket addr =
    new_socket ∷ set_transparent socket ∷ set_reuseaddr socket true ∷ bind_addr socket addr ∷ []

-- The history goes on from `s` with the calls.
abbrev pub Adds :
    {T A : Type 0} → List (NetAct T) → (A → List (NetAct T)) → A → List (NetAct T) → Type 0
Adds s calls a s' = s' ≡ s ++ calls a

abbrev made : {T : Type 0} → ℕ → List (NetAct T)
made socket = new_socket ∷ set_transparent socket ∷ set_reuseaddr socket true ∷ []

-- The calls of a connection from one address to another.
abbrev pub Connects :
    {T : Type 0} → SocketAddr → SocketAddr → List (NetAct T) → ℕ → List (NetAct T) → Type 0
Connects addr dist s stream s' =
    (socket : ℕ) × (s' ≡ s ++ (opened socket addr ++ connect_to socket dist ∷ []))

module _ {T : Type 0} (k : Kernel T) where
  set_socket-made : (s : List (NetAct T)) → OnOk (Adds s made) (set_socket k s)
  unfolding set_socket set_ip_transparent
  set_socket-made s =
      let t₁ : List (NetAct T) = s ++ new_socket ∷ [] in
      OnOk-answer (Adds s made) (k.socket s) t₁ _ (λ socket e.
        let t₂ : List (NetAct T) = t₁ ++ set_transparent socket ∷ [] in
        OnOk-answer (Adds s made)
          (if k.setsockopt t₁ socket == 0 then ok tt else err (k.last_os_error t₁)) t₂ _
          (λ u e'.
            OnOk-answer (Adds s made) (k.reuse t₂ socket) (t₂ ++ set_reuseaddr socket true ∷ [])
              (λ v. give socket) (λ v e''. simp append_assoc)))

  -- A bound socket was made transparent and reusable before it was bound, by exactly these calls.
  pub bind-opened :
      (addr : SocketAddr) (s : List (NetAct T))
      → OnOk (Adds s (λ socket. opened socket addr)) (bind k addr s)
  unfolding bind
  bind-opened addr s =
      let Post : ℕ → List (NetAct T) → Type 0 = Adds s (λ socket. opened socket addr) in
      let rest : ℕ → Eff (NetAct T) ℕ =
        λ socket. act (bind_addr socket addr) (λ x. k.bound x socket addr) >> give socket in
      OnOk-part (Adds s made) Post (set_socket k s) rest (set_socket-made s) (λ socket t e.
        let next : List (NetAct T) = t ++ bind_addr socket addr ∷ [] in
        OnOk-answer Post (k.bound t socket addr) next (λ v. give socket)
          (λ v e'.
            ap (λ x. x ++ bind_addr socket addr ∷ []) e
            ∙ append_assoc s (made socket) (bind_addr socket addr ∷ [])))

  -- A connection that is made goes out from a transparent socket with the source's address to the
  -- destination.
  pub conn-Connects :
      (addr dist : SocketAddr) (s : List (NetAct T))
      → OnOk (Connects addr dist s) (conn k addr dist s)
  unfolding conn
  conn-Connects addr dist s =
      let rest : ℕ → Eff (NetAct T) ℕ = λ socket.
        act (bind_addr socket addr) (λ x. k.bound x socket addr)
        >> act (connect_to socket dist) (λ x. k.connected x socket dist) in
      OnOk-part (Adds s made) (Connects addr dist s) (set_socket k s) rest (set_socket-made s)
        (λ socket t e.
          let t₁ : List (NetAct T) = t ++ bind_addr socket addr ∷ [] in
          let t₂ : List (NetAct T) = t₁ ++ connect_to socket dist ∷ [] in
          OnOk-answer (Connects addr dist s) (k.bound t socket addr) t₁
            (λ v. act (connect_to socket dist) (λ x. k.connected x socket dist))
            (λ v e'. OnOk-last (Connects addr dist s) (k.connected t₁ socket dist) t₂ (λ stream e''.
              (
                socket,
                ap (λ x. (x ++ bind_addr socket addr ∷ []) ++ connect_to socket dist ∷ []) e
                    ∙ simp append_assoc,
              ))))

-- A kernel that refuses nothing that a connection to a target needs.
pub record Works {T : Type 0} (k : Kernel T) : Type 0 where
  pub socket_given : (s : List (NetAct T)) → (socket : ℕ) × (k.socket s ≡ ok socket)
  pub option_set : (s : List (NetAct T)) (socket : ℕ) → k.setsockopt s socket ≡ 0
  pub reuse_set : (s : List (NetAct T)) (socket : ℕ) → k.reuse s socket ≡ ok tt
  pub bound_given :
      (s : List (NetAct T)) (socket : ℕ) (addr : SocketAddr) → k.bound s socket addr ≡ ok tt
  pub stream_given :
      (s : List (NetAct T)) (socket : ℕ) (addr : SocketAddr)
      → (stream : ℕ) × (k.connected s socket addr ≡ ok stream)

module _ {T : Type 0} (k : Kernel T) (works : Works k) where
  transparent-IsOk : (socket : ℕ) (s : List (NetAct T)) → IsOk (set_ip_transparent k socket s)
  unfolding set_ip_transparent
  transparent-IsOk socket s = rw (works.option_set s socket) tt

  set_socket-IsOk : (s : List (NetAct T)) → IsOk (set_socket k s)
  unfolding set_socket
  set_socket-IsOk s =
      IsOk-answer (k.socket s) (s ++ new_socket ∷ []) _ (works.socket_given s) (λ socket.
        IsOk-part (set_ip_transparent k socket (s ++ new_socket ∷ []))
          (λ u. act (set_reuseaddr socket true) (λ x. k.reuse x socket) >> give socket)
          (transparent-IsOk socket (s ++ new_socket ∷ []))
          (λ u s'. rw (works.reuse_set s' socket) tt))

  conn-IsOk : (addr dist : SocketAddr) (s : List (NetAct T)) → IsOk (conn k addr dist s)
  unfolding conn
  conn-IsOk addr dist s =
      IsOk-part (set_socket k s)
        (λ socket.
          act (bind_addr socket addr) (λ x. k.bound x socket addr)
          >> act (connect_to socket dist) (λ x. k.connected x socket dist))
        (set_socket-IsOk s)
        (λ socket s'. rw (works.bound_given s' socket addr) (
          IsOk-last (k.connected (s' ++ bind_addr socket addr ∷ []) socket dist) _
            (works.stream_given (s' ++ bind_addr socket addr ∷ []) socket dist)))

  -- With a kernel that refuses nothing, the connector's stream goes from the address of the source
  -- to the target: a socket is made transparent and reusable, bound to the source and connected to
  -- the target, by exactly these calls.
  pub connect-Connects :
      (src dst : SocketAddr) (s : List (NetAct T))
      → Returns (Connects src dst s) (connect k (new_connector dst src) s)
  unfolding connect new_connector
  connect-Connects src dst s =
      Returns-both (Connects src dst s) (conn k src dst s) (conn-IsOk src dst s)
        (conn-Connects k src dst s)
