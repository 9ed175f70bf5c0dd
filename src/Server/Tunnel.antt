-- ===== src/Server/Tunnel.antt =====
-- A connection from round to round, and what becomes of one that is no HTTP.
use chaos_tproxy.Prelude.{
  ℕ, ◌≡◌, refl, ◌∙◌, ap, true, false, List, [], ◌∷◌, ◌++◌, append_assoc, Option, none, some,
}
use chaos_tproxy.Outcome.{ok}
use chaos_tproxy.Outcome.Effects.{
  Eff, ◌>>=◌, ◌>>◌, give, act, OnOk, OnOk-part, OnOk-answer, OnOk-last,
}
use chaos_tproxy.External.{Http}
use chaos_tproxy.Handler.Rule.{SocketAddr}
use chaos_tproxy.RawConfig.Tls.{Tls}
use chaos_tproxy.Tcp.{
  NetAct, ask_peer, ask_local, serve_round, connect_to, write_all, copy_bidirectional, Kernel, bind,
}
use chaos_tproxy.Tcp.Laws.{opened, Adds, bind-opened}
use chaos_tproxy.Server.{
  ConnParts, RoundResult, served, broken, Round, Task, unwrapped, tunnel, after_http, http_rounds,
}

module _ (h : Http) (t : Tls) (k : Kernel (Task h t)) where
  -- The calls of a tunnel: the client's address is bound, the connection goes to the address that
  -- the client meant, and what was read ahead is written before the copying begins.
  abbrev pub tunnelled : ConnParts → SocketAddr → SocketAddr → ℕ → ℕ → List (NetAct (Task h t))
  tunnelled part target client socket stream =
      ask_local part.io ∷ ask_peer part.io ∷ opened socket client
      ++ (connect_to socket target
          ∷ write_all stream part.read_buf
          ∷ copy_bidirectional part.io stream
          ∷ [])

  abbrev pub Tunnels :
      ConnParts → List (NetAct (Task h t)) → Unit {0} → List (NetAct (Task h t)) → Type 0
  Tunnels part s u s' =
      (target : SocketAddr) × (client : SocketAddr) × (socket : ℕ) × (stream : ℕ) × (k.local_addr s
          part.io
        ≡ ok target)
      × (k.peer_addr (s ++ ask_local part.io ∷ []) part.io ≡ ok client)
      × (s' ≡ s ++ tunnelled part target client socket stream)

  pub tunnel-Tunnels :
      (part : ConnParts) (s : List (NetAct (Task h t)))
      → OnOk (Tunnels part s) (tunnel h t k part s)
  unfolding tunnel
  tunnel-Tunnels part s =
      let Acts : Type 0 = List (NetAct (Task h t)) in
      let io : ℕ = part.io in
      let copy : ℕ → Eff (NetAct (Task h t)) (Unit {0}) =
        λ out. act (copy_bidirectional io out) (λ x. k.copied x io out) in
      let write : ℕ → Eff (NetAct (Task h t)) (Unit {0}) = λ out.
        act (write_all out part.read_buf) (λ x. unwrapped (k.written x out part.read_buf))
        >> copy out in
      let connect : SocketAddr → ℕ → Eff (NetAct (Task h t)) (Unit {0}) = λ target socket.
        act (connect_to socket target) (λ x. k.connected x socket target) >>= write in
      let t₁ : Acts = s ++ ask_local io ∷ [] in
      let t₂ : Acts = t₁ ++ ask_peer io ∷ [] in
      OnOk-answer (Tunnels part s) (k.local_addr s io) t₁
        (λ target.
          act (ask_peer io) (λ x. k.peer_addr x io) >>= λ client. bind k client >>= connect target)
        (λ target found.
          OnOk-answer (Tunnels part s) (k.peer_addr t₁ io) t₂
            (λ client. bind k client >>= connect target)
            (λ client named.
              OnOk-part (Adds t₂ (λ socket. opened socket client)) (Tunnels part s)
                (bind k client t₂) (connect target) (bind-opened k client t₂)
                (λ socket t₃ e.
                  let t₄ : Acts = t₃ ++ connect_to socket target ∷ [] in
                  OnOk-answer (Tunnels part s) (k.connected t₃ socket target) t₄ write (λ out made.
                    let t₅ : Acts = t₄ ++ write_all out part.read_buf ∷ [] in
                    let t₆ : Acts = t₅ ++ copy_bidirectional io out ∷ [] in
                    OnOk-answer (Tunnels part s) (unwrapped (k.written t₄ out part.read_buf)) t₅
                      (λ u. copy out)
                      (λ u wrote. OnOk-last (Tunnels part s) (k.copied t₅ io out) t₆ (λ u copied. (
                        target,
                        client,
                        socket,
                        out,
                        found,
                        named,
                        ap
                              (λ x.
                                ((x ++ connect_to socket target ∷ [])
                                  ++ write_all out part.read_buf ∷ [])
                                ++ copy_bidirectional io out ∷ [])
                              e
                            ∙ simp append_assoc,
                      )))))))

  -- What follows a round that ends at `s`.
  abbrev pub FollowsRound :
      RoundResult
      → Option ConnParts
      → (ℕ → List (NetAct (Task h t)) → List (NetAct (Task h t)) → Type 0)
      → List (NetAct (Task h t))
      → List (NetAct (Task h t))
      → Type 0
  FollowsRound served none Next s s' = s' ≡ s
  FollowsRound served (some part) Next s s' = Next part.io s s'
  FollowsRound (broken true e) none Next s s' = s' ≡ s
  FollowsRound (broken true e) (some part) Next s s' = Tunnels part s tt s'
  FollowsRound (broken false e) parts Next s s' = s' ≡ s

  -- The calls of a connection from `s` on, by the rounds that hyper gives it.
  abbrev pub Follows : List Round → ℕ → List (NetAct (Task h t)) → List (NetAct (Task h t)) → Type 0
  Follows [] stream s s' = s' ≡ s
  Follows (round ∷ rounds) stream s s' =
      FollowsRound round.r round.parts (Follows rounds) (s ++ serve_round stream ∷ []) s'

  after_http-FollowsRound :
      (r : RoundResult) (parts : Option ConnParts)
      (next : ℕ → Eff (NetAct (Task h t)) (Option (Unit {0})))
      (Next : ℕ → List (NetAct (Task h t)) → List (NetAct (Task h t)) → Type 0)
      (s : List (NetAct (Task h t)))
      → ((io : ℕ) → OnOk (λ v. Next io s) (next io s))
      → OnOk (λ v. FollowsRound r parts Next s) (after_http h t k r parts next s)
  after_http-FollowsRound served none next Next s rest = refl
  after_http-FollowsRound served (some part) next Next s rest = rest part.io
  after_http-FollowsRound (broken true e) none next Next s rest = refl
  after_http-FollowsRound (broken true e) (some part) next Next s rest =
      OnOk-part (Tunnels part s) (λ v. Tunnels part s tt) (tunnel h t k part s)
        (λ u. give (some tt)) (tunnel-Tunnels part s) (λ u s' made. made)
  after_http-FollowsRound (broken false e) parts next Next s rest = refl

  -- This is so of every connection that does not end with an error.
  pub http_rounds-Follows :
      (rounds : List Round) (stream : ℕ) (s : List (NetAct (Task h t)))
      → OnOk (λ v. Follows rounds stream s) (http_rounds h t k rounds stream s)
  unfolding http_rounds
  http_rounds-Follows [] stream s = refl
  http_rounds-Follows (round ∷ rounds) stream s =
      let after : List (NetAct (Task h t)) = s ++ serve_round stream ∷ [] in
      after_http-FollowsRound round.r round.parts (http_rounds h t k rounds) (Follows rounds) after
        (λ io. http_rounds-Follows rounds io after)
