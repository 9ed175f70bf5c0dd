-- ===== src/Server/Connections.antt =====
-- How a connection of plain HTTP ends.
use chaos_tproxy.Prelude.{
  ℕ, String, Some, ◌⊎◌, inl, inr, ◌≡◌, refl, true, false, List, [], ◌∷◌, ◌++◌, subst, Option, none,
  some,
}
use chaos_tproxy.Outcome.{Error, err}
use chaos_tproxy.Outcome.Effects.{
  OnErr, OnErr-weaken, OnErr-itself, OnErr-part, OnErr-answer, Eff, give, OnOk, OnOk-part,
  OnOk-answer,
}
use chaos_tproxy.External.{Http}
use chaos_tproxy.RawConfig.Tls.{Tls}
use chaos_tproxy.Tcp.{NetAct, ask_peer, ask_local, serve_round, Kernel}
use chaos_tproxy.Server.Laws.{Refused}
use chaos_tproxy.Server.{
  ConnParts, RoundResult, served, broken, Round, Task, tunnel, after_http, http_rounds, log_key,
  serve_http,
}
use chaos_tproxy.Server.Tunnel.{Tunnels, tunnel-Tunnels, Follows, http_rounds-Follows}

module _ (h : Http) (t : Tls) (k : Kernel (Task h t)) where
  -- A round of parsing that failed and gave these parts back.
  abbrev pub IsForeign : ConnParts → Round → Type 0
  IsForeign part round = (e : Error) × (round.r ≡ broken true e) × (round.parts ≡ some part)

  -- The tunnel of such a round fails, with this error and at these calls.
  abbrev pub TunnelFails : List Round → Error → List (NetAct (Task h t)) → Type 0
  TunnelFails rounds e s' =
      (part : ConnParts) × Some (IsForeign part) rounds
      × (s : List (NetAct (Task h t))) × (tunnel h t k part s ≡ (err e, s'))

  after_http-TunnelFails :
      (round : Round) (r : RoundResult) (parts : Option ConnParts)
      (next : ℕ → Eff (NetAct (Task h t)) (Option (Unit {0})))
      (Q : Error → List (NetAct (Task h t)) → Type 0) (s : List (NetAct (Task h t)))
      → round.r ≡ r
      → round.parts ≡ parts
      → ((io : ℕ) → OnErr Q (next io s))
      → ((part : ConnParts) (e : Error) (s' : List (NetAct (Task h t)))
          → IsForeign part round
          → tunnel h t k part s ≡ (err e, s')
          → Q e s')
      → OnErr Q (after_http h t k r parts next s)
  after_http-TunnelFails round served none next Q s e₁ e₂ rest fails = tt
  after_http-TunnelFails round served (some part) next Q s e₁ e₂ rest fails = rest part.io
  after_http-TunnelFails round (broken true e) none next Q s e₁ e₂ rest fails = tt
  after_http-TunnelFails round (broken true e) (some part) next Q s e₁ e₂ rest fails =
      OnErr-part (Tunnels h t k part s) Q (tunnel h t k part s) (λ u. give (some tt))
        (tunnel-Tunnels h t k part s)
        (OnErr-itself Q (tunnel h t k part s) (λ e' s' failed. fails part e' s' (e, e₁, e₂) failed))
        (λ u s' made. tt)
  after_http-TunnelFails round (broken false e) parts next Q s e₁ e₂ rest fails = tt

  http_rounds-TunnelFails :
      (rounds : List Round) (stream : ℕ) (s : List (NetAct (Task h t)))
      → OnErr (TunnelFails rounds) (http_rounds h t k rounds stream s)
  unfolding http_rounds
  http_rounds-TunnelFails [] stream s = tt
  http_rounds-TunnelFails (round ∷ rounds) stream s =
      let next : List (NetAct (Task h t)) = s ++ serve_round stream ∷ [] in
      after_http-TunnelFails round round.r round.parts (http_rounds h t k rounds)
        (TunnelFails (round ∷ rounds)) next refl refl
        (λ io.
          OnErr-weaken (TunnelFails rounds) (TunnelFails (round ∷ rounds))
            (http_rounds h t k rounds io next)
            (λ e s' (part, among, from, failed). (part, inr among, from, failed))
            (http_rounds-TunnelFails rounds io next))
        (λ part e s' foreign failed. (part, inl foreign, next, failed))

  abbrev asked : ℕ → List (NetAct (Task h t)) → List (NetAct (Task h t))
  asked stream s = (s ++ ask_peer stream ∷ []) ++ ask_local stream ∷ []

  log_key-asks :
      (stream : ℕ) (s : List (NetAct (Task h t)))
      → OnOk (λ key s'. s' ≡ asked stream s) (log_key h t k stream s)
        × OnErr (λ e s'. Refused h t k stream e) (log_key h t k stream s)
  unfolding log_key
  log_key-asks stream s =
      let Acts : Type 0 = List (NetAct (Task h t)) in
      let s₁ : Acts = s ++ ask_peer stream ∷ [] in
      let Asks : String → Acts → Type 0 = λ key s'. s' ≡ asked stream s in
      let Fails : Error → Acts → Type 0 = λ e s'. Refused h t k stream e in
      (
        OnOk-answer Asks (k.peer_addr s stream) s₁ _ (λ peer e.
            OnOk-answer Asks (k.local_addr s₁ stream) (asked stream s) _ (λ local e'. refl)),
        OnErr-answer Fails (k.peer_addr s stream) s₁ _ (λ e refused. (s, inl refused))
            (λ peer e.
              OnErr-answer Fails (k.local_addr s₁ stream) (asked stream s) _
                (λ e' refused. (s₁, inr refused)) (λ local e'. tt)),
      )

  -- Whatever the kernel answers: the rounds of a connection that ends without an error follow each
  -- other on the stream that each hands back. The first that hands none back is the last, and so is
  -- the first with an error: one of parsing makes a tunnel of the stream, which goes out from the
  -- client's own address to the address that the client meant and starts with the bytes that were
  -- read, and any other only ends the connection. A connection ends with an error only if one of
  -- its two addresses is refused at the start, or if the tunnel of a round with an error of parsing
  -- fails, and with its error.
  pub serve_http-Ends :
      (rounds : List Round) (stream : ℕ) (s : List (NetAct (Task h t)))
      → OnOk (λ v. Follows h t k rounds stream (asked stream s)) (serve_http h t k rounds stream s)
        × OnErr
            (λ e s'. Refused h t k stream e ⊎ TunnelFails rounds e s')
            (serve_http h t k rounds stream s)
  unfolding serve_http
  serve_http-Ends rounds stream s =
      let Acts : Type 0 = List (NetAct (Task h t)) in
      let Asks : String → Acts → Type 0 = λ key s'. s' ≡ asked stream s in
      let Post : Error → Acts → Type 0 = λ e s'. Refused h t k stream e ⊎ TunnelFails rounds e s' in
      let go : String → Eff (NetAct (Task h t)) (Option (Unit {0})) =
        λ key. http_rounds h t k rounds stream in
      let (asks, refused) = log_key-asks stream s in
      (
        OnOk-part Asks (λ v. Follows h t k rounds stream (asked stream s)) (log_key h t k stream s)
            go asks
            (λ key s' same.
              subst
                (λ x.
                  OnOk (λ v. Follows h t k rounds stream x) (http_rounds h t k rounds stream s'))
                same (http_rounds-Follows h t k rounds stream s')),
        OnErr-part Asks Post (log_key h t k stream s) go asks
            (OnErr-weaken (λ e s'. Refused h t k stream e) Post (log_key h t k stream s)
              (λ e s' r. inl r) refused)
            (λ key s' same.
              OnErr-weaken (TunnelFails rounds) Post (http_rounds h t k rounds stream s')
                (λ e s'' fails. inr fails) (http_rounds-TunnelFails rounds stream s')),
      )
