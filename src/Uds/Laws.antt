-- ===== src/Uds/Laws.antt =====
-- The configuration arrives as it was sent.
use chaos_tproxy.Prelude.{
  ◌≡◌, sym, ◌∙◌, ap, ℕ, List, [], ◌∷◌, ◌++◌, map, append_assoc, append-nil, Some, inl, inr, subst,
}
use chaos_tproxy.Outcome.{Result, ok, err}
use chaos_tproxy.External.{Bytes}
use chaos_tproxy.Uds.{UdsDataServer, UdsDataClient, UdsAct, write_all, Uds, listen_on, read_into}

-- The connections that `accept` gave before its first error.
abbrev pub connections : List (Result ℕ) → List ℕ
connections [] = []
connections (err e ∷ answers) = []
connections (ok stream ∷ answers) = stream ∷ connections answers

module _ {C : Type 0} (io : Uds C) where
  -- Each connection is written the same bytes, once.
  pub listen_on-writes :
      (self : UdsDataServer C) (answers : List (Result ℕ)) (s : List UdsAct) (buf : Bytes)
      → io.to_vec self.payload ≡ ok buf
      → (listen_on io self answers s).1
        ≡ s ++ map (λ stream. write_all stream buf) (connections answers)
  unfolding listen_on
  listen_on-writes self [] s buf e = sym (append-nil s)
  listen_on-writes self (err e' ∷ answers) s buf e = sym (append-nil s)
  listen_on-writes self (ok stream ∷ answers) s buf e = rw e (
      listen_on-writes self answers (s ++ write_all stream buf ∷ []) buf e
      ∙ append_assoc s (write_all stream buf ∷ [])
          (map (λ stream. write_all stream buf) (connections answers)))

  sent_to :
      (buf : Bytes) (stream : ℕ) (streams : List ℕ)
      → Some (λ x. x ≡ stream) streams
      → Some (λ a. a ≡ write_all stream buf) (map (λ x. write_all x buf) streams)
  sent_to buf stream [] found = elim found [ ]
  sent_to buf stream (x ∷ streams) (inl same) = inl (ap (λ y. write_all y buf) same)
  sent_to buf stream (x ∷ streams) (inr later) = inr (sent_to buf stream streams later)

  -- What a client reads of one configuration, whose bytes read back.
  pub read_into-sent :
      (server : UdsDataServer C) (client : UdsDataClient) (answers : List (Result ℕ)) (stream : ℕ)
      (buf : Bytes)
      → io.from_slice buf ≡ ok server.payload
      → io.to_vec server.payload ≡ ok buf
      → io.connect client.path ≡ ok stream
      → Some (λ x. x ≡ stream) (connections answers)
      → ((x : ℕ) (b : Bytes)
          → Some (λ a. a ≡ write_all x b) (listen_on io server answers []).1
          → io.read_to_end x [] ≡ ok b)
      → ((listen_on io server answers []).1 ≡ map (λ x. write_all x buf) (connections answers))
        × (read_into io client [] ≡ ok server.payload)
  unfolding read_into
  read_into-sent server client answers stream buf back written connected served delivers =
      let acts : (listen_on io server answers []).1
          ≡ map (λ x. write_all x buf) (connections answers) =
        listen_on-writes server answers [] buf written in
      let sent = sent_to buf stream (connections answers) served in
      let got =
        delivers stream buf (subst (Some (λ a. a ≡ write_all stream buf)) (sym acts) sent) in
      (acts, rw (connected, got) back)

  -- Where serde_json reads back what it writes, and a stream delivers what was written to it, a
  -- client on a connection that the server accepted reads exactly the server's data. The server
  -- writes once to each accepted connection, and to no other.
  pub read_into-listen_on :
      ((c : C) (b : Bytes) → io.to_vec c ≡ ok b → io.from_slice b ≡ ok c)
      → (server : UdsDataServer C) (client : UdsDataClient) (answers : List (Result ℕ)) (stream : ℕ)
        (buf : Bytes)
      → io.to_vec server.payload ≡ ok buf
      → io.connect client.path ≡ ok stream
      → Some (λ x. x ≡ stream) (connections answers)
      → ((x : ℕ) (b : Bytes)
          → Some (λ a. a ≡ write_all x b) (listen_on io server answers []).1
          → io.read_to_end x [] ≡ ok b)
      → ((listen_on io server answers []).1 ≡ map (λ x. write_all x buf) (connections answers))
        × (read_into io client [] ≡ ok server.payload)
  read_into-listen_on serde server client answers stream buf written =
      read_into-sent server client answers stream buf (serde server.payload buf written) written
