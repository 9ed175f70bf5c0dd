-- ===== src/Uds/Tests.antt =====
-- A configuration of two bytes over a socket.
use chaos_tproxy.Prelude.{◌≡◌, refl, ℕ, List, [], ◌∷◌, map, Some, inl, inr, ap, sym}
use chaos_tproxy.Outcome.{Result, ok, err, library}
use chaos_tproxy.Outcome.Results.{ok-injective}
use chaos_tproxy.External.{Bytes}
use chaos_tproxy.Uds.{UdsDataServer, UdsDataClient, UdsAct, write_all, Uds, listen_on, read_into}
use chaos_tproxy.Uds.Laws.{connections, read_into-listen_on}

-- Every stream delivers the two bytes.
abbrev wire : Uds Bytes
wire = record {
  bound = λ s path. ok 3;
  removed = λ s path. ok tt;
  connect = λ path. ok 5;
  read_to_end = λ stream buf. ok (1 ∷ 2 ∷ []);
  to_vec = ok;
  from_slice = ok;
}

abbrev server : UdsDataServer Bytes
server = record { payload = 1 ∷ 2 ∷ []; path = "/tmp/a.sock" }

abbrev client : UdsDataClient
client = record { path = "/tmp/a.sock" }

abbrev answers : List (Result ℕ)
answers = ok 5 ∷ err (library "accept") ∷ ok 6 ∷ []

bytes_of : UdsAct → Bytes
bytes_of (write_all stream b) = b
bytes_of a = []

delivered :
    (x : ℕ) (b : Bytes)
    → Some (λ a. a ≡ write_all x b) (listen_on wire server answers []).1
    → wire.read_to_end x [] ≡ ok b
unfolding listen_on bytes_of
delivered x b (inl e) = ap ok (ap bytes_of e)
delivered x b (inr impossible) = elim impossible [ ]

serde_json : (c b : Bytes) → wire.to_vec c ≡ ok b → wire.from_slice b ≡ ok c
serde_json c b e = ap ok (sym (ok-injective e))

read_into-listen_on_example :
    ((listen_on wire server answers []).1
      ≡ map (λ x. write_all x (1 ∷ 2 ∷ [])) (connections answers))
    × (read_into wire client [] ≡ ok server.payload)
read_into-listen_on_example =
    read_into-listen_on wire serde_json server client answers 5 (1 ∷ 2 ∷ []) refl refl (inl refl)
      delivered
