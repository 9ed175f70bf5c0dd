-- ===== src/Uds.antt =====
-- The unix socket that carries the configuration from the controller to the proxy process:
-- chaos-tproxy-controller/src/proxy/uds_server.rs and chaos-tproxy-proxy/src/uds_client.rs.
-- serde_json and what a stream delivers are parameters. The source's field `data` is `payload`.
pub mod Laws
mod Tests
use chaos_tproxy.Prelude.{ℕ, List, [], ◌∷◌, ◌++◌, String}
use chaos_tproxy.Outcome.{Error, Result, ok, err}
use chaos_tproxy.Outcome.Results
use chaos_tproxy.Outcome.Effects.{Eff, ◌>>=◌, ◌>>◌, give, of_result, act}
use chaos_tproxy.External.{Bytes}

pub record UdsDataServer (C : Type 0) : Type 0 where
  pub payload : C
  pub path : String

pub record UdsDataClient : Type 0 where
  pub path : String

-- The spawned `write_all` is the act of its whole text: a failure is only logged.
pub data UdsAct : Type 0 where
  bind_path remove_file : String → UdsAct
  write_all : ℕ → Bytes → UdsAct

-- What the operating system and serde_json answer.
pub record Uds (C : Type 0) : Type 0 where
  pub bound : List UdsAct → String → Result ℕ
  pub removed : List UdsAct → String → Result (Unit {0})
  pub connect : String → Result ℕ
  -- `read_to_end`: the buffer with the bytes up to the end of the stream.
  pub read_to_end : ℕ → Bytes → Result Bytes
  pub to_vec : C → Result Bytes
  pub from_slice : Bytes → Result C

module _ {C : Type 0} (io : Uds C) where
  -- `UdsDataServer::bind`
  unfoldable pub bind_server : UdsDataServer C → Eff UdsAct ℕ
  bind_server self = act (bind_path self.path) (λ s. io.bound s self.path)

  -- `UdsDataServer::clear`
  unfoldable pub clear : UdsDataServer C → Eff UdsAct (Unit {0})
  clear self = act (remove_file self.path) (λ s. io.removed s self.path)

  -- `UdsDataServer::listen`, from what `accept` answers: the loop ends by an error only, and `tt` is
  -- that it still waits.
  unfoldable pub listen_on : UdsDataServer C → List (Result ℕ) → Eff UdsAct (Unit {0})
  listen_on self [] = give tt
  listen_on self (err e ∷ answers) = of_result (err e)
  listen_on self (ok stream ∷ answers) = do
    buf ← of_result (io.to_vec self.payload)
    act (write_all stream buf) (λ s. ok tt)
    listen_on self answers

  -- `UdsDataClient::read_into`
  unfoldable pub read_into : UdsDataClient → Bytes → Result C
  read_into self buf =
      Results.◌>>=◌ (io.connect self.path)
        (λ stream. Results.◌>>=◌ (io.read_to_end stream buf) io.from_slice)
