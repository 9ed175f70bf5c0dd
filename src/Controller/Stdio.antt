-- ===== src/Controller/Stdio.antt =====
-- chaos-tproxy-controller/src/cmd/interactive/stdio.rs: the stream that hyper serves in the
-- interactive mode. What `tokio`'s two handles do is a parameter; the wake-up context of a poll is
-- left out.
pub mod Laws
mod Tests
use chaos_tproxy.Prelude.{ℕ, List}
use chaos_tproxy.Outcome.{Result}

pub data Poll {ℓ} (A : Type ℓ) : Type ℓ where
  ready : A → Poll A
  pending : Poll A

-- `ReadBuf`: the bytes that were read so far, and the room for others.
pub record ReadBuf : Type 0 where
  pub filled : List ℕ
  pub room : ℕ

-- What a read leaves of the buffer, and its answer.
pub record ReadAnswer : Type 0 where
  pub buf : ReadBuf
  pub answer : Poll (Result (Unit {0}))

pub record AsyncRead (S : Type 0) : Type 0 where
  pub poll_read : S → ReadBuf → S × ReadAnswer

pub record AsyncWrite (S : Type 0) : Type 0 where
  pub poll_write : S → List ℕ → S × Poll (Result ℕ)
  pub poll_flush : S → S × Poll (Result (Unit {0}))
  pub poll_shutdown : S → S × Poll (Result (Unit {0}))

module _ (Stdin Stdout : Type 0) where
  pub record StdStream : Type 0 where
    pub stdin : Stdin
    pub stdout : Stdout

  -- `StdStream::new`, with the two handles of the process.
  abbrev pub new_stream : Stdin → Stdout → StdStream
  new_stream stdin stdout = record { stdin = stdin; stdout = stdout }

  module _ (r : AsyncRead Stdin) (w : AsyncWrite Stdout) where
    -- `impl AsyncRead for StdStream`
    unfoldable pub read_stream : AsyncRead StdStream
    read_stream = record {
      poll_read = λ self buf.
          let (stdin, answer) = r.poll_read self.stdin buf in
          (record self { stdin = stdin }, answer);
    }

    -- `impl AsyncWrite for StdStream`
    unfoldable pub write_stream : AsyncWrite StdStream
    write_stream = record {
      poll_write = λ self buf.
          let (stdout, answer) = w.poll_write self.stdout buf in
          (record self { stdout = stdout }, answer);
      poll_flush = λ self.
          let (stdout, answer) = w.poll_flush self.stdout in
          (record self { stdout = stdout }, answer);
      poll_shutdown = λ self.
          let (stdout, answer) = w.poll_shutdown self.stdout in
          (record self { stdout = stdout }, answer);
    }
