-- ===== src/Controller/Stdio/Laws.antt =====
-- The two directions of the stream do not disturb each other.
use chaos_tproxy.Prelude.{ℕ, ◌≡◌, refl, ap, List, [], ◌∷◌}
use chaos_tproxy.Outcome.{Result}
use chaos_tproxy.Controller.Stdio.{
  Poll, ReadBuf, ReadAnswer, AsyncRead, AsyncWrite, StdStream, read_stream, write_stream,
}

pub data WriteCall : Type 0 where
  write : List ℕ → WriteCall
  flush : WriteCall
  shutdown : WriteCall

pub data Call : Type 0 where
  reads : ReadBuf → Call
  writes : WriteCall → Call

pub data Written : Type 0 where
  written : Poll (Result ℕ) → Written
  finished : Poll (Result (Unit {0})) → Written

abbrev pub read_all : {S : Type 0} → AsyncRead S → S → List ReadBuf → S × List ReadAnswer
read_all r s [] = (s, [])
read_all r s (buf ∷ bufs) =
    let (s₁, answer) = r.poll_read s buf in
    let (s₂, answers) = read_all r s₁ bufs in (s₂, answer ∷ answers)

abbrev write_one : {S : Type 0} → AsyncWrite S → S → WriteCall → S × Written
write_one w s (write buf) = let (s', answer) = w.poll_write s buf in (s', written answer)
write_one w s flush = let (s', answer) = w.poll_flush s in (s', finished answer)
write_one w s shutdown = let (s', answer) = w.poll_shutdown s in (s', finished answer)

abbrev pub write_all : {S : Type 0} → AsyncWrite S → S → List WriteCall → S × List Written
write_all w s [] = (s, [])
write_all w s (call ∷ calls) =
    let (s₁, answer) = write_one w s call in
    let (s₂, answers) = write_all w s₁ calls in (s₂, answer ∷ answers)

abbrev pub reads_of : List Call → List ReadBuf
reads_of [] = []
reads_of (reads buf ∷ calls) = buf ∷ reads_of calls
reads_of (writes call ∷ calls) = reads_of calls

abbrev pub writes_of : List Call → List WriteCall
writes_of [] = []
writes_of (reads buf ∷ calls) = writes_of calls
writes_of (writes call ∷ calls) = call ∷ writes_of calls

-- What a sequence of calls leaves of a stream, and the answers in each direction.
pub record Polled (S : Type 0) : Type 0 where
  pub stream : S
  pub read : List ReadAnswer
  pub written : List Written

module _ {S : Type 0} (r : AsyncRead S) (w : AsyncWrite S) where
  abbrev pub poll_all : S → List Call → Polled S
  poll_all s [] = record { stream = s; read = []; written = [] }
  poll_all s (reads buf ∷ calls) =
      let (s', answer) = r.poll_read s buf in
      let rest = poll_all s' calls in record rest { read = answer ∷ rest.read }
  poll_all s (writes call ∷ calls) =
      let (s', answer) = write_one w s call in
      let rest = poll_all s' calls in record rest { written = answer ∷ rest.written }

module _ (Stdin Stdout : Type 0) (r : AsyncRead Stdin) (w : AsyncWrite Stdout) where
  -- Both handles after their own calls alone.
  abbrev pub apart : StdStream Stdin Stdout → List Call → Polled (StdStream Stdin Stdout)
  apart s calls = record {
    stream = record {
      stdin = (read_all r s.stdin (reads_of calls)).0;
      stdout = (write_all w s.stdout (writes_of calls)).0;
    };
    read = (read_all r s.stdin (reads_of calls)).1;
    written = (write_all w s.stdout (writes_of calls)).1;
  }

  pub poll_all-apart :
      (s : StdStream Stdin Stdout) (calls : List Call)
      → poll_all (read_stream Stdin Stdout r w) (write_stream Stdin Stdout r w) s calls
        ≡ apart s calls
  unfolding read_stream write_stream
  poll_all-apart s [] = refl
  poll_all-apart s (reads buf ∷ calls) =
      let (stdin, answer) = r.poll_read s.stdin buf in
      ap (λ (x : Polled (StdStream Stdin Stdout)). record x { read = answer ∷ x.read })
        (poll_all-apart (record s { stdin = stdin }) calls)
  poll_all-apart s (writes (write buf) ∷ calls) =
      let (stdout, answer) = w.poll_write s.stdout buf in
      ap
        (λ (x : Polled (StdStream Stdin Stdout)). record x { written = written answer ∷ x.written })
        (poll_all-apart (record s { stdout = stdout }) calls)
  poll_all-apart s (writes flush ∷ calls) =
      let (stdout, answer) = w.poll_flush s.stdout in
      ap
        (λ (x : Polled (StdStream Stdin Stdout)). record x {
          written = finished answer ∷ x.written;
        })
        (poll_all-apart (record s { stdout = stdout }) calls)
  poll_all-apart s (writes shutdown ∷ calls) =
      let (stdout, answer) = w.poll_shutdown s.stdout in
      ap
        (λ (x : Polled (StdStream Stdin Stdout)). record x {
          written = finished answer ∷ x.written;
        })
        (poll_all-apart (record s { stdout = stdout }) calls)
