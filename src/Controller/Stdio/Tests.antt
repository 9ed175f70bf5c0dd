-- ===== src/Controller/Stdio/Tests.antt =====
-- A stream of lists of bytes: reading takes what is there, and writing appends.
use chaos_tproxy.Prelude.{ℕ, ◌≡◌, refl, List, [], ◌∷◌, ◌++◌, length}
use chaos_tproxy.Outcome.{ok}
use chaos_tproxy.Controller.Stdio.{
  ready, pending, AsyncRead, AsyncWrite, StdStream, new_stream, read_stream, write_stream,
}
use chaos_tproxy.Controller.Stdio.Laws.{
  write, flush, reads, writes, Call, poll_all, apart, poll_all-apart,
}

abbrev reader : AsyncRead (List ℕ)
reader = record {
  poll_read = λ s buf. ([], record { buf = record buf { filled = s }; answer = ready (ok tt) });
}

abbrev writer : AsyncWrite (List ℕ)
writer = record {
  poll_write = λ s buf. (s ++ buf, ready (ok (length buf)));
  poll_flush = λ s. (s, ready (ok tt));
  poll_shutdown = λ s. (s, pending);
}

abbrev stream : StdStream (List ℕ) (List ℕ)
stream = new_stream (List ℕ) (List ℕ) (1 ∷ []) []

abbrev calls : List Call
calls =
    writes (write (2 ∷ []))
    ∷ reads (record { filled = []; room = 4 })
    ∷ writes flush
    ∷ writes (write (3 ∷ []))
    ∷ []

writes_both :
    (poll_all
      (read_stream (List ℕ) (List ℕ) reader writer)
      (write_stream (List ℕ) (List ℕ) reader writer)
      stream
      calls).stream
    ≡ record { stdin = []; stdout = 2 ∷ 3 ∷ [] }
unfolding read_stream write_stream
writes_both = refl

poll_all-apart_example :
    poll_all
      (read_stream (List ℕ) (List ℕ) reader writer)
      (write_stream (List ℕ) (List ℕ) reader writer)
      stream
      calls
    ≡ apart (List ℕ) (List ℕ) reader writer stream calls
poll_all-apart_example = poll_all-apart (List ℕ) (List ℕ) reader writer stream calls
