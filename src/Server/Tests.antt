-- ===== src/Server/Tests.antt =====
-- Runs of the server on the sample kernel.
use chaos_tproxy.Prelude.{◌≡◌, refl, true, List, [], ◌∷◌, ◌++◌, none, some, All, ◌⊎◌}
use chaos_tproxy.Outcome.{err, library}
use chaos_tproxy.Outcome.Effects.{OnOk, OnErr}
use chaos_tproxy.External.Sample.{sample}
use chaos_tproxy.RawConfig.Tls.Sample.{sample_tls, made_tls}
use chaos_tproxy.Tcp.{
  connection_reset, other, IoError, ask_peer, ask_local, Kernel, accepted, set_ip_transparent,
  set_socket, bind, bind_listener,
}
use chaos_tproxy.Tcp.Sample.{open_kernel}
use chaos_tproxy.Server.{
  Arrival, incoming, failure, signalled, served, broken, Round, Task, HttpServer, handle_stream,
  serve_from, serve, serve_http,
}
use chaos_tproxy.Server.Spawned.{arrived, ending, spawned}
use chaos_tproxy.Server.Laws.{Refused, Fails, serve-Ends}
use chaos_tproxy.Server.Tasks.{SpawnsFor, serve-SpawnsFor}
use chaos_tproxy.Server.Tunnel.{Follows}
use chaos_tproxy.Server.Connections.{TunnelFails, serve_http-Ends}

abbrev kernel : Kernel (Task sample sample_tls)
kernel = open_kernel

abbrev server : HttpServer sample sample_tls
server = record {
  config = record {
    http_config = record { listen_port = 1025; rules = []; role = none };
    tls_config = some made_tls;
  };
}

abbrev reset : IoError
reset = record { kind = connection_reset; error = library "reset" }

abbrev arrivals : List Arrival
arrivals = incoming 11 ∷ failure reset ∷ incoming 12 ∷ signalled ∷ incoming 13 ∷ []

passes_over_resets : arrived arrivals ≡ 11 ∷ 12 ∷ []
passes_over_resets = refl

ends_on_other_errors :
    (serve sample sample_tls kernel server (failure (record reset { kind = other }) ∷ []) []).0
    ≡ err (library "reset")
unfolding serve serve_from bind_listener bind set_socket set_ip_transparent
ends_on_other_errors = refl

-- A connection that is gone before its address is asked for ends the server.
gone : Kernel (Task sample sample_tls)
gone = record open_kernel { peer_addr = λ s stream. err (library "not connected") }

ends_on_a_gone_connection :
    (serve sample sample_tls gone server arrivals []).0 ≡ err (library "not connected")
unfolding gone serve serve_from handle_stream accepted bind_listener bind set_socket
    set_ip_transparent
ends_on_a_gone_connection = refl

serve-Ends_example :
    OnOk
      (λ end s'. (spawned sample sample_tls s' ≡ [] ++ arrived arrivals) × (end ≡ ending arrivals))
      (serve sample sample_tls gone server arrivals [])
    × OnErr
        (Fails sample sample_tls gone server arrivals [])
        (serve sample sample_tls gone server arrivals [])
serve-Ends_example = serve-Ends sample sample_tls gone server arrivals []

serve-SpawnsFor_example :
    All
      (SpawnsFor sample sample_tls kernel server)
      (serve sample sample_tls kernel server arrivals []).1
serve-SpawnsFor_example = serve-SpawnsFor sample sample_tls kernel server arrivals [] tt

-- One round of HTTP, and then something else.
abbrev rounds : List Round
rounds =
    record { r = served; parts = some (record { io = 11; read_buf = [] }) }
    ∷ record {
      r = broken true (library "parse");
      parts = some (record { io = 11; read_buf = 1 ∷ [] });
    }
    ∷ []

serve_http-Ends_example :
    OnOk
      (λ v.
        Follows sample sample_tls kernel rounds 11 (([] ++ ask_peer 11 ∷ []) ++ ask_local 11 ∷ []))
      (serve_http sample sample_tls kernel rounds 11 [])
    × OnErr
        (λ e s'.
          Refused sample sample_tls kernel 11 e ⊎ TunnelFails sample sample_tls kernel rounds e s')
        (serve_http sample sample_tls kernel rounds 11 [])
serve_http-Ends_example = serve_http-Ends sample sample_tls kernel rounds 11 []
