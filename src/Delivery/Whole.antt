-- ===== src/Delivery/Whole.antt =====
-- The proxy process with the configuration of a user, from the unix socket to its connections.
mod Tests
use chaos_tproxy.Prelude.{ℕ, ◌≡◌, sym, subst, List, [], ◌∷◌, All, All-weaken, Some, String}
use chaos_tproxy.Outcome.{Result, ok}
use chaos_tproxy.Outcome.Runs.{events, result}
use chaos_tproxy.External.{Http, Bytes}
use chaos_tproxy.External.Laws.{HeaderLaws, CodeLaws}
use chaos_tproxy.Handler.Message.{Request}
use chaos_tproxy.RawConfig.{RawConfig as ProxyRawConfig}
use chaos_tproxy.RawConfig.Tls.{Tls, Config, to_config}
use chaos_tproxy.Tcp.{NetAct, spawn, Kernel}
use chaos_tproxy.Server.{Arrival, Task}
use chaos_tproxy.Server.Tasks.{service_of, SpawnsFor}
use chaos_tproxy.Service.{Upstream, handle}
use chaos_tproxy.Service.Rules.{sent, Fails}
use chaos_tproxy.Service.Transparent.{pass_through}
use chaos_tproxy.Uds.{UdsDataServer, write_all, Uds, listen_on}
use chaos_tproxy.Uds.Laws.{connections, read_into-sent}
use chaos_tproxy.ProxyMain.{SignalKind, new_server_for, proxy_main}
use chaos_tproxy.ProxyMain.Laws.{ServesFor, proxy_main-Ends}
use chaos_tproxy.Controller.Net.{NetworkInterface}
use chaos_tproxy.Controller.Config.{RawConfig, to_proxy_config}
use chaos_tproxy.Delivery.Rules.{
  UserPlays, rules_of, UserAborts, NotUserSelects, Delivers, told-Delivers, Delivers-aborts,
  Delivers-passes,
}

-- The socket between the processes: serde_json reads back what it wrote, the proxy process
-- connects to a stream that the controller accepts, and a stream delivers what was written to it.
pub record Connected (io : Uds ProxyRawConfig) (server : UdsDataServer ProxyRawConfig)
    : Type 0 where
  pub answers : List (Result ℕ)
  pub stream : ℕ
  pub buf : Bytes
  pub written : io.to_vec server.payload ≡ ok buf
  pub reads_back : io.from_slice buf ≡ ok server.payload
  pub connected : io.connect server.path ≡ ok stream
  pub is_accepted : Some (λ x. x ≡ stream) (connections answers)
  pub delivers :
      (x : ℕ) (b : Bytes)
      → Some (λ a. a ≡ write_all x b) (listen_on io server answers []).1
      → io.read_to_end x [] ≡ ok b

module _ (h : Http) (t : Tls) (headers : HeaderLaws h) (codes : CodeLaws h)
    (up : Upstream h t.ClientConfig) (interfaces : List NetworkInterface) (raw : RawConfig) where
  -- The service of a task has all the user's rules and the user's role. On its connection the rules
  -- abort what they are to abort, and what no rule of the user is about is passed through.
  abbrev pub ServesUser : NetAct (Task h t) → Type 0
  ServesUser (spawn task) =
      let service = service_of h t task in
      Delivers h t headers codes up interfaces raw service.config
      × ((r : Request h)
          → (UserPlays interfaces raw service.remote service.target
              → Some (UserAborts h t service.target.port r) (rules_of raw)
              → Fails h (result (handle h t.ClientConfig up service r))
                × (sent h (events (handle h t.ClientConfig up service r)) ≡ 0))
            × (All (NotUserSelects h t service.target.port r) (rules_of raw)
                → handle h t.ClientConfig up service r
                  ≡ pass_through h t.ClientConfig up service r))
  ServesUser _ = Unit

  module _ (k : Kernel (Task h t)) (io : Uds ProxyRawConfig) where
    SpawnsFor-ServesUser :
        (config : Config h t)
        → Delivers h t headers codes up interfaces raw config.http_config
        → (a : NetAct (Task h t)) → SpawnsFor h t k (new_server_for h t k io config) a
        → ServesUser a
    SpawnsFor-ServesUser config kept (spawn task) is_for =
        let kept' = subst (Delivers h t headers codes up interfaces raw) (sym is_for.rules) kept in
        (
          kept',
          λ r. (
            Delivers-aborts h t headers codes up interfaces raw (service_of h t task) kept' r,
            Delivers-passes h t headers codes up interfaces raw (service_of h t task) kept' r,
          ),
        )
    SpawnsFor-ServesUser config kept _ is_for = tt

    -- Where header values and codes obey the laws of the http crate in External/Laws, the socket
    -- connects the two processes and the signals can be registered, a user's
    -- configuration that converts in both of them reaches every task of the proxy process, whatever
    -- the kernel answers and whatever arrives, and whether the process ends well or not: the
    -- service of each task has all the user's rules in order, with their targets, selectors and
    -- actions, and the user's role on the addresses of the default interface. If its connection's
    -- addresses play that role, or there is none, a request that a rule of the user for requests
    -- selects and aborts fails and nothing is sent for it; and a request that no rule of the user
    -- is about is passed through. If the process ends well on a signal, there was one task for each
    -- connection that arrived, in order, and if not, the server failed.
    pub proxy_main-ServesUser :
        (told : ProxyRawConfig) (config : Config h t) (path : String)
        → to_proxy_config interfaces raw ≡ ok told
        → to_config t h told ≡ ok config
        → Connected io (record { payload = told; path = path })
        → (signal : SignalKind → Result ℕ) (arrivals : List Arrival)
        → ((kind : SignalKind) → (n : ℕ) × (signal kind ≡ ok n))
        → All ServesUser (proxy_main h t k io signal path arrivals []).1
          × ServesFor h t k io config arrivals (proxy_main h t k io signal path arrivals [])
    proxy_main-ServesUser told config path e₁ e₂ c signal arrivals signals =
        let (acts, sent) =
          read_into-sent io (record { payload = told; path = path }) (record { path = path })
            c.answers c.stream c.buf c.reads_back c.written c.connected c.is_accepted c.delivers in
        let (fits, ends) =
          proxy_main-Ends h t k io told config signal path arrivals signals e₂ sent in
        let (tasks, fails, fine) = ends in
        (
          All-weaken (SpawnsFor h t k (new_server_for h t k io config)) ServesUser
              (proxy_main h t k io signal path arrivals []).1
              (SpawnsFor-ServesUser config
                (told-Delivers h t headers codes up interfaces raw told config e₁ fits))
              fine,
          ends,
        )
