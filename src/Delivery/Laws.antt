-- ===== src/Delivery/Laws.antt =====
-- What the user's rules do to a request, from the configuration that the user wrote to the answer.
use chaos_tproxy.Prelude.{◌≡◌, List, Option, All, Some}
use chaos_tproxy.Outcome.{ok}
use chaos_tproxy.Outcome.Results.{ok_parts}
use chaos_tproxy.Outcome.Runs.{events, result}
use chaos_tproxy.External.{Http}
use chaos_tproxy.External.Laws.{HeaderLaws, CodeLaws}
use chaos_tproxy.Handler.Message.{Request}
use chaos_tproxy.Handler.Rule.{SocketAddr}
use chaos_tproxy.RawConfig.Tls.{Tls, Config}
use chaos_tproxy.RawConfig.Tls.Laws.{to_config-FitsRaw}
use chaos_tproxy.Server.{new_service}
use chaos_tproxy.Service.{Upstream, HttpService, handle}
use chaos_tproxy.Service.Rules.{sent, Fails}
use chaos_tproxy.Service.Transparent.{pass_through}
use chaos_tproxy.Controller.Net.{NetworkInterface}
use chaos_tproxy.Controller.Config.{RawConfig, to_proxy_config}
use chaos_tproxy.Delivery.{delivered}
use chaos_tproxy.Delivery.Rules.{
  UserPlays, rules_of, UserAborts, NotUserSelects, Delivers, told-Delivers, Delivers-aborts,
  Delivers-passes,
}

module _ (h : Http) (t : Tls) (headers : HeaderLaws h) (codes : CodeLaws h)
    (up : Upstream h t.ClientConfig) (interfaces : List NetworkInterface) (raw : RawConfig)
    (config : Config h t) (made : delivered h t interfaces raw ≡ ok config)
    (remote target : SocketAddr) (tls : Option t.ClientConfig) where
  -- The service of a connection, as the server makes it.
  abbrev pub service : HttpService h t.ClientConfig
  service = new_service h t remote target config.http_config tls

  made-Delivers : Delivers h t headers codes up interfaces raw config.http_config
  made-Delivers =
      let (told, e₁, e₂) = ok_parts (to_proxy_config interfaces raw) _ made in
      told-Delivers h t headers codes up interfaces raw told config e₁
        (to_config-FitsRaw t h told config e₂)

  -- When a user's configuration has gone through both processes, a connection whose addresses
  -- play the user's role, or any if there is none, has each request aborted that a rule of the
  -- user for requests selects and aborts: the client gets an error and nothing is sent.
  pub delivered-aborts :
      (r : Request h)
      → UserPlays interfaces raw remote target
      → Some (UserAborts h t target.port r) (rules_of raw)
      → Fails h (result (handle h t.ClientConfig up service r))
        × (sent h (events (handle h t.ClientConfig up service r)) ≡ 0)
  delivered-aborts = Delivers-aborts h t headers codes up interfaces raw service made-Delivers

  -- When a user's configuration has gone through both processes, a request that the selector of
  -- no rule of the user is about, be the rule for requests or for responses, is passed through,
  -- whatever the rules do to others.
  pub delivered-passes :
      (r : Request h)
      → All (NotUserSelects h t target.port r) (rules_of raw)
      → handle h t.ClientConfig up service r ≡ pass_through h t.ClientConfig up service r
  delivered-passes = Delivers-passes h t headers codes up interfaces raw service made-Delivers
