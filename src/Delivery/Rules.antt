-- ===== src/Delivery/Rules.antt =====
-- The rules of the user in the configuration of a service, and what they do to its requests.
use mathlib.Core.Option
use chaos_tproxy.Prelude.{
  ℕ, ◌≡◌, refl, sym, ap, ◌∙◌, subst, inl, inr, true, false, List, [], ◌∷◌, Option, none, some, All,
  Some, Given,
}
use chaos_tproxy.Outcome.{ok}
use chaos_tproxy.Outcome.Runs.{events, result}
use chaos_tproxy.External.{Http}
use chaos_tproxy.External.Laws.{HeaderLaws, CodeLaws}
use chaos_tproxy.Handler.Message.{Request}
use chaos_tproxy.Handler.Rule.{Ipv4Addr, IpAddr, SocketAddr, Role, Rule}
use chaos_tproxy.Handler.Selector.Laws.{
  IsAmong, IsV4, PlaysRole, select_role_iff, select_request_iff,
}
use chaos_tproxy.RawConfig.{RawTarget, RawRule, RawConfig as ProxyRawConfig}
use chaos_tproxy.RawConfig.Convert.{unwrap_or, to_target}
use chaos_tproxy.RawConfig.Laws.{KeepsRule, KeepsRules}
use chaos_tproxy.RawConfig.Tls.{Tls, Config}
use chaos_tproxy.RawConfig.Tls.Laws.{FitsRaw}
use chaos_tproxy.Service.{Upstream, HttpConfig, HttpService, role_allows, role_ok, handle}
use chaos_tproxy.Service.Rules.{sent, Fails}
use chaos_tproxy.Service.Laws.{AbortsRequest, handle-aborts}
use chaos_tproxy.Service.Transparent.{pass_through}
use chaos_tproxy.Service.Unselected.{Unselected, handle-Unselected}
use chaos_tproxy.Controller.Net.{NetworkInterface, get_default_interface}
use chaos_tproxy.Controller.Config.{RawConfig, RawRole, ipv4s_of, to_role, to_proxy_config}
use chaos_tproxy.Controller.Config.Laws.{to_proxy_config-Fits}
use chaos_tproxy.Delivery.Selects.{UserSelects, KeepsSelector-UserSelects}

-- A client's connection goes out from one of its own IPv4 addresses to an IPv4 address, and a
-- server's comes in from an IPv4 address to one of its own.
abbrev pub PlaysRawRole : List Ipv4Addr → IpAddr → IpAddr → RawRole → Type 0
PlaysRawRole own src dst RawRole.client = IsAmong src own × IsV4 dst
PlaysRawRole own src dst RawRole.server = IsV4 src × IsAmong dst own

-- The user's role is about the addresses of the default interface.
abbrev pub UserPlays : List NetworkInterface → RawConfig → SocketAddr → SocketAddr → Type 0
UserPlays interfaces raw remote target =
    (device : NetworkInterface)
    → get_default_interface interfaces ≡ ok device
    → Given (PlaysRawRole (ipv4s_of device.ips) remote.ip target.ip) raw.role

PlaysRawRole-PlaysRole :
    (own : List Ipv4Addr) (src dst : IpAddr) (role : RawRole)
    → PlaysRawRole own src dst role
    → PlaysRole src dst (to_role own role)
PlaysRawRole-PlaysRole own src dst RawRole.client plays = plays
PlaysRawRole-PlaysRole own src dst RawRole.server plays = plays

abbrev pub rules_of : RawConfig → List RawRule
rules_of raw = unwrap_or raw.rules []

role_allows-of_role :
    (remote target : SocketAddr) (role : Option Role)
    → Given (PlaysRole remote.ip target.ip) role
    → role_allows remote target role ≡ true
role_allows-of_role remote target none plays = refl
role_allows-of_role remote target (some role) plays =
    (select_role_iff remote.ip target.ip role).1 plays

Given-mapped :
    {A B : Type 0} (P : A → Type 0) (Q : B → Type 0) (f : A → B) (o : Option A)
    → ((a : A) → P a → Q (f a))
    → Given P o
    → Given Q (Option.map f o)
Given-mapped P Q f none follows g = tt
Given-mapped P Q f (some a) follows g = follows a g

module _ (h : Http) (t : Tls) where
  -- The user's rule is about requests, about this one, and aborts.
  pub record UserAborts (port : ℕ) (r : Request h) (raw : RawRule) : Type 0 where
    pub targets : raw.target ≡ RawTarget.request
    pub selects : UserSelects h port r raw.selector
    pub aborts : raw.actions.abort ≡ some true

  abbrev pub NotUserSelects : ℕ → Request h → RawRule → Type 0
  NotUserSelects port r raw = ¬ UserSelects h port r raw.selector

  module _ (headers : HeaderLaws h) (codes : CodeLaws h) (up : Upstream h t.ClientConfig) where
    KeepsRule-AbortsRequest :
        (port : ℕ) (r : Request h) (raw : RawRule) (rule : Rule h)
        → KeepsRule h raw rule
        → UserAborts port r raw
        → AbortsRequest h t.ClientConfig up port r rule
    unfolding to_target
    KeepsRule-AbortsRequest port r raw rule keeps w = record {
      targets = keeps.target_kept ∙ ap to_target w.targets;
      selects = (select_request_iff h headers codes port r rule.selector).1 (
          (KeepsSelector-UserSelects h port r raw.selector rule.selector keeps.selector_kept).0
            w.selects);
      aborts = keeps.actions_kept.abort_kept ∙ ap (λ o. unwrap_or o false) w.aborts;
    }

    KeepsRules-AbortsRequest :
        (port : ℕ) (r : Request h) (raws : List RawRule) (rules : List (Rule h))
        → KeepsRules h raws rules
        → Some (UserAborts port r) raws
        → Some (AbortsRequest h t.ClientConfig up port r) rules
    KeepsRules-AbortsRequest port r [] rules keeps found = elim found [ ]
    KeepsRules-AbortsRequest port r (raw ∷ raws) [] keeps found = elim keeps [ ]
    KeepsRules-AbortsRequest port r (raw ∷ raws) (rule ∷ rules) keeps (inl here) =
        inl (KeepsRule-AbortsRequest port r raw rule keeps.0 here)
    KeepsRules-AbortsRequest port r (raw ∷ raws) (rule ∷ rules) keeps (inr later) =
        inr (KeepsRules-AbortsRequest port r raws rules keeps.1 later)

    KeepsRules-Unselected :
        (port : ℕ) (r : Request h) (raws : List RawRule) (rules : List (Rule h))
        → KeepsRules h raws rules
        → All (NotUserSelects port r) raws
        → All (Unselected h t.ClientConfig up headers codes port r) rules
    KeepsRules-Unselected port r [] [] keeps out = tt
    KeepsRules-Unselected port r [] (rule ∷ rules) keeps out = elim keeps [ ]
    KeepsRules-Unselected port r (raw ∷ raws) [] keeps out = elim keeps [ ]
    KeepsRules-Unselected port r (raw ∷ raws) (rule ∷ rules) keeps out = (
      λ selects. out.0 (
          (KeepsSelector-UserSelects h port r raw.selector rule.selector keeps.0.selector_kept).1
            selects),
      KeepsRules-Unselected port r raws rules keeps.1 out.1,
    )

    -- What a configuration of the proxy keeps of the user's: the rules, and the role on the
    -- addresses of the default interface.
    pub record Delivers (interfaces : List NetworkInterface) (raw : RawConfig)
        (config : HttpConfig h) : Type 0 where
      pub rules_kept : KeepsRules h (rules_of raw) config.rules
      pub device : NetworkInterface
      pub device_is_default : get_default_interface interfaces ≡ ok device
      pub role_kept : config.role ≡ Option.map (to_role (ipv4s_of device.ips)) raw.role

    pub told-Delivers :
        (interfaces : List NetworkInterface) (raw : RawConfig) (told : ProxyRawConfig)
        (config : Config h t)
        → to_proxy_config interfaces raw ≡ ok told
        → FitsRaw t h told config
        → Delivers interfaces raw config.http_config
    told-Delivers interfaces raw told config e kept =
        let fits = to_proxy_config-Fits interfaces raw told e in
        record {
          rules_kept =
              subst (λ rules. KeepsRules h rules config.http_config.rules) fits.rules_told
                kept.rules_kept;
          device = fits.device;
          device_is_default = fits.device_is_default;
          role_kept = kept.role_kept ∙ fits.role_told;
        }

    module _ (interfaces : List NetworkInterface) (raw : RawConfig)
        (service : HttpService h t.ClientConfig)
        (kept : Delivers interfaces raw service.config) where
      Delivers-role_ok :
          UserPlays interfaces raw service.remote service.target
          → role_ok h t.ClientConfig up service ≡ true
      unfolding role_ok
      Delivers-role_ok plays =
          let own = ipv4s_of kept.device.ips in
          let plays_role = PlaysRole service.remote.ip service.target.ip in
          role_allows-of_role service.remote service.target service.config.role (
            subst (Given plays_role) (sym kept.role_kept) (
              Given-mapped (PlaysRawRole own service.remote.ip service.target.ip) plays_role
                (to_role own) raw.role
                (PlaysRawRole-PlaysRole own service.remote.ip service.target.ip)
                (plays kept.device kept.device_is_default)))

      pub Delivers-aborts :
          (r : Request h)
          → UserPlays interfaces raw service.remote service.target
          → Some (UserAborts service.target.port r) (rules_of raw)
          → Fails h (result (handle h t.ClientConfig up service r))
            × (sent h (events (handle h t.ClientConfig up service r)) ≡ 0)
      Delivers-aborts r plays found =
          handle-aborts h t.ClientConfig up service r (Delivers-role_ok plays) (
            KeepsRules-AbortsRequest service.target.port r (rules_of raw) service.config.rules
              kept.rules_kept found)

      pub Delivers-passes :
          (r : Request h)
          → All (NotUserSelects service.target.port r) (rules_of raw)
          → handle h t.ClientConfig up service r ≡ pass_through h t.ClientConfig up service r
      Delivers-passes r out = handle-Unselected h t.ClientConfig up headers codes service r (
          KeepsRules-Unselected service.target.port r (rules_of raw) service.config.rules
            kept.rules_kept out)
