-- ===== src/Handler/Rule.antt =====
-- chaos-tproxy-proxy/src/handler/http/rule.rs, the struct of selector.rs and those of action.rs:
-- what a checked rule holds. The role and the addresses are those of raw_config.rs and std::net.
use chaos_tproxy.Prelude.{ℕ, Bool, List, Option, String}
use chaos_tproxy.External.{Http, Bytes, HashMap}

-- `Ipv4Addr` and `Ipv6Addr` are their numbers.
abbrev pub Ipv4Addr : Type 0
Ipv4Addr = ℕ

pub data IpAddr : Type 0 where
  v4 : Ipv4Addr → IpAddr
  v6 : ℕ → IpAddr

pub record SocketAddr : Type 0 where
  pub ip : IpAddr
  pub port : ℕ

pub data Role : Type 0 where
  client : List Ipv4Addr → Role
  server : List Ipv4Addr → Role

pub data Target : Type 0 where
  request : Target
  response : Target

pub record Selector (h : Http) : Type 0 where
  pub port : Option ℕ
  pub path : Option h.WildMatch
  pub method : Option h.Method
  pub code : Option h.StatusCode
  pub request_headers : Option h.HeaderMap
  pub response_headers : Option h.HeaderMap

pub data PatchBodyActionContents (h : Http) : Type 0 where
  json : h.Value → PatchBodyActionContents h

pub record PatchBodyAction (h : Http) : Type 0 where
  pub contents : PatchBodyActionContents h

pub record ReplaceBodyAction : Type 0 where
  pub contents : Bytes

pub record PatchAction (h : Http) : Type 0 where
  pub body : Option (PatchBodyAction h)
  pub queries : Option String
  pub headers : Option h.HeaderMap

pub record ReplaceAction (h : Http) : Type 0 where
  pub path : Option String
  pub method : Option h.Method
  pub body : Option ReplaceBodyAction
  pub code : Option h.StatusCode
  pub queries : Option HashMap
  pub headers : Option h.HeaderMap

-- A `Duration` is its length in nanoseconds.
pub record Actions (h : Http) : Type 0 where
  pub abort : Bool
  pub delay : Option ℕ
  pub replace : Option (ReplaceAction h)
  pub patch : Option (PatchAction h)

pub record Rule (h : Http) : Type 0 where
  pub target : Target
  pub selector : Selector h
  pub actions : Actions h
