-- ===== src/RawConfig.antt =====
-- chaos-tproxy-proxy/src/raw_config.rs: the configuration as it is read, field by field.
-- Convert.antt and Tls.antt turn it into the checked rules of Handler/Rule.antt.
pub mod Convert
pub mod Tls
pub mod Laws
mod Tests
use chaos_tproxy.Prelude.{ℕ, Bool, List, Option, String}
use chaos_tproxy.External.{Bytes, HashMap}
use chaos_tproxy.Handler.Rule.{Role}

-- A path is its text.
pub data RawFile : Type 0 where
  path : String → RawFile
  contents : Bytes → RawFile

pub record TlsRawConfig : Type 0 where
  pub ca_file : Option RawFile
  pub cert_file : RawFile
  pub key_file : RawFile

pub data RawTarget : Type 0 where
  request : RawTarget
  response : RawTarget

pub record RawSelector : Type 0 where
  pub port : Option ℕ
  pub path : Option String
  pub method : Option String
  pub code : Option ℕ
  pub request_headers : Option HashMap
  pub response_headers : Option HashMap

pub data RawPatchBodyContents : Type 0 where
  json : String → RawPatchBodyContents

pub record RawPatchBody : Type 0 where
  pub contents : RawPatchBodyContents

pub record RawPatchAction : Type 0 where
  pub body : Option RawPatchBody
  pub queries : Option (List (String × String))
  pub headers : Option (List (String × String))

pub data RawReplaceBodyContents : Type 0 where
  text : String → RawReplaceBodyContents
  base64 : String → RawReplaceBodyContents

pub record RawReplaceBody : Type 0 where
  pub contents : RawReplaceBodyContents

pub record RawReplaceAction : Type 0 where
  pub path : Option String
  pub method : Option String
  pub body : Option RawReplaceBody
  pub code : Option ℕ
  pub queries : Option HashMap
  pub headers : Option HashMap

pub record RawActions : Type 0 where
  pub abort : Option Bool
  pub delay : Option ℕ
  pub replace : Option RawReplaceAction
  pub patch : Option RawPatchAction

pub record RawRule : Type 0 where
  pub target : RawTarget
  pub selector : RawSelector
  pub actions : RawActions

pub record RawConfig : Type 0 where
  pub proxy_ports : Option String
  pub listen_port : ℕ
  pub safe_mode : Bool
  pub rules : List RawRule
  pub role : Option Role
  pub tls : Option TlsRawConfig
