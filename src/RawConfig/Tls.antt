-- ===== src/RawConfig/Tls.antt =====
-- `Config` and `TLSConfig` of chaos-tproxy-proxy/src/proxy/http/config.rs, and their `TryFrom` in
-- chaos-tproxy-proxy/src/raw_config.rs. The record `Tls` stands for the file system, rustls,
-- rustls_pemfile and webpki.
pub mod Laws
pub mod Sample
mod Tests
use chaos_tproxy.Prelude.{List, [], ◌∷◌, Option, none, some, String}
use chaos_tproxy.Outcome.{Error, Result, ok, err, empty_key, invalid_cert, invalid_key, panicked}
use chaos_tproxy.Outcome.Results.{◌>>=◌, transpose, collect}
use chaos_tproxy.External.{Http, Bytes}
use chaos_tproxy.Service.{HttpConfig}
use chaos_tproxy.RawConfig.{RawFile, path, contents, TlsRawConfig, RawConfig}
use chaos_tproxy.RawConfig.Convert.{to_rules}

-- `certs` and `rsa_private_keys` read the items of a PEM file.
pub record Tls : Type 1 where
  pub read_file : String → Result Bytes
  pub certs : Bytes → Result (List Bytes)
  pub rsa_private_keys : Bytes → Result (List Bytes)
  pub TrustAnchor : Type 0
  pub trust_anchor : Bytes → Result TrustAnchor
  pub default_roots : List TrustAnchor
  pub ClientConfig : Type 0
  pub ServerConfig : Type 0
  pub client_config : List TrustAnchor → ClientConfig
  pub single_cert : List Bytes → Bytes → Result ServerConfig

pub record TlsConfig (t : Tls) : Type 0 where
  pub tls_client_config : t.ClientConfig
  pub tls_server_config : t.ServerConfig

pub record Config (h : Http) (t : Tls) : Type 0 where
  pub http_config : HttpConfig h
  pub tls_config : Option (TlsConfig t)

abbrev pub map_err {ℓ} : {A : Type ℓ} → Error → Result A → Result A
map_err e (ok a) = ok a
map_err e (err _) = err e

module _ (t : Tls) where
  -- `TryFrom<RawFile> for Vec<u8>`
  unfoldable pub file_bytes : RawFile → Result Bytes
  file_bytes (contents c) = ok c
  file_bytes (path p) = t.read_file p

  -- `if keys.is_empty() { return Err }` and `keys[0]`
  abbrev pub first_key : List Bytes → Result Bytes
  first_key [] = err empty_key
  first_key (key ∷ _) = ok key

  -- The roots of the file, each of which is unwrapped, or the built-in ones.
  unfoldable pub trust_roots : Option RawFile → Result (List t.TrustAnchor)
  trust_roots none = ok t.default_roots
  trust_roots (some cafile) = do
    bytes ← file_bytes cafile
    found ← t.certs bytes
    collect (λ cert. map_err panicked (t.trust_anchor cert)) found

  unfoldable pub to_tls_config : TlsRawConfig → Result (TlsConfig t)
  to_tls_config raw = do
    cert_bytes ← file_bytes raw.cert_file
    chain ← map_err invalid_cert (t.certs cert_bytes)
    key_bytes ← file_bytes raw.key_file
    keys ← map_err invalid_key (t.rsa_private_keys key_bytes)
    key ← first_key keys
    roots ← trust_roots raw.ca_file
    server ← t.single_cert chain key
    ok (record { tls_client_config = t.client_config roots; tls_server_config = server })

  -- `TryFrom<RawConfig> for Config`
  unfoldable pub to_config : (h : Http) → RawConfig → Result (Config h t)
  to_config h raw = do
    rules ← to_rules h raw.rules
    tls ← transpose to_tls_config raw.tls
    ok (record {
      http_config = record { listen_port = raw.listen_port; role = raw.role; rules = rules };
      tls_config = tls;
    })
