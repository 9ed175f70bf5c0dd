-- ===== src/RawConfig/Tls/Sample.antt =====
-- A concrete instance of the crates behind TLS, for the examples: a file's certificates and keys are
-- its bytes, one to an item, and a certificate that starts with 0 is no trust anchor.
use chaos_tproxy.Prelude.{ℕ, List, [], ◌∷◌, some, map, if◌then◌else◌, ◌==◌}
use chaos_tproxy.Outcome.{Result, ok, err, library}
use chaos_tproxy.External.{Bytes}
use chaos_tproxy.RawConfig.{contents, TlsRawConfig}
use chaos_tproxy.RawConfig.Tls.{Tls, TlsConfig}

abbrev items : Bytes → List Bytes
items = map (λ b. b ∷ [])

abbrev anchor_of : Bytes → Result ℕ
anchor_of [] = err (library "empty")
anchor_of (b ∷ bs) = if b == 0 then err (library "bad anchor") else ok b

abbrev pub sample_tls : Tls
sample_tls = record {
  read_file = λ path. err (library "no file");
  certs = λ b. ok (items b);
  rsa_private_keys = λ b. ok (items b);
  TrustAnchor = ℕ;
  trust_anchor = anchor_of;
  default_roots = 100 ∷ 101 ∷ [];
  ClientConfig = List ℕ;
  ServerConfig = List Bytes;
  client_config = λ roots. roots;
  single_cert = λ chain key. ok (key ∷ chain);
}

abbrev pub raw_tls : TlsRawConfig
raw_tls = record {
  cert_file = contents (1 ∷ 2 ∷ []);
  key_file = contents (7 ∷ 8 ∷ []);
  ca_file = some (contents (5 ∷ []));
}

abbrev pub made_tls : TlsConfig sample_tls
made_tls = record {
  tls_client_config = 5 ∷ [];
  tls_server_config = (7 ∷ []) ∷ (1 ∷ []) ∷ (2 ∷ []) ∷ [];
}
