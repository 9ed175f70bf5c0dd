-- ===== src/RawConfig/Tls/Laws.antt =====
-- What a configuration that converts holds.
use chaos_tproxy.Prelude.{◌≡◌, refl, ◌∙◌, ap, subst, List, [], ◌∷◌, Option, none, some}
use chaos_tproxy.Outcome.{Error, Result, ok, err, invalid_cert, invalid_key, panicked}
use chaos_tproxy.Outcome.Results.{transpose, collect, ok_parts, ok-injective}
use chaos_tproxy.External.{Http, Bytes}
use chaos_tproxy.RawConfig.{RawFile, TlsRawConfig, RawConfig}
use chaos_tproxy.RawConfig.Convert.{to_rules}
use chaos_tproxy.RawConfig.Laws.{KeepsRules, to_rules-KeepsRules}
use chaos_tproxy.RawConfig.Tls.{
  Tls, TlsConfig, Config, map_err, file_bytes, first_key, trust_roots, to_tls_config, to_config,
}

map_err-ok {ℓ} : {A : Type ℓ} (e : Error) (r : Result A) {a : A} → map_err e r ≡ ok a → r ≡ ok a
map_err-ok e (ok b) same = same
map_err-ok e (err e') same = cc

module _ (t : Tls) where
  -- Each certificate stands for one root, in order.
  abbrev pub Anchors : List Bytes → List t.TrustAnchor → Type 0
  Anchors [] [] = Unit
  Anchors [] (_ ∷ _) = ⊥
  Anchors (_ ∷ _) [] = ⊥
  Anchors (cert ∷ certs) (root ∷ roots) = (t.trust_anchor cert ≡ ok root) × Anchors certs roots

  -- The roots that the client trusts: those of the file and no other, or the built-in ones.
  abbrev pub Trusts : Option RawFile → List t.TrustAnchor → Type 0
  Trusts none roots = roots ≡ t.default_roots
  Trusts (some cafile) roots =
      (bytes : Bytes) × (found : List Bytes) × (file_bytes t cafile ≡ ok bytes)
      × (t.certs bytes ≡ ok found)
      × Anchors found roots

  -- The certificate chain and the first private key of the files, and the trusted roots.
  pub record FitsTls (raw : TlsRawConfig) (tls : TlsConfig t) : Type 0 where
    pub cert_bytes : Bytes
    pub key_bytes : Bytes
    pub chain : List Bytes
    pub key : Bytes
    pub spare : List Bytes
    pub roots : List t.TrustAnchor
    pub cert_read : file_bytes t raw.cert_file ≡ ok cert_bytes
    pub chain_read : t.certs cert_bytes ≡ ok chain
    pub key_read : file_bytes t raw.key_file ≡ ok key_bytes
    pub keys_read : t.rsa_private_keys key_bytes ≡ ok (key ∷ spare)
    pub trusted : Trusts raw.ca_file roots
    pub server_set : t.single_cert chain key ≡ ok tls.tls_server_config
    pub client_set : tls.tls_client_config ≡ t.client_config roots

  abbrev pub FitsTlsOption : Option TlsRawConfig → Option (TlsConfig t) → Type 0
  FitsTlsOption none none = Unit
  FitsTlsOption none (some tls) = ⊥
  FitsTlsOption (some raw) none = ⊥
  FitsTlsOption (some raw) (some tls) = FitsTls raw tls

  first_key-parts :
      (keys : List Bytes) {key : Bytes}
      → first_key t keys ≡ ok key
      → (spare : List Bytes) × (keys ≡ key ∷ spare)
  first_key-parts [] e = cc
  first_key-parts (k ∷ keys) e = (keys, ap (λ x. x ∷ keys) (ok-injective e))

  anchored :
      (found : List Bytes) (roots : List t.TrustAnchor)
      → collect (λ cert. map_err panicked (t.trust_anchor cert)) found ≡ ok roots
      → Anchors found roots
  anchored [] [] e = tt
  anchored [] (root ∷ roots) e = cc
  anchored (cert ∷ found) roots e =
      let (root, e₁, f₁) = ok_parts (map_err panicked (t.trust_anchor cert)) _ e in
      let (rest, e₂, f₂) =
        ok_parts (collect (λ cert. map_err panicked (t.trust_anchor cert)) found) _ f₁ in
      subst (Anchors (cert ∷ found)) (ok-injective f₂)
        (map_err-ok panicked (t.trust_anchor cert) e₁, anchored found rest e₂)

  trust_roots-Trusts :
      (ca_file : Option RawFile) (roots : List t.TrustAnchor)
      → trust_roots t ca_file ≡ ok roots
      → Trusts ca_file roots
  unfolding trust_roots
  trust_roots-Trusts none roots e = cc
  trust_roots-Trusts (some cafile) roots e =
      let (bytes, e₁, f₁) = ok_parts (file_bytes t cafile) _ e in
      let (found, e₂, f₂) = ok_parts (t.certs bytes) _ f₁ in
      (bytes, found, e₁, e₂, anchored found roots f₂)

  pub to_tls_config-FitsTls :
      (raw : TlsRawConfig) (tls : TlsConfig t) → to_tls_config t raw ≡ ok tls → FitsTls raw tls
  unfolding to_tls_config
  to_tls_config-FitsTls raw tls e =
      let (cert_bytes, e₁, f₁) = ok_parts (file_bytes t raw.cert_file) _ e in
      let (chain, e₂, f₂) = ok_parts (map_err invalid_cert (t.certs cert_bytes)) _ f₁ in
      let (key_bytes, e₃, f₃) = ok_parts (file_bytes t raw.key_file) _ f₂ in
      let (keys, e₄, f₄) = ok_parts (map_err invalid_key (t.rsa_private_keys key_bytes)) _ f₃ in
      let (key, e₅, f₅) = ok_parts (first_key t keys) _ f₄ in
      let (roots, e₆, f₆) = ok_parts (trust_roots t raw.ca_file) _ f₅ in
      let (server, e₇, f₇) = ok_parts (t.single_cert chain key) _ f₆ in
      let (spare, split) = first_key-parts keys e₅ in
      subst (FitsTls raw) (ok-injective f₇) (record {
        cert_bytes = cert_bytes;
        key_bytes = key_bytes;
        chain = chain;
        key = key;
        spare = spare;
        roots = roots;
        cert_read = e₁;
        chain_read = map_err-ok invalid_cert (t.certs cert_bytes) e₂;
        key_read = e₃;
        keys_read = map_err-ok invalid_key (t.rsa_private_keys key_bytes) e₄ ∙ ap ok split;
        trusted = trust_roots-Trusts raw.ca_file roots e₆;
        server_set = e₇;
        client_set = refl;
      })

  transposed-FitsTlsOption :
      (raw : Option TlsRawConfig) (tls : Option (TlsConfig t))
      → transpose (to_tls_config t) raw ≡ ok tls
      → FitsTlsOption raw tls
  transposed-FitsTlsOption none tls e = subst (FitsTlsOption none) (ok-injective e) tt
  transposed-FitsTlsOption (some raw) tls e =
      let (found, e₁, f₁) = ok_parts (to_tls_config t raw) _ e in
      subst (FitsTlsOption (some raw)) (ok-injective f₁) (to_tls_config-FitsTls raw found e₁)

  -- The configuration of the server, from the one that was read.
  pub record FitsRaw (h : Http) (raw : RawConfig) (config : Config h t) : Type 0 where
    pub port_kept : config.http_config.listen_port ≡ raw.listen_port
    pub role_kept : config.http_config.role ≡ raw.role
    pub rules_kept : KeepsRules h raw.rules config.http_config.rules
    pub tls_kept : FitsTlsOption raw.tls config.tls_config

  -- A configuration that converts keeps its port, its role and its rules in their order. It has TLS
  -- exactly if the raw one has: with the certificate chain and the first private key of the files
  -- for the server, and for the client one root for each certificate of the root file, or the
  -- built-in roots without such a file.
  pub to_config-FitsRaw :
      (h : Http) (raw : RawConfig) (config : Config h t)
      → to_config t h raw ≡ ok config
      → FitsRaw h raw config
  unfolding to_config
  to_config-FitsRaw h raw config e =
      let (rules, e₁, f₁) = ok_parts (to_rules h raw.rules) _ e in
      let (tls, e₂, f₂) = ok_parts (transpose (to_tls_config t) raw.tls) _ f₁ in
      subst (FitsRaw h raw) (ok-injective f₂) (record {
        port_kept = refl;
        role_kept = refl;
        rules_kept = to_rules-KeepsRules h raw.rules rules e₁;
        tls_kept = transposed-FitsTlsOption raw.tls tls e₂;
      })
