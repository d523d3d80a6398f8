-- ===== src/Signer/Tls.antt =====
-- src/signer_rpc.rs, the set-up of both ends of the signer RPC: `RemoteSignerClient::new`,
-- `load_rustls_config` and the helpers that read PEM files. Files, PEM and TLS are the host's.
use ai_wallet.Prelude.{
  String, List, [], ◌∷◌, ◌++◌, Option, Result, some, Option-cases, ok, map_err, ok_or, ◌>>=◌, ◌⧺◌,
  ◌≡◌, Result-cases, inl, inr, arith,
}
use ai_wallet.Crates.{Crates, Bytes}
use ai_wallet.Error.{AppError, internal}
use ai_wallet.Signer.Remote.{Send, RemoteSignerClient}

-- `fs`, `reqwest`'s TLS types, `rustls` and `rustls_pemfile`.
pub record Host (K : Crates) : Type 1 where
  pub read : String → Result Bytes String
  pub Identity : Type 0
  pub identity_from_pem : Bytes → Result Identity String
  pub Certificate : Type 0
  pub certificate_from_pem : Bytes → Result Certificate String
  pub build_client : Identity → Certificate → Result (Send K) String
  pub File : Type 0
  pub open_file : String → Result File String
  pub CertificateDer : Type 0
  pub certs : File → Result (List CertificateDer) String
  pub PrivateKeyDer : Type 0
  pub private_key : File → Result (Option PrivateKeyDer) String
  pub RootCertStore : Type 0
  pub empty_store : RootCertStore
  pub add_cert : RootCertStore → CertificateDer → Result RootCertStore String
  pub ClientVerifier : Type 0
  pub build_verifier : RootCertStore → Result ClientVerifier String
  pub ServerConfig : Type 0
  pub server_config :
      ClientVerifier → List CertificateDer → PrivateKeyDer → Result ServerConfig String

abbrev or_internal {ℓ} : {A : Type ℓ} → String → Result A String → Result A AppError
or_internal what = map_err (λ e. internal (what ⧺ ": " ⧺ e))

abbrev about_file {ℓ} : {A : Type ℓ} → String → String → Result A String → Result A AppError
about_file what path = map_err (λ e. internal (what ⧺ " `" ⧺ path ⧺ "`: " ⧺ e))

module _ (K : Crates) (H : Host K) where
  unfoldable pub combined_pem : String → String → Result Bytes AppError
  combined_pem cert_path key_path = do
    pem ← or_internal "failed to read client cert PEM" (H.read cert_path)
    key ← or_internal "failed to read client key PEM" (H.read key_path)
    ok (pem ++ key)

  unfoldable pub new_client :
      String → String → String → String → Result (RemoteSignerClient K) AppError
  new_client base_url client_cert_path client_key_path ca_cert_path = do
    pem ← combined_pem client_cert_path client_key_path
    identity ← or_internal "failed to load client identity" (H.identity_from_pem pem)
    ca_pem ← or_internal "failed to read signer CA cert" (H.read ca_cert_path)
    ca ← or_internal "failed to parse signer CA cert" (H.certificate_from_pem ca_pem)
    client ← or_internal "failed to build signer client" (H.build_client identity ca)
    ok (record { base_url = base_url; client = client })

  unfoldable pub load_certs : String → Result (List H.CertificateDer) AppError
  load_certs path = do
    file ← about_file "failed to open cert file" path (H.open_file path)
    about_file "failed to parse cert file" path (H.certs file)

  unfoldable pub load_key : String → Result H.PrivateKeyDer AppError
  load_key path = do
    file ← about_file "failed to open key file" path (H.open_file path)
    key ← about_file "failed to parse key file" path (H.private_key file)
    ok_or (internal ("no private key found in `" ⧺ path ⧺ "`")) key

  -- The loop over the certificates of a file.
  unfoldable pub add_certs :
      String → H.RootCertStore → List H.CertificateDer → Result H.RootCertStore AppError
  add_certs path store [] = ok store
  add_certs path store (cert ∷ certs) = do
    store' ←
        map_err (λ e. internal ("failed to add CA cert from `" ⧺ path ⧺ "`: " ⧺ e))
          (H.add_cert store cert)
    add_certs path store' certs

  unfoldable pub load_root_store : String → Result H.RootCertStore AppError
  load_root_store path = do certs ← load_certs path; add_certs path H.empty_store certs

  unfoldable pub load_rustls_config : String → String → String → Result H.ServerConfig AppError
  load_rustls_config cert_path key_path client_ca_cert_path = do
    certs ← load_certs cert_path
    key ← load_key key_path
    roots ← load_root_store client_ca_cert_path
    verifier ← or_internal "failed to build client cert verifier" (H.build_verifier roots)
    or_internal "failed to build TLS server config" (H.server_config verifier certs key)

  -- The certificates that a PEM file holds.
  abbrev pub CertsIn : String → List H.CertificateDer → Type 0
  CertsIn path certs = (file : H.File) × (H.open_file path ≡ ok file) × (H.certs file ≡ ok certs)

  -- The store `roots` is `store` with each of the certificates added.
  abbrev pub Adds : H.RootCertStore → List H.CertificateDer → H.RootCertStore → Type 0
  Adds store [] roots = store ≡ roots
  Adds store (cert ∷ certs) roots =
      (store' : H.RootCertStore) × (H.add_cert store cert ≡ ok store') × Adds store' certs roots

  -- A configuration of TLS with a check of the client's certificate: its verifier trusts what is in
  -- the client CA file and nothing else, and it has the certificates and the key of the server's files.
  pub record ChecksClients (cert_path key_path client_ca_cert_path : String)
      (config : H.ServerConfig) : Type 0 where
    pub certs : List H.CertificateDer
    pub anchors : List H.CertificateDer
    pub key_file : H.File
    pub key : H.PrivateKeyDer
    pub roots : H.RootCertStore
    pub verifier : H.ClientVerifier
    pub own : CertsIn cert_path certs
    pub opened : H.open_file key_path ≡ ok key_file
    pub has_key : H.private_key key_file ≡ ok (some key)
    pub trusted : CertsIn client_ca_cert_path anchors
    pub added : Adds H.empty_store anchors roots
    pub verifies : H.build_verifier roots ≡ ok verifier
    pub configured : H.server_config verifier certs key ≡ ok config

  load_certs-CertsIn :
      (path : String) (certs : List H.CertificateDer)
      → load_certs path ≡ ok certs
      → CertsIn path certs
  unfolding load_certs
  load_certs-CertsIn path certs h = elim (Result-cases (H.open_file path)) [
    | inr (x, e) ↦ absurd (ground arith)
    | inl (file, e) ↦ elim (Result-cases (H.certs file)) [
      | inr (x, e') ↦ absurd (ground arith)
      | inl (found, e') ↦ (file, e, ground arith)
    ]
  ]

  load_key_lem :
      (path : String) (key : H.PrivateKeyDer)
      → load_key path ≡ ok key
      → (file : H.File) × (H.open_file path ≡ ok file) × (H.private_key file ≡ ok (some key))
  unfolding load_key
  load_key_lem path key h = elim (Result-cases (H.open_file path)) [
    | inr (x, e) ↦ absurd (ground arith)
    | inl (file, e) ↦ elim (Result-cases (H.private_key file)) [
      | inr (x, e') ↦ absurd (ground arith)
      | inl (found, e') ↦ elim (Option-cases found) [
        | inl missing ↦ absurd (ground arith)
        | inr (k, there) ↦ (file, e, ground arith)
      ]
    ]
  ]

  add_certs-Adds :
      (path : String) (store : H.RootCertStore) (certs : List H.CertificateDer)
      (roots : H.RootCertStore)
      → add_certs path store certs ≡ ok roots
      → Adds store certs roots
  unfolding add_certs
  add_certs-Adds path store [] roots h = ground arith
  add_certs-Adds path store (cert ∷ certs) roots h = elim (Result-cases (H.add_cert store cert)) [
    | inr (x, e) ↦ absurd (ground arith)
    | inl (store', e) ↦ (store', e, add_certs-Adds path store' certs roots (ground arith))
  ]

  load_root_store_lem :
      (path : String) (roots : H.RootCertStore)
      → load_root_store path ≡ ok roots
      → (anchors : List H.CertificateDer) × CertsIn path anchors × Adds H.empty_store anchors roots
  unfolding load_root_store
  load_root_store_lem path roots h = elim (Result-cases (load_certs path)) [
    | inr (x, e) ↦ absurd (ground arith)
    | inl (certs, e) ↦ (
      certs,
      load_certs-CertsIn path certs e,
      add_certs-Adds path H.empty_store certs roots (ground arith),
    )
  ]

  pub load_rustls_config-ChecksClients :
      (cert_path key_path ca_path : String) (config : H.ServerConfig)
      → load_rustls_config cert_path key_path ca_path ≡ ok config
      → ChecksClients cert_path key_path ca_path config
  unfolding load_rustls_config
  load_rustls_config-ChecksClients cert_path key_path ca_path config h =
      elim (Result-cases (load_certs cert_path)) [
        | inr (x, e1) ↦ absurd (ground arith)
        | inl (certs, e1) ↦ elim (Result-cases (load_key key_path)) [
          | inr (x, e2) ↦ absurd (ground arith)
          | inl (key, e2) ↦ elim (Result-cases (load_root_store ca_path)) [
            | inr (x, e3) ↦ absurd (ground arith)
            | inl (roots, e3) ↦ elim (Result-cases (H.build_verifier roots)) [
              | inr (x, e4) ↦ absurd (ground arith)
              | inl (verifier, e4) ↦
                  let (key_file, opened, has_key) = load_key_lem key_path key e2 in
                  let (anchors, trusted, added) = load_root_store_lem ca_path roots e3 in
                  record {
                    certs = certs;
                    anchors = anchors;
                    key_file = key_file;
                    key = key;
                    roots = roots;
                    verifier = verifier;
                    own = load_certs-CertsIn cert_path certs e1;
                    opened = opened;
                    has_key = has_key;
                    trusted = trusted;
                    added = added;
                    verifies = e4;
                    configured = ground arith;
                  }
            ]
          ]
        ]
      ]
