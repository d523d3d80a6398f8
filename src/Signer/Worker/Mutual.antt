-- ===== src/Signer/Worker/Mutual.antt =====
-- The TLS set-up of the signer worker's process.
use ai_wallet.Prelude.{
  ◌≡◌, String, some, Option-cases, ok, arith, Result-cases, inl, inr, unwrap_or,
}
use ai_wallet.Crates.{Crates}
use ai_wallet.Config.{Env, from_env}
use ai_wallet.Signer.Tls.{Host, load_rustls_config, load_rustls_config-ChecksClients, ChecksClients}
use ai_wallet.Signer.Remote.{worker_sign}
use ai_wallet.Signer.Worker.{TlsNetwork, Endpoint, start, main}

module _ (K : Crates) (H : Host K) (net : TlsNetwork K H) where
  start-parts :
      (var : Env) (e : Endpoint K H net)
      → start K H net var ≡ ok e
      → (e.app ≡ worker_sign K (record { private_key = var "AI_WALLET_DEV_PRIVATE_KEY" }))
        × (cert : String) × (key : String) × (ca : String) × (var "AI_WALLET_SIGNER_TLS_CERT_PATH"
            ≡ some cert)
        × (var "AI_WALLET_SIGNER_TLS_KEY_PATH" ≡ some key)
        × (var "AI_WALLET_SIGNER_CLIENT_CA_CERT_PATH" ≡ some ca)
        × (load_rustls_config K H cert key ca ≡ ok e.tls)
  unfolding start from_env
  start-parts var e h = elim (Option-cases (var "AI_WALLET_SIGNER_TLS_CERT_PATH")) [
    | inl e1 ↦ absurd (ground arith)
    | inr (cert, e1) ↦ elim (Option-cases (var "AI_WALLET_SIGNER_TLS_KEY_PATH")) [
      | inl e2 ↦ absurd (ground arith)
      | inr (key, e2) ↦ elim (Option-cases (var "AI_WALLET_SIGNER_CLIENT_CA_CERT_PATH")) [
        | inl e3 ↦ absurd (ground arith)
        | inr (ca, e3) ↦ elim (Result-cases (load_rustls_config K H cert key ca)) [
          | inr (x, e4) ↦ absurd (ground arith)
          | inl (tls, e4) ↦
              elim (Result-cases
                (net.parse_addr (unwrap_or "127.0.0.1:9443" (var "AI_WALLET_SIGNER_BIND")))) [
                  | inr (x, e5) ↦ absurd (ground arith)
                  | inl (addr, e5) ↦ (ground arith, cert, key, ca, e1, e2, e3, ground arith)
                ]
        ]
      ]
    ]
  ]

  -- A worker that ends without a panic has served over mutual TLS: the three paths are set, and its
  -- configuration is made of the worker's own certificates, its key, and a verifier over a store to
  -- which the certificates of the client CA file have been added, and nothing else. What it has served is the dev signer on `AI_WALLET_DEV_PRIVATE_KEY`.
  pub main-mutual_tls :
      (var : Env)
      → main K H net var ≡ ok tt
      → (e : Endpoint K H net) × (net.serve_rustls e.addr e.tls e.app ≡ ok tt)
        × (e.app ≡ worker_sign K (record { private_key = var "AI_WALLET_DEV_PRIVATE_KEY" }))
        × (cert : String) × (key_path : String) × (ca : String) × (var
              "AI_WALLET_SIGNER_TLS_CERT_PATH"
            ≡ some cert)
        × (var "AI_WALLET_SIGNER_TLS_KEY_PATH" ≡ some key_path)
        × (var "AI_WALLET_SIGNER_CLIENT_CA_CERT_PATH" ≡ some ca)
        × ChecksClients K H cert key_path ca e.tls
  unfolding main
  main-mutual_tls var h = elim (Result-cases (start K H net var)) [
    | inr (x, bad) ↦ absurd (ground arith)
    | inl (e, made) ↦
        let (app, cert, key_path, ca, e1, e2, e3, loaded) = start-parts var e made in
        let checked = load_rustls_config-ChecksClients K H cert key_path ca e.tls loaded in
        (e, ground arith, app, cert, key_path, ca, e1, e2, e3, checked)
  ]
