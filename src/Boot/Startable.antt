-- ===== src/Boot/Startable.antt =====
-- When a state can be built.
use ai_wallet.Prelude.{
  String, ◌≡◌, ◌↔◌, Option, none, some, Result-cases, ok, arith, refl, true, unwrap_or, inl, inr,
  IsOk, IsOk-eq,
}
use ai_wallet.Crates.{Crates}
use ai_wallet.Config.{
  AppConfig, AuthMode, SignerMode, Env, lower_is, read_auth_mode, read_signer_mode, from_env,
}
use ai_wallet.Audit.{Postgres, postgres_connect}
use ai_wallet.Auth.{from_config}
use ai_wallet.Signer.Remote.{RemoteSignerClient}
use ai_wallet.Signer.Tls.{Host, new_client}
use ai_wallet.Boot.{build_signer, build_audit_repository, Built, build_state}
use ai_wallet.Boot.Chosen.{build_signer-Chosen}
use ai_wallet.Boot.Secured.{build_state-hmac, build_state-parts}

-- A variable is set.
abbrev IsGiven : Option String → Type 0
IsGiven o = (s : String) × (o ≡ some s)

from_config-IsOk :
    (mode : AuthMode) (key secret : Option String) (skew : _)
    → (mode ≡ AuthMode.hmac → IsGiven key × IsGiven secret)
    → IsOk (from_config mode key secret skew)
unfolding from_config
from_config-IsOk AuthMode.disabled key secret skew h = tt
from_config-IsOk AuthMode.hmac key secret skew h = let ((k, p), (s, q)) = h refl in rw p (rw q tt)

module _ (K : Crates) (H : Host K) (P : Postgres K) where
  -- The URL and the three files are set, and a client can be made of them.
  abbrev HasClient : AppConfig → Type 0
  HasClient config =
      (url : String) × (cert : String) × (key : String) × (ca : String)
      × (client : RemoteSignerClient K) × (config.signer_url ≡ some url)
      × (config.signer_client_cert_path ≡ some cert)
      × (config.signer_client_key_path ≡ some key)
      × (config.signer_ca_cert_path ≡ some ca)
      × (new_client K H url cert key ca ≡ ok client)

  build_signer-IsOk :
      (config : AppConfig) (mode : SignerMode)
      → (mode ≡ SignerMode.remote_mtls → HasClient config)
      → IsOk (build_signer K H P config mode)
  unfolding build_signer
  build_signer-IsOk config SignerMode.mock h = tt
  build_signer-IsOk config SignerMode.local_dev h = tt
  build_signer-IsOk config SignerMode.remote_mtls h =
      let (url, cert, key, ca, client, p, q, r, s, made) = h refl in
      rw p (rw q (rw r (rw s (rw made tt))))

  build_signer-HasClient :
      (config : AppConfig) (mode : SignerMode) (signer : _)
      → build_signer K H P config mode ≡ ok signer
      → mode ≡ SignerMode.remote_mtls
      → HasClient config
  build_signer-HasClient config mode signer h remote =
      let (url, cert, key, ca, client, p, q, r, s, made, _) =
        build_signer-Chosen K H P config SignerMode.remote_mtls signer (rw remote at h) in
      (url, cert, key, ca, client, p, q, r, s, made)

  -- The URL of a database is one that can be connected to.
  abbrev Connects : Option String → Type 0
  Connects url = (u : String) → url ≡ some u → IsOk (postgres_connect K P u)

  build_audit_repository-IsOk :
      (url : Option String) → Connects url → IsOk (build_audit_repository K H P url)
  unfolding build_audit_repository
  build_audit_repository-IsOk none h = tt
  build_audit_repository-IsOk (some u) h =
      let (pool, e) = IsOk-eq (postgres_connect K P u) (h u refl) in rw e tt

  build_audit_repository-Connects :
      (url : Option String) → IsOk (build_audit_repository K H P url) → Connects url
  unfolding build_audit_repository
  build_audit_repository-Connects none h u e = cc
  build_audit_repository-Connects (some u) h v e = elim (Result-cases (postgres_connect K P u)) [
    | inl (pool, connected) ↦
        let same : u ≡ v = cc in let moved = rw same at connected in rw moved tt
    | inr (x, refused) ↦ absurd (rw refused at h)
  ]

  -- What a start needs of the environment.
  pub record IsStartable (env : Env) : Type 0 where
    pub authentication :
        lower_is (unwrap_or "disabled" (env "AI_WALLET_AUTH_MODE")) "hmac" ≡ true
        → IsGiven (env "AI_WALLET_API_KEY") × IsGiven (env "AI_WALLET_API_SECRET")
    pub signer :
        read_signer_mode (unwrap_or "mock" (env "AI_WALLET_SIGNER_MODE")) ≡ SignerMode.remote_mtls
        → HasClient (from_env env)
    pub database : Connects (env "DATABASE_URL")

  build_state-IsOk :
      (config : AppConfig)
      → IsOk (build_signer K H P config config.signer_mode)
      → IsOk (build_audit_repository K H P config.database_url)
      → IsOk (
          from_config config.auth_mode config.api_key config.api_secret
            config.auth_max_skew_seconds)
      → IsOk (build_state K H P config)
  unfolding build_state
  build_state-IsOk config signer audit auth =
      let (_, e1) = IsOk-eq (build_signer K H P config config.signer_mode) signer in
      let (_, e2) = IsOk-eq (build_audit_repository K H P config.database_url) audit in
      let (_, e3) =
        IsOk-eq
          (from_config config.auth_mode config.api_key config.api_secret
            config.auth_max_skew_seconds)
          auth in
      rw e1 (rw e2 (rw e3 tt))

  build_state-database :
      (config : AppConfig) (built : Built K H P)
      → build_state K H P config ≡ ok built
      → IsOk (build_audit_repository K H P config.database_url)
  unfolding build_state
  build_state-database config built h =
      elim (Result-cases (build_signer K H P config config.signer_mode)) [
        | inr (x, e1) ↦ absurd (ground arith)
        | inl (signer, e1) ↦
            elim (Result-cases (build_audit_repository K H P config.database_url)) [
              | inr (x, e2) ↦ absurd (ground arith)
              | inl (audit, e2) ↦ rw e2 tt
            ]
      ]

  read_auth_mode-hmac :
      (word : String) → read_auth_mode word ≡ AuthMode.hmac → lower_is word "hmac" ≡ true
  unfolding read_auth_mode
  read_auth_mode-hmac word e = ground arith

  startable :
      (env : Env) (built : Built K H P)
      → build_state K H P (from_env env) ≡ ok built
      → IsStartable env
  unfolding from_env
  startable env built h =
      let (signer, _) = build_state-parts K H P (from_env env) built h in
      record {
        authentication = λ mode.
            let (key, secret, p, q, _) = build_state-hmac K H P env built mode h in
            ((key, p), (secret, q));
        signer = build_signer-HasClient (from_env env) (from_env env).signer_mode _ signer;
        database =
            build_audit_repository-Connects (env "DATABASE_URL")
              (build_state-database (from_env env) built h);
      }

  -- The service starts exactly when the key and the secret are set if the mode is `hmac`, the URL and
  -- the files that a client is made of are there if the signer is remote, and the database, if one is
  -- named, can be connected to.
  pub build_state-eq-ok_iff :
      (env : Env)
      → ((built : Built K H P) × (build_state K H P (from_env env) ≡ ok built)) ↔ IsStartable env
  unfolding from_env
  build_state-eq-ok_iff env = (
    λ (built, h). startable env built h,
    λ h. IsOk-eq (build_state K H P (from_env env)) (
        build_state-IsOk (from_env env)
          (build_signer-IsOk (from_env env) (from_env env).signer_mode h.signer)
          (build_audit_repository-IsOk (env "DATABASE_URL") h.database)
          (from_config-IsOk (from_env env).auth_mode (from_env env).api_key
            (from_env env).api_secret (from_env env).auth_max_skew_seconds
            (λ mode.
              h.authentication
                (read_auth_mode-hmac (unwrap_or "disabled" (env "AI_WALLET_AUTH_MODE")) mode)))),
  )
