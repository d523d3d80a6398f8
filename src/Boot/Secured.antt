-- ===== src/Boot/Secured.antt =====
-- The parts of a state that was built, and its authentication if it is configured for HMAC.
use ai_wallet.Prelude.{
  subst, [], String, ◌≡◌, Option, none, some, Result, Result-cases, ok, err, arith, refl, true,
  unwrap_or, inl, inr, ap, ◌∙◌,
}
use ai_wallet.Crates.{Crates}
use ai_wallet.Error.{AppError}
use ai_wallet.Config.{AppConfig, AuthMode, Env, lower_is, read_auth_mode, from_env}
use ai_wallet.Audit.{Postgres}
use ai_wallet.Auth.{ApiAuth, from_config}
use ai_wallet.Signer.{SignerGateway}
use ai_wallet.Signer.Tls.{Host}
use ai_wallet.Broadcast
use ai_wallet.Boot.{build_signer, build_audit_repository, Built, build_state}

pub from_config-hmac :
    (key secret : Option String) (skew : _) (auth : ApiAuth)
    → from_config AuthMode.hmac key secret skew ≡ ok auth
    → (k : String) × (s : String) × (key ≡ some k)
      × (secret ≡ some s)
      × (auth ≡ ApiAuth.hmac (record { api_key = k; api_secret = s; max_skew_seconds = skew }))
unfolding from_config
from_config-hmac none secret skew auth h = cc
from_config-hmac (some k) none skew auth h = cc
from_config-hmac (some k) (some s) skew auth h = (k, s, refl, refl, ground arith)

module _ (K : Crates) (H : Host K) (P : Postgres K) where
  -- The authentication of a state that was built.
  abbrev auth_or : ApiAuth → Result (Built K H P) AppError → ApiAuth
  auth_or auth (err e) = auth
  auth_or auth (ok built) = built.app.api_auth

  -- The signer of a state that was built.
  abbrev signer_or : SignerGateway K → Result (Built K H P) AppError → SignerGateway K
  signer_or signer (err e) = signer
  signer_or signer (ok built) = built.app.signer

  pub build_state-parts :
      (config : AppConfig) (built : Built K H P)
      → build_state K H P config ≡ ok built
      → (build_signer K H P config config.signer_mode ≡ ok built.app.signer)
        × (from_config config.auth_mode config.api_key config.api_secret
              config.auth_max_skew_seconds
            ≡ ok built.app.api_auth)
  unfolding build_state
  build_state-parts config built h =
      elim (Result-cases (build_signer K H P config config.signer_mode)) [
        | inr (x, e1) ↦ absurd (ground arith)
        | inl (signer, e1) ↦
            elim (Result-cases (build_audit_repository K H P config.database_url)) [
              | inr (x, e2) ↦ absurd (ground arith)
              | inl (audit, e2) ↦
                  elim (Result-cases (
                    from_config config.auth_mode config.api_key config.api_secret
                      config.auth_max_skew_seconds)) [
                        | inr (x, e3) ↦ absurd (ground arith)
                        | inl (auth, e3) ↦
                            let auths : auth_or auth (build_state K H P config)
                                ≡ built.app.api_auth =
                              ap (auth_or auth) h in
                            let signers : signer_or signer (build_state K H P config)
                                ≡ built.app.signer =
                              ap (signer_or signer) h in
                            let auths1 = rw e1 at auths in
                            let auths2 = rw e2 at auths1 in
                            let auths3 = rw e3 at auths2 in
                            let signers1 = rw e1 at signers in
                            let signers2 = rw e2 at signers1 in
                            let signers3 = rw e3 at signers2 in
                            (e1 ∙ ap ok signers3, e3 ∙ ap ok auths3)
                      ]
            ]
      ]

  abbrev IsNewStore : Result (Built K H P) AppError → Type 0
  IsNewStore (err e) = Unit
  IsNewStore (ok built) =
      built.store
      ≡ record { audited = built.store.audited; service = Broadcast.new K; spawned = [] }

  -- Nothing has happened to a state that was built.
  pub build_state-store :
      (config : AppConfig) (built : Built K H P)
      → build_state K H P config ≡ ok built
      → built.store
        ≡ record { audited = built.store.audited; service = Broadcast.new K; spawned = [] }
  unfolding build_state
  build_state-store config built h =
      subst IsNewStore h (elim (Result-cases (build_signer K H P config config.signer_mode)) [
        | inr (x, e1) ↦ rw e1 tt
        | inl (signer, e1) ↦
            elim (Result-cases (build_audit_repository K H P config.database_url)) [
              | inr (x, e2) ↦ rw e1 (rw e2 tt)
              | inl (audit, e2) ↦
                  elim (Result-cases (
                    from_config config.auth_mode config.api_key config.api_secret
                      config.auth_max_skew_seconds)) [
                        | inr (x, e3) ↦ rw e1 (rw e2 (rw e3 tt))
                        | inl (auth, e3) ↦ rw e1 (rw e2 (rw e3 refl))
                      ]
            ]
      ])

  -- If `AI_WALLET_AUTH_MODE` is `hmac`, in letters of any case, a state is built only where the key
  -- and the secret are set, and it checks requests against them.
  pub build_state-hmac :
      (env : Env) (built : Built K H P)
      → lower_is (unwrap_or "disabled" (env "AI_WALLET_AUTH_MODE")) "hmac" ≡ true
      → build_state K H P (from_env env) ≡ ok built
      → (key : String) × (secret : String) × (env "AI_WALLET_API_KEY" ≡ some key)
        × (env "AI_WALLET_API_SECRET" ≡ some secret)
        × (built.app.api_auth
            ≡ ApiAuth.hmac (record {
              api_key = key;
              api_secret = secret;
              max_skew_seconds = (from_env env).auth_max_skew_seconds;
            }))
  unfolding from_env read_auth_mode
  build_state-hmac env built mode h =
      let (_, auth) = build_state-parts (from_env env) built h in
      from_config-hmac (env "AI_WALLET_API_KEY") (env "AI_WALLET_API_SECRET")
        (from_env env).auth_max_skew_seconds built.app.api_auth (rw mode at auth)
