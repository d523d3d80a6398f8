-- ===== src/Boot/Told.antt =====
-- What `/v1/info` of a service that was built tells of its environment.
use ai_wallet.Prelude.{
  String, ◌≡◌, ◌⊎◌, refl, sym, ap, subst, [], ◌∷◌, Option, none, some, Result, Result-cases, ok,
  err, inl, inr, unwrap_or, ℤ, if◌then◌else◌, arith,
}
use ai_wallet.Crates.{Crates}
use ai_wallet.Error.{AppError}
use ai_wallet.Config.{AppConfig, Env, lower_is, read_auth_mode, from_env}
use ai_wallet.Audit.{Postgres, postgres_connect}
use ai_wallet.Auth.{ApiAuth, HttpRequest, from_config, mode_name}
use ai_wallet.Model.{ApiInfo}
use ai_wallet.Signer.{SignerGateway}
use ai_wallet.Signer.Tls.{Host}
use ai_wallet.Api.Types.{Endpoint, Call, Draws, Store, Extract, answered, about}
use ai_wallet.Api.{serve, run_handler, handle, info_of, signer_mode_name}
use ai_wallet.Boot.{Backend, build_signer, build_audit_repository, Built, build_state}
use ai_wallet.Boot.Secured.{build_state-parts}
use ai_wallet.Boot.Chosen.{Named, ChosenBy, build_state-Chosen}

abbrev pub backend_of : Option String → String
backend_of none = "memory"
backend_of (some url) = "postgres"

-- A word stands for a signer in a process of its own, or for none.
abbrev pub IsolationOf : String → String → Type 0
IsolationOf word shown =
    ((Named word ("local" ∷ "local-dev" ∷ "local_dev" ∷ [])
        ⊎ Named word ("remote-mtls" ∷ "remote_mtls" ∷ "remote" ∷ []))
      × (shown ≡ "isolated-signer"))
    ⊎ (¬ Named word ("local" ∷ "local-dev" ∷ "local_dev" ∷ [])
        × ¬ Named word ("remote-mtls" ∷ "remote_mtls" ∷ "remote" ∷ [])
        × (shown ≡ "mock"))

mode_name-from_config :
    (word : String) (key secret : Option String) (skew : ℤ) (auth : ApiAuth)
    → from_config (read_auth_mode word) key secret skew ≡ ok auth
    → mode_name auth ≡ (if lower_is word "hmac" then "hmac" else "disabled")
unfolding read_auth_mode from_config mode_name
mode_name-from_config word key secret skew auth h = ground arith

module _ (K : Crates) (H : Host K) (P : Postgres K) where
  backend_or : Result (Backend K H P) AppError → String
  backend_or (ok audit) = audit.repository.backend_name
  backend_or (err e) = ""

  build_audit_repository-backend :
      (url : Option String) (audit : Backend K H P)
      → build_audit_repository K H P url ≡ ok audit
      → audit.repository.backend_name ≡ backend_of url
  unfolding build_audit_repository backend_or
  build_audit_repository-backend none audit h = sym (ap backend_or h)
  build_audit_repository-backend (some url) audit h =
      elim (Result-cases (postgres_connect K P url)) [
        | inr (x, e) ↦ absurd (ground arith)
        | inl (pool, e) ↦ let named = ap backend_or h in sym (rw e at named)
      ]

  abbrev HasBackend : String → Result (Built K H P) AppError → Type 0
  HasBackend name (err e) = Unit
  HasBackend name (ok built) = built.app.audit.backend_name ≡ name

  build_state-backend :
      (config : AppConfig) (built : Built K H P)
      → build_state K H P config ≡ ok built
      → built.app.audit.backend_name ≡ backend_of config.database_url
  unfolding build_state
  build_state-backend config built h =
      subst (HasBackend (backend_of config.database_url)) h
        (elim (Result-cases (build_signer K H P config config.signer_mode)) [
          | inr (x, e1) ↦ rw e1 tt
          | inl (signer, e1) ↦
              elim (Result-cases (build_audit_repository K H P config.database_url)) [
                | inr (x, e2) ↦ rw e1 (rw e2 tt)
                | inl (audit, e2) ↦
                    elim (Result-cases (
                      from_config config.auth_mode config.api_key config.api_secret
                        config.auth_max_skew_seconds)) [
                          | inr (x, e3) ↦ rw e1 (rw e2 (rw e3 tt))
                          | inl (auth, e3) ↦ rw e1 (
                              rw e2 (
                                rw e3
                                  (build_audit_repository-backend config.database_url audit e2)))
                        ]
              ]
        ])

  ChosenBy-isolation :
      (config : AppConfig) (word : String) (signer : SignerGateway K)
      → ChosenBy K H config word signer
      → IsolationOf word (signer_mode_name signer.execution_mode)
  unfolding signer_mode_name
  ChosenBy-isolation config word signer (inl (named, same)) = inl (inl named, rw same refl)
  ChosenBy-isolation config word signer
        (inr (inl (named, (url, cert, key, ca, client, _, _, _, _, _, same)))) =
      inl (inr named, rw same refl)
  ChosenBy-isolation config word signer (inr (inr (no_local, no_remote, same))) =
      inr (no_local, no_remote, rw same refl)

  -- `/v1/info` tells anyone what the environment has chosen: whatever the authentication and whatever
  -- the request bears, a service that was built answers with an authentication mode that is `hmac`
  -- exactly if the word of `AI_WALLET_AUTH_MODE` is, in letters of any case, and else `disabled`, with
  -- the audit backend `postgres` if `DATABASE_URL` is set, and else `memory`, and with the signer mode
  -- `isolated-signer` if `AI_WALLET_SIGNER_MODE` names the dev signer or the remote one, and else
  -- `mock`.
  pub build_state-about :
      (env : Env) (built : Built K H P) (extract : Extract K) (now : ℤ) (draws : Draws K)
      (request : HttpRequest K) (s : Store K built.Journal)
      → build_state K H P (from_env env) ≡ ok built
      → extract Endpoint.info request ≡ ok Call.info
      → (info : ApiInfo) × (serve K built.app extract now draws Endpoint.info request s
          ≡ (answered (ok (about info)), s))
        × (info.auth_mode ≡ (
            if lower_is (unwrap_or "disabled" (env "AI_WALLET_AUTH_MODE")) "hmac"
            then "hmac"
            else "disabled"))
        × (info.audit_backend ≡ backend_of (env "DATABASE_URL"))
        × IsolationOf (unwrap_or "mock" (env "AI_WALLET_SIGNER_MODE")) info.signer_mode
  unfolding serve run_handler handle info_of from_env
  build_state-about env built extract now draws request s made asked =
      let (_, auth) = build_state-parts K H P (from_env env) built made in
      (
        info_of K built.app,
        rw (asked, run_handler),
        mode_name-from_config (unwrap_or "disabled" (env "AI_WALLET_AUTH_MODE"))
            (env "AI_WALLET_API_KEY") (env "AI_WALLET_API_SECRET")
            (from_env env).auth_max_skew_seconds built.app.api_auth auth,
        build_state-backend (from_env env) built made,
        ChosenBy-isolation (from_env env) (unwrap_or "mock" (env "AI_WALLET_SIGNER_MODE"))
            built.app.signer (build_state-Chosen K H P env built made).1,
      )
