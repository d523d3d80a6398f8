-- ===== src/Boot/Polite.antt =====
-- What the configured parts of a running service refuse with: the signers and the simulator of
-- src/service.rs, the remote signer of src/signer_rpc.rs and the repositories of src/audit.rs.
use ai_wallet.Prelude.{
  ◌≡◌, inl, inr, Result, Result-cases, ok, err, arith, ℤ, String, Option, none, some, map_err,
  ◌>>=◌, ℕ,
}
use ai_wallet.Crates.{Crates}
use ai_wallet.Error.{AppError, status_code}
use ai_wallet.Fields.{parse_address, parse_u256, parse_bytes_hex}
use ai_wallet.Model.{AuditEventInput, SimulateTransactionRequest}
use ai_wallet.Config.{AppConfig, SignerMode}
use ai_wallet.Audit.{
  AuditRepository, Postgres, memory_record, memory_list, postgres_record, postgres_list,
  postgres_repository,
}
use ai_wallet.Auth.{HttpRequest, from_config}
use ai_wallet.Signer.{SignerEnvelope, mock_sign, LocalDevSigner, local_sign}
use ai_wallet.Signer.Remote.{RemoteSignerClient, request_signature, remote_sign}
use ai_wallet.Signer.Scope.{local_sign-status}
use ai_wallet.Signer.Tls.{Host}
use ai_wallet.Simulator.{StaticSimulator, simulate}
use ai_wallet.Api.Types.{Endpoint, Draws, Store, answered, Extract}
use ai_wallet.Api.{serve}
use ai_wallet.Api.Statuses.{IsRefusal, Refuses, IsPolite, Refuses-of_err, serve-Refuses}
use ai_wallet.Boot.{build_signer, build_audit_repository, Built, build_state}

-- What a result holds, if it is `ok`, satisfies the predicate.
abbrev Succeeds {ℓ κ} : {A : Type ℓ} → (A → Type κ) → Result A AppError → Type κ
Succeeds P (ok a) = P a
Succeeds P (err e) = Unit

Succeeds->>= {ℓ ι κ} :
    {A : Type ℓ} {B : Type ι} (P : B → Type κ) (m : Result A AppError) (f : A → Result B AppError)
    → ((a : A) → Succeeds P (f a))
    → Succeeds P (m >>= f)
Succeeds->>= P (ok a) f h = h a
Succeeds->>= P (err e) f h = tt

module _ (K : Crates) where
  mock-Refuses : (envelope : SignerEnvelope K) → Refuses (mock_sign K envelope)
  unfolding mock_sign
  mock-Refuses envelope = tt

  local-Refuses :
      (self : LocalDevSigner K) (envelope : SignerEnvelope K) → Refuses (local_sign K self envelope)
  local-Refuses self envelope = Refuses-of_err K _ (λ e failed.
      elim (local_sign-status K self envelope e failed) [
        | inl (code, key) ↦ inl code
        | inr code ↦ inr (inr (inr code))
      ])

  remote-Refuses :
      (self : RemoteSignerClient K) (envelope : SignerEnvelope K)
      → Refuses (remote_sign K self envelope)
  unfolding remote_sign request_signature
  remote-Refuses self envelope = ground arith

  simulate-Refuses :
      (self : StaticSimulator) (req : SimulateTransactionRequest) → Refuses (simulate K self req)
  unfolding simulate parse_address parse_u256 parse_bytes_hex
  simulate-Refuses self req = ground arith

  -- A repository refuses with these statuses only.
  abbrev Keeps : (S : Type 0) → AuditRepository K S → Type 0
  Keeps S audit =
      ((id : K.Uuid) (now : K.DateTime) (event : AuditEventInput K) (s : S)
        → Refuses (audit.record_event id now event s).0)
      × ((limit : ℕ) (s : S) → Refuses (audit.list limit s))

  map_err-Refuses :
      {A : Type 0} (r : Result A String) (f : String → AppError)
      → ((x : String) → IsRefusal (status_code (f x)))
      → Refuses (map_err f r)
  map_err-Refuses (ok a) f h = tt
  map_err-Refuses (err x) f h = h x

  module _ (H : Host K) (P : Postgres K) where
    postgres-Keeps : Keeps P.Pool (postgres_repository K P)
    unfolding postgres_record postgres_list
    postgres-Keeps = (λ id now event s. ground arith, λ limit s. ground arith)

    IsSound : Built K H P → Type 0
    IsSound built = IsPolite K built.app

    signer-Succeeds :
        (config : AppConfig) (mode : SignerMode)
        → Succeeds
            (λ signer. (envelope : SignerEnvelope K) → Refuses (signer.sign envelope))
            (build_signer K H P config mode)
    unfolding build_signer
    signer-Succeeds config SignerMode.mock = mock-Refuses
    signer-Succeeds config SignerMode.local_dev =
        local-Refuses (record { private_key = config.dev_private_key })
    signer-Succeeds config SignerMode.remote_mtls = grind (arith, remote-Refuses)

    backend-Succeeds :
        (url : Option String)
        → Succeeds
            (λ audit. Keeps audit.Journal audit.repository)
            (build_audit_repository K H P url)
    unfolding build_audit_repository memory_record memory_list
    backend-Succeeds none = (λ id now event s. tt, λ limit s. tt)
    backend-Succeeds (some url) = ground (arith, postgres-Keeps)

    build_state-Succeeds :
        (config : AppConfig) → Succeeds (λ built. IsPolite K built.app) (build_state K H P config)
    unfolding build_state
    build_state-Succeeds config =
        elim (Result-cases (build_signer K H P config config.signer_mode)) [
          | inr (x, e1) ↦ rw e1 tt
          | inl (signer, e1) ↦
              elim (Result-cases (build_audit_repository K H P config.database_url)) [
                | inr (x, e2) ↦ rw (e1, e2) tt
                | inl (audit, e2) ↦
                    elim (Result-cases (
                      from_config config.auth_mode config.api_key config.api_secret
                        config.auth_max_skew_seconds)) [
                          | inr (x, e3) ↦ rw (e1, e2, e3) tt
                          | inl (auth, e3) ↦
                              let signs = rw e1 at (signer-Succeeds config config.signer_mode) in
                              let keeps = rw e2 at (backend-Succeeds config.database_url) in
                              rw (e1, e2, e3)
                                (record {
                                  signs = signs;
                                  simulates =
                                      simulate-Refuses (record { rpc_url = config.rpc_url });
                                  records = keeps.0;
                                  lists = keeps.1;
                                })
                        ]
              ]
        ]

    -- Whatever the configuration, and whatever the signing worker, the database and the network
    -- answer: every `AppError` that a service answers which `build_state` has built is a 400, 401, 500
    -- or 503, at any route and for any request, and so never a 403.
    pub build_state-IsRefusal :
        (config : AppConfig) (built : Built K H P)
        → build_state K H P config ≡ ok built
        → (extract : Extract K) (now : ℤ) (draws : Draws K) (endpoint : Endpoint)
          (request : HttpRequest K) (s : Store K built.Journal) (e : AppError)
        → (serve K built.app extract now draws endpoint request s).0 ≡ answered (err e)
        → IsRefusal (status_code e)
    build_state-IsRefusal config built made =
        let polite : IsPolite K built.app = rw made at (build_state-Succeeds config) in
        serve-Refuses K built.app polite
