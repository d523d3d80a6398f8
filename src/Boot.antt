-- ===== src/Boot.antt =====
-- src/lib.rs, `build_state`, with `build_audit_repository` of src/audit.rs: from the configuration to
-- the state that the router serves. Connecting to Postgres and the host's TLS are parameters.
pub mod Polite
pub mod Secured
pub mod Chosen
pub mod Startable
pub mod Told
pub mod App
pub mod Server
use ai_wallet.Prelude.{String, Option, none, some, Result, ok, err, ok_or, ◌>>=◌, map_err, ◌⧺◌, []}
use ai_wallet.Crates.{Crates}
use ai_wallet.Error.{AppError, internal}
use ai_wallet.Config.{AppConfig, SignerMode}
use ai_wallet.Audit.{
  AuditRepository, Memory, memory_new, memory_repository, Postgres, postgres_connect,
  postgres_repository,
}
use ai_wallet.Auth.{ApiAuth, from_config}
use ai_wallet.Signer.{SignerGateway, mock_signer, local_dev_signer}
use ai_wallet.Signer.Remote.{remote_signer}
use ai_wallet.Signer.Tls.{Host, new_client}
use ai_wallet.Simulator.{static_simulator}
use ai_wallet.Api.Types.{AppState, Store}
use ai_wallet.Broadcast

module _ (K : Crates) (H : Host K) (P : Postgres K) where
  unfoldable pub build_signer : AppConfig → SignerMode → Result (SignerGateway K) AppError
  build_signer config SignerMode.mock = ok (mock_signer K)
  build_signer config SignerMode.local_dev =
      ok (local_dev_signer K (record { private_key = config.dev_private_key }))
  build_signer config SignerMode.remote_mtls = do
    url ← ok_or (internal "AI_WALLET_SIGNER_URL is required") config.signer_url
    cert ←
        ok_or (internal "AI_WALLET_SIGNER_CLIENT_CERT_PATH is required")
          config.signer_client_cert_path
    key ←
        ok_or (internal "AI_WALLET_SIGNER_CLIENT_KEY_PATH is required")
          config.signer_client_key_path
    ca ← ok_or (internal "AI_WALLET_SIGNER_CA_CERT_PATH is required") config.signer_ca_cert_path
    client ← new_client K H url cert key ca
    ok (remote_signer K client)

  -- A repository with the state that it starts in.
  pub record Backend : Type 1 where
    pub Journal : Type 0
    pub repository : AuditRepository K Journal
    pub initial : Journal

  unfoldable pub build_audit_repository : Option String → Result Backend AppError
  unfolding postgres_connect
  build_audit_repository (some url) = do
    pool ← postgres_connect K P url
    ok (record { Journal = P.Pool; repository = postgres_repository K P; initial = pool })
  build_audit_repository none =
      ok (record { Journal = Memory K; repository = memory_repository K; initial = memory_new K })

  pub record Built : Type 1 where
    pub Journal : Type 0
    pub app : AppState K Journal
    pub store : Store K Journal

  unfoldable pub build_state : AppConfig → Result Built AppError
  build_state config = do
    signer ← build_signer config config.signer_mode
    audit ← build_audit_repository config.database_url
    api_auth ←
        from_config config.auth_mode config.api_key config.api_secret config.auth_max_skew_seconds
    ok (record {
      Journal = audit.Journal;
      app = record {
        api_auth = api_auth;
        signer = signer;
        simulator = static_simulator K (record { rpc_url = config.rpc_url });
        audit = audit.repository;
        broadcast_rpc_url = config.rpc_url;
      };
      store = record { audited = audit.initial; service = Broadcast.new K; spawned = [] };
    })
