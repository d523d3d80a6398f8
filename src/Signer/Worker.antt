-- ===== src/Signer/Worker.antt =====
-- src/bin/signer-worker.rs: the process of the signer worker, with `signer_worker_router` of
-- src/signer_rpc.rs. Its network is a parameter.
pub mod Mutual
use ai_wallet.Prelude.{String, Option, Result, ok, map_err, ok_or, ◌>>=◌}
use ai_wallet.Crates.{Crates}
use ai_wallet.Error.{AppError}
use ai_wallet.Config.{Env, from_env}
use ai_wallet.Model.{SignerRpcSignRequest, SignerRpcSignResponse}
use ai_wallet.Signer.Remote.{worker_sign}
use ai_wallet.Signer.Tls.{Host, load_rustls_config}

module _ (K : Crates) (H : Host K) where
  -- The router's one route, a POST at `/v1/signer/sign`.
  abbrev pub Router : Type 0
  Router = SignerRpcSignRequest K → Result SignerRpcSignResponse AppError

  unfoldable pub signer_worker_router : Option String → Router
  unfolding worker_sign
  signer_worker_router private_key = worker_sign K (record { private_key = private_key })

  -- `SocketAddr`, and `axum_server::bind_rustls` at an address with a TLS configuration, serving a
  -- router.
  pub record TlsNetwork : Type 1 where
    pub SocketAddr : Type 0
    pub parse_addr : String → Result SocketAddr String
    pub serve_rustls : SocketAddr → H.ServerConfig → Router → Result (Unit {0}) String

  -- What the process serves.
  pub record Endpoint (net : TlsNetwork) : Type 0 where
    pub addr : net.SocketAddr
    pub tls : H.ServerConfig
    pub app : Router

  module _ (net : TlsNetwork) where
    -- `main` up to the call that serves; the `Err` is a panic's message.
    unfoldable pub start : Env → Result (Endpoint net) String
    unfolding signer_worker_router
    start var = do
      cert ← ok_or "AI_WALLET_SIGNER_TLS_CERT_PATH is required" (from_env var).signer_tls_cert_path
      key ← ok_or "AI_WALLET_SIGNER_TLS_KEY_PATH is required" (from_env var).signer_tls_key_path
      ca ←
          ok_or "AI_WALLET_SIGNER_CLIENT_CA_CERT_PATH is required"
            (from_env var).signer_client_ca_cert_path
      tls ← map_err (λ _. "load signer worker tls config") (load_rustls_config K H cert key ca)
      addr ←
          map_err (λ _. "valid signer bind addr") (net.parse_addr (from_env var).signer_bind_addr)
      ok (record {
        addr = addr;
        tls = tls;
        app = signer_worker_router (from_env var).dev_private_key;
      })

    unfoldable pub main : Env → Result (Unit {0}) String
    unfolding start
    main var = do
      e ← start var
      map_err (λ _. "serve signer worker") (net.serve_rustls e.addr e.tls e.app)
