-- ===== src/Boot/Server.antt =====
-- src/main.rs: the server process. Its network is a parameter; setting up the log has no outcome, and
-- the log line that names the listener's address reads it only where the log is on.
pub mod Started
use ai_wallet.Prelude.{String, Bool, true, false, Result, ok, err, map_err, ◌>>=◌, ◌>>◌}
use ai_wallet.Crates.{Crates}
use ai_wallet.Config.{Env, from_env}
use ai_wallet.Audit.{Postgres}
use ai_wallet.Signer.Tls.{Host}
use ai_wallet.Boot.{build_state}
use ai_wallet.Boot.App.{App, Web, build_app}

-- How a process ends: by itself, or by a panic with its message.
pub data Exit : Type 0 where
  finished : Exit
  panicked : String → Exit

-- `expect`, as the `Err` of a panic.
abbrev pub expect {ℓ} : {A : Type ℓ} {E : Type 0} → String → Result A E → Result A String
expect message = map_err (λ _. message)

abbrev pub exit_of : Result (Unit {0}) String → Exit
exit_of (ok _) = finished
exit_of (err message) = panicked message

module _ (K : Crates) (H : Host K) (P : Postgres K) (web : Web K) where
  -- tokio's `TcpListener`, and `axum::serve` of an app until the shutdown signal.
  pub record Network : Type 1 where
    pub Listener : Type 0
    pub bind : String → Result Listener String
    pub local_addr : Listener → Result String String
    pub serve : Listener → App K → Result (Unit {0}) String

  module _ (net : Network) (info_enabled : Bool) where
    open net use {Listener, bind, local_addr, serve}

    abbrev announce : Bool → Listener → Result (Unit {0}) String
    announce true listener = do _ ← expect "local addr" (local_addr listener); ok tt
    announce false listener = ok tt

    -- `main` up to `axum::serve`.
    unfoldable pub start : Env → Result (Listener × App K) String
    start var = do
      built ← expect "build app state" (build_state K H P (from_env var))
      let app = build_app K H P web built
      listener ← expect "bind ai-wallet listener" (bind (from_env var).bind_addr)
      announce info_enabled listener
      ok (listener, app)

    unfoldable pub main : Env → Exit
    unfolding start
    main var =
        exit_of (start var >>= λ (listener, app). expect "serve ai-wallet" (serve listener app))
