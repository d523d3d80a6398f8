-- ===== src/Config.antt =====
-- src/config.rs: the configuration, read from the environment.
use Prim.Native.Char.{code}
use ai_wallet.Prelude.{
  ℕ, ◌+◌, String, Option, ℤ, pos, leb, ◌&&◌, if◌then◌else◌, ◌||◌, unwrap_or, ◌==◌, Bool, true,
  false,
}
use ai_wallet.Number.{◌>>=◌, parse_i64}

pub data AuthMode : Type 0 where
  disabled hmac : AuthMode

pub data SignerMode : Type 0 where
  mock local_dev remote_mtls : SignerMode

pub record AppConfig : Type 0 where
  pub bind_addr : String
  pub auth_mode : AuthMode
  pub api_key : Option String
  pub api_secret : Option String
  pub auth_max_skew_seconds : ℤ
  pub database_url : Option String
  pub signer_mode : SignerMode
  pub dev_private_key : Option String
  pub signer_url : Option String
  pub signer_client_cert_path : Option String
  pub signer_client_key_path : Option String
  pub signer_ca_cert_path : Option String
  pub signer_bind_addr : String
  pub signer_tls_cert_path : Option String
  pub signer_tls_key_path : Option String
  pub signer_client_ca_cert_path : Option String
  pub rpc_url : Option String

-- `env::var(name).ok()`.
abbrev pub Env : Type 0
Env = String → Option String

-- The codes of `to_lowercase`. A letter outside ASCII has no form among the words below, all of
-- which avoid `i` and `k`, so it may stay.
abbrev pub lower : ℕ → ℕ
lower c = if leb b'A' c && leb c b'Z' then c + 32 else c

unfoldable pub lower_is : String → String → Bool
lower_is String.[] String.[] = true
lower_is (String.◌∷◌ c s) (String.◌∷◌ d t) = (lower (code c) == code d) && lower_is s t
lower_is _ _ = false

unfoldable pub read_auth_mode : String → AuthMode
unfolding lower_is
read_auth_mode s = if lower_is s "hmac" then hmac else disabled

unfoldable pub read_signer_mode : String → SignerMode
unfolding lower_is
read_signer_mode s =
    if lower_is s "local" || lower_is s "local-dev" || lower_is s "local_dev"
    then local_dev
    else if lower_is s "remote-mtls" || lower_is s "remote_mtls" || lower_is s "remote"
    then remote_mtls
    else mock

unfoldable pub from_env : Env → AppConfig
unfolding read_auth_mode read_signer_mode parse_i64
from_env var = record {
  bind_addr = unwrap_or "127.0.0.1:8080" (var "AI_WALLET_BIND");
  auth_mode = read_auth_mode (unwrap_or "disabled" (var "AI_WALLET_AUTH_MODE"));
  api_key = var "AI_WALLET_API_KEY";
  api_secret = var "AI_WALLET_API_SECRET";
  auth_max_skew_seconds = unwrap_or (pos 300) (var "AI_WALLET_AUTH_MAX_SKEW_SECONDS" >>= parse_i64);
  database_url = var "DATABASE_URL";
  signer_mode = read_signer_mode (unwrap_or "mock" (var "AI_WALLET_SIGNER_MODE"));
  dev_private_key = var "AI_WALLET_DEV_PRIVATE_KEY";
  signer_url = var "AI_WALLET_SIGNER_URL";
  signer_client_cert_path = var "AI_WALLET_SIGNER_CLIENT_CERT_PATH";
  signer_client_key_path = var "AI_WALLET_SIGNER_CLIENT_KEY_PATH";
  signer_ca_cert_path = var "AI_WALLET_SIGNER_CA_CERT_PATH";
  signer_bind_addr = unwrap_or "127.0.0.1:9443" (var "AI_WALLET_SIGNER_BIND");
  signer_tls_cert_path = var "AI_WALLET_SIGNER_TLS_CERT_PATH";
  signer_tls_key_path = var "AI_WALLET_SIGNER_TLS_KEY_PATH";
  signer_client_ca_cert_path = var "AI_WALLET_SIGNER_CLIENT_CA_CERT_PATH";
  rpc_url = var "AI_WALLET_RPC_URL";
}
