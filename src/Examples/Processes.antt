-- ===== src/Examples/Processes.antt =====
-- The start of the service and its two processes at concrete inputs.
use ai_wallet.Prelude.{
  if◌then◌else◌, ◌↔◌, false, true, ◌≡◌, refl, String, List, [], ◌∷◌, none, some, ok, err, pos,
  as_bytes,
}
use ai_wallet.Crates.{Bytes}
use ai_wallet.Error.{status_code, unauthorized}
use ai_wallet.Audit.{Memory, Postgres}
use ai_wallet.Auth.{ApiAuth, verify, get_header, auth_middleware, from_config}
use ai_wallet.Api.Types.{Endpoint, answered}
use ai_wallet.Api.{serve}
use ai_wallet.Config.{Env, lower_is, read_signer_mode, from_env}
use ai_wallet.Boot.{Built, build_state, build_signer, build_audit_repository}
use ai_wallet.Boot.App.{build_app}
use ai_wallet.Boot.App.Guarded.{build_app-IsClosed}
use ai_wallet.Api.Closed.{IsClosed}
use ai_wallet.Examples.Web.{web, web-WebLaws}
use ai_wallet.Boot.Chosen.{ChosenBy, build_state-Chosen}
use ai_wallet.Boot.Told.{IsolationOf, build_state-about}
use ai_wallet.Boot.Startable.{build_state-eq-ok_iff}
use ai_wallet.Boot.Server
use ai_wallet.Boot.Server.{Network}
use ai_wallet.Boot.Server.Started.{main-finished}
use ai_wallet.Model.{ApiInfo}
use ai_wallet.Api.Types.{about}
use ai_wallet.Signer.Worker
use ai_wallet.Signer.Worker.{TlsNetwork}
use ai_wallet.Signer.Worker.Mutual.{main-mutual_tls}
use ai_wallet.Signer.Remote.{worker_sign}
use ai_wallet.Signer.Tls.{
  ChecksClients, Host, load_certs, load_key, load_root_store, add_certs, load_rustls_config,
}
use ai_wallet.Examples.Sample.{sample, look}
use ai_wallet.Boot.Polite.{build_state-IsRefusal}
use ai_wallet.Api.Statuses.{IsRefusal}
use ai_wallet.Examples.Requests.{guard, app, store, draws, extract, request, keyless}

abbrev pub host : Host sample
host = record {
  read = λ path. ok (as_bytes path);
  Identity = Bytes;
  identity_from_pem = λ pem. ok pem;
  Certificate = Bytes;
  certificate_from_pem = λ pem. ok pem;
  build_client = λ identity ca. ok (λ url request. err "no connection");
  File = String;
  open_file = λ path. ok path;
  CertificateDer = String;
  certs = λ file. ok (file ∷ []);
  PrivateKeyDer = String;
  private_key = λ file. ok (some file);
  RootCertStore = List String;
  empty_store = [];
  add_cert = λ store cert. ok (cert ∷ store);
  ClientVerifier = List String;
  build_verifier = λ roots. ok roots;
  ServerConfig = List String × List String × String;
  server_config = λ verifier certs key. ok (verifier, certs, key);
}

abbrev worker_env : Env
worker_env name = look name (
    ("AI_WALLET_SIGNER_TLS_CERT_PATH", "cert")
    ∷ ("AI_WALLET_SIGNER_TLS_KEY_PATH", "key")
    ∷ ("AI_WALLET_SIGNER_CLIENT_CA_CERT_PATH", "ca")
    ∷ [])

abbrev tls_network : TlsNetwork sample host
tls_network = record {
  SocketAddr = String;
  parse_addr = λ s. ok s;
  serve_rustls = λ addr tls app. ok tt;
}

worker_runs : Worker.main sample host tls_network worker_env ≡ ok tt
unfolding Worker.main from_env load_rustls_config load_certs load_key load_root_store add_certs
worker_runs = refl

main-mutual_tls_example :
    (e : Worker.Endpoint sample host tls_network) × (tls_network.serve_rustls e.addr e.tls e.app
      ≡ ok tt)
    × (e.app ≡ worker_sign sample (record { private_key = none }))
    × (cert : String) × (key_path : String) × (ca : String) × (worker_env
          "AI_WALLET_SIGNER_TLS_CERT_PATH"
        ≡ some cert)
    × (worker_env "AI_WALLET_SIGNER_TLS_KEY_PATH" ≡ some key_path)
    × (worker_env "AI_WALLET_SIGNER_CLIENT_CA_CERT_PATH" ≡ some ca)
    × ChecksClients sample host cert key_path ca e.tls
main-mutual_tls_example = main-mutual_tls sample host tls_network worker_env worker_runs

abbrev pub no_database : Postgres sample
no_database = record {
  Pool = Unit {0};
  Row = Unit {0};
  connect_pool = λ url. err "unreachable";
  create_table = λ pool. (ok tt, pool);
  insert = λ event pool. (err "closed", pool);
  select_newest = λ limit pool. err "closed";
  try_get = λ row. err "closed";
}

abbrev pub env : Env
env name = look name (
    ("AI_WALLET_AUTH_MODE", "HMAC")
    ∷ ("AI_WALLET_API_KEY", "key")
    ∷ ("AI_WALLET_API_SECRET", "s")
    ∷ [])

abbrev pub built : Built sample host no_database
built = record { Journal = Memory sample; app = app (ApiAuth.hmac guard); store = store }

pub built-env : build_state sample host no_database (from_env env) ≡ ok built
unfolding build_state build_signer build_audit_repository from_config from_env
built-env = refl

abbrev network : Network sample host no_database web
network = record {
  Listener = String;
  bind = λ addr. ok addr;
  local_addr = λ listener. ok listener;
  serve = λ listener app. ok tt;
}

server_runs : Server.main sample host no_database web network true env ≡ Server.finished
unfolding Server.main build_state build_signer build_audit_repository from_config from_env
server_runs = refl

main-finished_example :
    (listener : String) × (served : Built sample host no_database) × (network.bind "127.0.0.1:8080"
      ≡ ok listener)
    × (build_state sample host no_database (from_env env) ≡ ok served)
    × (network.serve listener (build_app sample host no_database web served) ≡ ok tt)
    × (lower_is "HMAC" "hmac" ≡ true
        → (key : String) × (secret : String) × (env "AI_WALLET_API_KEY" ≡ some key)
          × (env "AI_WALLET_API_SECRET" ≡ some secret)
          × (served.app.api_auth
              ≡ ApiAuth.hmac (record {
                api_key = key;
                api_secret = secret;
                max_skew_seconds = (from_env env).auth_max_skew_seconds;
              })))
main-finished_example = main-finished sample host no_database web network true env server_runs

build_state-Chosen_example :
    ((built.app.api_auth ≡ ApiAuth.disabled) ↔ (lower_is "HMAC" "hmac" ≡ false))
    × ChosenBy sample host (from_env env) "mock" built.app.signer
build_state-Chosen_example = build_state-Chosen sample host no_database env built built-env

build_state-eq-ok_iff_example :
    (state : Built sample host no_database) × (build_state sample host no_database (from_env env)
      ≡ ok state)
unfolding read_signer_mode
build_state-eq-ok_iff_example = (build_state-eq-ok_iff sample host no_database env).1 (record {
  authentication = λ mode. (("key", refl), ("s", refl));
  signer = λ remote. cc;
  database = λ url named. cc;
})

-- Without its headers a request is refused.
keyless_refused :
    (serve sample built.app extract (pos 1800) draws Endpoint.sign_intent (request []) store).0
    ≡ answered (err (unauthorized "missing header x-ai-wallet-key"))
unfolding serve auth_middleware verify get_header
keyless_refused = refl

build_state-IsRefusal_example :
    IsRefusal (status_code (unauthorized "missing header x-ai-wallet-key"))
build_state-IsRefusal_example =
    build_state-IsRefusal sample host no_database (from_env env) built built-env extract (pos 1800)
      draws Endpoint.sign_intent (request []) store (unauthorized "missing header x-ai-wallet-key")
      keyless_refused

build_app-IsClosed_example :
    IsClosed sample
      (request [])
      store
      ((build_app sample host no_database web built).respond (pos 1800) draws (request []) store)
build_app-IsClosed_example =
    build_app-IsClosed sample host no_database web web-WebLaws built guard (pos 1800) draws
      (request []) store refl keyless

build_state-about_example :
    (info : ApiInfo) × (serve sample built.app extract
        (pos 1800)
        draws
        Endpoint.info
        (request [])
        store
      ≡ (answered (ok (about info)), store))
    × (info.auth_mode ≡ (if lower_is "HMAC" "hmac" then "hmac" else "disabled"))
    × (info.audit_backend ≡ "memory")
    × IsolationOf "mock" info.signer_mode
build_state-about_example =
    build_state-about sample host no_database env built extract (pos 1800) draws (request []) store
      built-env refl
