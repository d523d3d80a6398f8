-- ===== src/Examples/Lives.antt =====
-- A service that is built from its environment, answers a request and records it.
use mathlib.Core.List.{Mem, Memᴰ, Perm}
use native.Mathlib.Decide.{ℕ_discrete}
use ai_wallet.Prelude.{
  arith, ◌≡◌, refl, List, [], ◌∷◌, ◌++◌, map, none, ok, pos, reverse, as_bytes, trim,
}
use ai_wallet.Number.{parse_u128}
use ai_wallet.Audit.{memory_repository, Memory}
use ai_wallet.Audit.Journal.{memory-IsReliable}
use ai_wallet.Auth.{ApiAuth, HttpRequest, auth_middleware, from_config}
use ai_wallet.Config.{Env, from_env, lower_is}
use ai_wallet.Model.{approved, AuditEventInput, SignIntentRequest}
use ai_wallet.Policy.{evaluate, check_payload, classify}
use ai_wallet.Signer.{local_dev_signer, local_sign, wallet, sign_payload}
use ai_wallet.Simulator.{static_simulator}
use ai_wallet.Intent.{handle_sign_intent, artifact_for, intent_event, response_of}
use ai_wallet.Broadcast.Table.{get}
use ai_wallet.Broadcast
use ai_wallet.Api.Types.{Call, AppState, Reply, Store}
use ai_wallet.Api.{handle, sign_intent_handler, run_handler, run_spawned}
use ai_wallet.Api.Router.{router}
use ai_wallet.System.{Happened}
use ai_wallet.System.Owed.{input_of, trail}
use ai_wallet.System.Requests.{Carries}
use ai_wallet.System.Departures.{Visit}
use ai_wallet.Boot.{Built, build_state, build_signer, build_audit_repository}
use ai_wallet.Boot.App.Life.{Life, begins, serves, runs, respond, replies_of}
use ai_wallet.Boot.App.Vouched.{Life-trail, Life-signed}
use ai_wallet.Examples.Sample.{sample, look}
use ai_wallet.Examples.Requests.{body}
use ai_wallet.Examples.Web.{web, web-WebLaws}
use ai_wallet.Examples.Processes.{host, no_database}
use ai_wallet.Examples.Servers.{draws}
use ai_wallet.Examples.Signing.{request, hello, dev, response}

abbrev env : Env
env name =
    look name (("AI_WALLET_SIGNER_MODE", "local") ∷ ("AI_WALLET_DEV_PRIVATE_KEY", "0xa1") ∷ [])

abbrev app : AppState sample (Memory sample)
app = record {
  api_auth = ApiAuth.disabled;
  signer = local_dev_signer sample dev;
  simulator = static_simulator sample (record { rpc_url = none });
  audit = memory_repository sample;
  broadcast_rpc_url = none;
}

abbrev built : Built sample host no_database
built = record {
  Journal = Memory sample;
  app = app;
  store = record { audited = []; service = Broadcast.new sample; spawned = [] };
}

built-env : build_state sample host no_database (from_env env) ≡ ok built
unfolding build_state build_signer build_audit_repository from_config from_env lower_is
built-env = refl

abbrev asks : HttpRequest sample
asks = record {
  headers = [];
  method = "POST";
  path = "/v1/evm/sign-intent";
  query = none;
  to_bytes = λ limit. ok body;
}

abbrev event : AuditEventInput sample
event = intent_event sample (request hello) response

abbrev answers : Store sample (Memory sample)
answers = (respond sample host no_database web built (pos 1800) draws asks built.store).1

abbrev recorded : Store sample (Memory sample)
recorded = run_spawned sample app [] event [] 11 (pos 1702) answers

to_recorded : Life sample host no_database web built recorded [] (Reply.signed response ∷ [])
unfolding router auth_middleware run_handler handle sign_intent_handler handle_sign_intent evaluate
    parse_u128 trim check_payload classify artifact_for local_sign wallet sign_payload as_bytes
    run_spawned get ℕ_discrete
to_recorded =
    runs [] event [] 11 (pos 1702)
      (serves (pos 1800) draws asks begins
        (λ route found broadcasts. record { fresh = refl; room = omega arith; sent = refl }))
      refl

Life-signed_example :
    (req : SignIntentRequest sample) × Carries sample web.axum asks (Call.sign_intent req)
    × (evaluate sample req ≡ ok approved)
    × Mem
        (intent_event sample req response)
        (map (input_of sample) (reverse recorded.audited) ++ recorded.spawned)
unfolding response_of to_recorded
Life-signed_example =
    Life-signed sample host no_database web web-WebLaws (from_env env) built built-env reverse asks
      response (memory-IsReliable sample) refl to_recorded (Memᴰ.head refl) (λ e. cc e)

Life-trail_example :
    (history : List (Happened sample)) × (replies_of sample history ≡ Reply.signed response ∷ [])
    × Visit sample app
        (record { store = built.store; pending = []; history = [] })
        (record { store = recorded; pending = []; history = history })
    × Perm
        (map (input_of sample) (reverse recorded.audited) ++ recorded.spawned)
        (trail sample history)
Life-trail_example =
    Life-trail sample host no_database web web-WebLaws (from_env env) built built-env reverse
      (memory-IsReliable sample) refl to_recorded
