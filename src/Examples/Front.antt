-- ===== src/Examples/Front.antt =====
-- A signature over HTTP, from the request to the store, at a concrete input.
use ai_wallet.Prelude.{◌≡◌, refl, arith, ok, err, pos, as_bytes, trim, ◌-ℤ◌}
use ai_wallet.Number.{show_ℤ, parse_i64, parse_u128}
use ai_wallet.Crates.{Bytes}
use ai_wallet.Audit.{Memory}
use ai_wallet.Auth.{
  ApiAuth, verify, get_header, canonical, expected_signature, is_stale, auth_middleware, wrap_i64,
  abs_i64, body_limit,
}
use ai_wallet.Auth.Guard.{Passes}
use ai_wallet.Model.{SignIntentRequest}
use ai_wallet.Policy.{evaluate, check_payload, classify}
use ai_wallet.Signer.{local_sign, wallet, sign_payload}
use ai_wallet.Intent.{handle_sign_intent, artifact_for, response_of}
use ai_wallet.Api.Types.{Endpoint, Call, Reply, AppState, Extract, answered}
use ai_wallet.Api.{handle, sign_intent_handler, run_handler, serve}
use ai_wallet.Api.Front.{Routes, with_body, Vouched, signed-Passes}
use ai_wallet.Examples.Sample.{sample}
use ai_wallet.Examples.Signing.{request, hello, response}
use ai_wallet.Examples.Requests.{guard, headers, store}
use ai_wallet.Examples.Requests as Requests
use ai_wallet.Examples.Servers as Servers

abbrev app : AppState sample (Memory sample)
app = record Servers.app { api_auth = ApiAuth.hmac guard }

abbrev pub extract : Extract sample
extract Endpoint.sign_intent http = ok (Call.sign_intent (request hello))
extract _ http = err 422

pub extract-Routes : Routes sample extract
extract-Routes Endpoint.sign_intent http call h =
    let same : call ≡ Call.sign_intent (request hello) = ground arith in rw same refl
extract-Routes _ http call h = absurd (cc h)

hello_signed :
    (serve sample app extract
      (pos 1800)
      Servers.draws
      Endpoint.sign_intent
      (Requests.request headers)
      store).0
    ≡ answered (ok (Reply.signed response))
unfolding serve auth_middleware run_handler handle sign_intent_handler handle_sign_intent evaluate
    parse_u128 trim check_payload classify artifact_for local_sign wallet sign_payload as_bytes
    verify get_header canonical expected_signature is_stale wrap_i64 abs_i64 parse_i64 ◌-ℤ◌ show_ℤ
hello_signed = refl

signed-Passes_example :
    Passes sample guard (pos 1800) (Requests.request headers)
    × (bytes : Bytes) × ((Requests.request headers).to_bytes body_limit ≡ ok bytes)
    × (req : SignIntentRequest sample) × (extract Endpoint.sign_intent
          (with_body sample (Requests.request headers) bytes)
        ≡ ok (Call.sign_intent req))
    × Vouched sample app Servers.draws store req response
        (serve sample app extract
          (pos 1800)
          Servers.draws
          Endpoint.sign_intent
          (Requests.request headers)
          store).1
unfolding response_of
signed-Passes_example =
    signed-Passes sample app extract Servers.draws store (pos 1800) guard Endpoint.sign_intent
      (Requests.request headers) response extract-Routes refl hello_signed (λ e. cc e)
