-- ===== src/Examples/Signing.antt =====
-- The policy, the signer and the verification of signatures at concrete inputs.
use ai_wallet.Prelude.{
  ℕ, ◌≡◌, refl, inr, String, none, some, ok, err, true, pos, map_err, trim, as_bytes, ◌<◌,
}
use ai_wallet.Number.{parse_u128}
use ai_wallet.Error.{AppError, signer_unavailable}
use ai_wallet.Model.{
  contract_call, approved, requires_review, PolicyContext, SignedArtifact, SignPayload,
  SignIntentRequest, eip191, eip712, VerifyMessageResponse, VerifyTypedDataRequest,
  VerifyTypedDataResponse, VerifyMessageRequest, SignIntentResponse,
}
use ai_wallet.Policy.{evaluate, check_payload, classify, review_limit}
use ai_wallet.Policy.Decision.{IsWellFormed, evaluate-eq-ok_iff}
use ai_wallet.Intent.Blind.{handle_sign_intent_ignores}
use ai_wallet.Signer.{
  wallet, sign_payload, SignerEnvelope, LocalDevSigner, local_sign, local_dev_signer,
}
use ai_wallet.Signer.RoundTrip.{verify-local_sign}
use ai_wallet.Signer.Remote.{RemoteSignerClient, worker_sign, remote_sign}
use ai_wallet.Signer.Remote.Refinement.{remote_error, reply, remote_sign-local_sign}
use ai_wallet.Verify.{verify_message, verify_typed_data}
use ai_wallet.Verify.Typed.{verify_valid_iff}
use ai_wallet.Intent.{artifact_for, handle_sign_intent, envelope_of, intent_event, response_of}
use ai_wallet.Intent.Approval.{Signed, handle_sign_intent_ok, handle_sign_intent-eq-err_iff}
use ai_wallet.Examples.Sample.{sample, sample_ethers, sample_wallet, sample_http, text}

abbrev limit_text : String
limit_text = "10000000000000000"

abbrev context : PolicyContext
context = record {
  actor = "bot";
  purpose = "payroll";
  source_ip = "10.0.0.1";
  idempotency_key = "k1";
  max_value_wei = "1000";
}

abbrev pub request : SignPayload sample → SignIntentRequest sample
request payload = record {
  tenant_id = "acme";
  wallet_id = "hot";
  chain_id = 1;
  from_address = "0xa1";
  operation = contract_call;
  payload = payload;
  policy_context = context;
}

abbrev pub hello : SignPayload sample
hello = SignPayload.raw_message "hello"

abbrev call : String → SignPayload sample
call value = SignPayload.transaction "0xb2" value "0x" 50_000 "2" "1" 7

abbrev pub dev : LocalDevSigner sample
dev = record { private_key = some "0xa1" }

abbrev no_key : LocalDevSigner sample
no_key = record { private_key = none }

abbrev pub artifact : SignedArtifact
artifact = record { signature_hex = "0xa1"; digest_hex = "0x68656c6c6f" }

abbrev envelope : SignPayload sample → SignerEnvelope sample
envelope payload = envelope_of sample 9 (request payload)

abbrev large : SignIntentRequest sample
large = record (request hello) {
  policy_context = record context { max_value_wei = "10000000000000001" };
}

evaluate-call : evaluate sample (request (call "5")) ≡ ok approved
unfolding evaluate parse_u128 trim check_payload classify
evaluate-call = refl

evaluate-large : evaluate sample large ≡ ok requires_review
unfolding evaluate parse_u128 trim check_payload classify
evaluate-large = refl

evaluate-eq-ok_iff_example : (value : ℕ) × IsWellFormed sample large value × (review_limit < value)
evaluate-eq-ok_iff_example = (evaluate-eq-ok_iff sample large requires_review).0 evaluate-large

handle_sign_intent_ignores_example :
    (handle_sign_intent sample (local_dev_signer sample dev) 9 (pos 1700) (record (request hello) {
      policy_context = record (request hello).policy_context {
        idempotency_key = "again";
        source_ip = "10.0.0.1";
      };
    })
      ≡ handle_sign_intent sample (local_dev_signer sample dev) 9 (pos 1700) (request hello))
    × (evaluate sample (request (call "5"))
        ≡ evaluate sample (
            request
              (SignPayload.transaction "0xb2" "99999999999999999999" "0xff" 60_000 "3" "2" 8)))
handle_sign_intent_ignores_example =
    handle_sign_intent_ignores sample (local_dev_signer sample dev) 9 (pos 1700) (request hello)
      "again" "10.0.0.1" "0xb2" "5" "99999999999999999999" "0x" "0xff" 50_000 60_000 "2" "3" "1" "2"
      7 8

abbrev pub response : SignIntentResponse sample
response = response_of sample (local_dev_signer sample dev) 9 (pos 1700) approved (some artifact)

handle_hello :
    handle_sign_intent sample (local_dev_signer sample dev) 9 (pos 1700) (request hello)
    ≡ ok (response, intent_event sample (request hello) response)
unfolding handle_sign_intent evaluate parse_u128 trim check_payload classify artifact_for local_sign
    wallet sign_payload as_bytes
handle_hello = refl

handle_sign_intent_ok_example :
    Signed sample
      (local_dev_signer sample dev)
      9
      (pos 1700)
      (request hello)
      approved
      (some artifact)
unfolding response_of
handle_sign_intent_ok_example =
    (handle_sign_intent_ok sample (local_dev_signer sample dev) 9 (pos 1700) (request hello)
      response (intent_event sample (request hello) response) handle_hello).1

abbrev key_error : AppError
key_error = signer_unavailable "AI_WALLET_DEV_PRIVATE_KEY is required for local-dev signer mode"

local_sign-no_key : local_sign sample no_key (envelope (call "5")) ≡ err key_error
unfolding local_sign wallet
local_sign-no_key = refl

handle_sign_intent-eq-err_iff_example :
    handle_sign_intent sample (local_dev_signer sample no_key) 9 (pos 1700) (request (call "5"))
    ≡ err key_error
handle_sign_intent-eq-err_iff_example =
    (handle_sign_intent-eq-err_iff sample (local_dev_signer sample no_key) 9 (pos 1700)
        (request (call "5")) key_error).1
      (inr (evaluate-call, local_sign-no_key))

sign_hello :
    local_sign sample dev (record (envelope hello) { payload = SignPayload.raw_message "hello" })
    ≡ ok artifact
unfolding local_sign wallet sign_payload as_bytes
sign_hello = refl

sign_typed :
    local_sign sample dev
      (record (envelope hello) { payload = SignPayload.typed_data (text "hello") })
    ≡ ok artifact
unfolding local_sign wallet sign_payload as_bytes
sign_typed = refl

verify-local_sign_example :
    (verify_message sample (record {
      chain_id = 10;
      expected_address = "0xa1";
      message = "hello";
      signature_hex = "0xa1";
      encoding = eip191;
    })
      ≡ ok (record { valid = true; recovered_address = "0xa1"; chain_id = 10; encoding = eip191 }))
    × (verify_typed_data sample (record {
      chain_id = 10;
      expected_address = "0xa1";
      typed_data = text "hello";
      signature_hex = "0xa1";
    })
        ≡ ok (record {
          valid = true;
          recovered_address = "0xa1";
          chain_id = 10;
          encoding = eip712;
          digest_hex = "0x68656c6c6f";
        }))
verify-local_sign_example =
    verify-local_sign sample sample_ethers sample_wallet dev "0xa1" "0xa1" (envelope hello) "hello"
      (text "hello") artifact artifact 10 eip191 refl refl sign_hello sign_typed

abbrev question : VerifyMessageRequest
question = record {
  chain_id = 1;
  expected_address = "0xa1";
  message = "hi";
  signature_hex = "0xa1";
  encoding = eip191;
}

abbrev typed_question : VerifyTypedDataRequest sample
typed_question = record {
  chain_id = 10;
  expected_address = "0xa1";
  typed_data = text "hello";
  signature_hex = "0xa1";
}

verify_valid_iff_example :
    ((r : VerifyMessageResponse) × (verify_message sample question ≡ ok r) × (r.valid ≡ true))
    × ((r : VerifyTypedDataResponse) × (verify_typed_data sample typed_question ≡ ok r)
        × (r.valid ≡ true))
verify_valid_iff_example = (
  (verify_valid_iff sample question typed_question).0.1 ("0xa1", "0xa1", refl, refl, refl),
  (verify_valid_iff sample question typed_question).1.1
      ("hello", as_bytes "hello", refl, refl, ("0xa1", "0xa1", refl, refl, refl)),
)

-- A client whose connection ends at a worker.
abbrev remote : LocalDevSigner sample → RemoteSignerClient sample
remote signer = record {
  base_url = "https://signer/";
  client = λ url request. ok (reply "no body" (worker_sign sample signer request));
}

remote_sign-local_sign_example :
    remote_sign sample (remote no_key) (envelope (call "5"))
    ≡ map_err (remote_error sample) (local_sign sample no_key (envelope (call "5")))
remote_sign-local_sign_example =
    remote_sign-local_sign sample sample_http (remote no_key) no_key "no body" (envelope (call "5"))
      (λ request. refl)
