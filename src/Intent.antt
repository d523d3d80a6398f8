-- ===== src/Intent.antt =====
-- src/service.rs, the two entry points that use the state: `handle_sign_intent` and
-- `simulate_transaction`. Ids and times that a call draws are its arguments.
pub mod Approval
pub mod Simulation
pub mod Blind
use ai_wallet.Prelude.{
  ℕ, String, List, [], ◌∷◌, Option, none, some, Result, ok, err, fail_if, ◌>>=◌, ◌>>◌, ◌==◌,
  if◌then◌else◌,
}
use ai_wallet.Crates.{Crates}
use ai_wallet.Error.{AppError, bad_request}
use ai_wallet.Audit.{AuditRepository}
use ai_wallet.Model.{
  OperationKind, transfer_native, transfer_erc20, contract_call, typed_data, raw_message,
  PolicyDecision, approved, denied, requires_review, ExecutionMode, mock, isolated_signer,
  SignedArtifact, SignIntentRequest, SignIntentResponse, AuditEvent, AuditEventInput,
  SimulateTransactionRequest, SimulateTransactionResponse,
}
use ai_wallet.Policy.{evaluate}
use ai_wallet.Signer.{SignerEnvelope, SignerGateway}
use ai_wallet.Simulator.{TransactionSimulator}

-- `format!("{:?}", x).to_lowercase()`.
unfoldable pub operation_text : OperationKind → String
operation_text transfer_native = "transfernative"
operation_text transfer_erc20 = "transfererc20"
operation_text contract_call = "contractcall"
operation_text typed_data = "typeddata"
operation_text raw_message = "rawmessage"

unfoldable pub decision_text : PolicyDecision → String
decision_text approved = "approved"
decision_text denied = "denied"
decision_text requires_review = "requiresreview"

unfoldable pub mode_text : ExecutionMode → String
mode_text mock = "mock"
mode_text isolated_signer = "isolatedsigner"

module _ (K : Crates) where
  unfoldable pub envelope_of : K.Uuid → SignIntentRequest K → SignerEnvelope K
  envelope_of request_id req = record {
    request_id = request_id;
    tenant_id = req.tenant_id;
    wallet_id = req.wallet_id;
    chain_id = req.chain_id;
    from_address = req.from_address;
    payload = req.payload;
  }

  -- The match on the decision.
  unfoldable pub artifact_for :
      SignerGateway K
      → K.Uuid
      → SignIntentRequest K
      → PolicyDecision
      → Result (Option SignedArtifact) AppError
  unfolding envelope_of
  artifact_for signer request_id req approved = do
    artifact ← signer.sign (envelope_of request_id req)
    ok (some artifact)
  artifact_for signer request_id req denied = ok none
  artifact_for signer request_id req requires_review = ok none

  unfoldable pub intent_event : SignIntentRequest K → SignIntentResponse K → AuditEventInput K
  unfolding operation_text decision_text mode_text
  intent_event req response = record {
    request_id = some response.request_id;
    tenant_id = some req.tenant_id;
    wallet_id = some req.wallet_id;
    actor = some req.policy_context.actor;
    action = "sign_intent";
    status = decision_text response.decision;
    metadata = K.json_object (
        ("operation", K.json_string (operation_text req.operation))
        ∷ ("execution_mode", K.json_string (mode_text response.execution_mode))
        ∷ []);
  }

  unfoldable pub response_of :
      SignerGateway K
      → K.Uuid
      → K.DateTime
      → PolicyDecision
      → Option SignedArtifact
      → SignIntentResponse K
  response_of signer request_id now decision signed_artifact = record {
    request_id = request_id;
    decision = decision;
    execution_mode = signer.execution_mode;
    signed_artifact = signed_artifact;
    created_at = now;
  }

  -- The response, with the event that the spawned task will record: the caller does not wait for
  -- that task, and its result is dropped.
  unfoldable pub handle_sign_intent :
      SignerGateway K
      → K.Uuid
      → K.DateTime
      → SignIntentRequest K
      → Result (SignIntentResponse K × AuditEventInput K) AppError
  handle_sign_intent signer request_id now req = do
    decision ← evaluate K req
    signed_artifact ← artifact_for signer request_id req decision
    let response = response_of signer request_id now decision signed_artifact
    ok (response, intent_event req response)

  unfoldable pub simulation_event :
      SimulateTransactionRequest → SimulateTransactionResponse → AuditEventInput K
  simulation_event req result = record {
    request_id = none;
    tenant_id = none;
    wallet_id = none;
    actor = none;
    action = "simulate_transaction";
    status = if result.success then "success" else "warning";
    metadata = K.json_object (
        ("chain_id", K.json_number req.chain_id)
        ∷ ("estimated_gas", K.json_number result.estimated_gas)
        ∷ ("warnings", K.json_strings result.warnings)
        ∷ []);
  }

  module _ {S : Type 0} (audit : AuditRepository K S) where
    -- `.record(event).await?` and then the answer.
    unfoldable pub recorded :
        {R : Type 0} → K.Uuid → K.DateTime → AuditEventInput K → R → S → Result R AppError × S
    recorded id now event answer s =
        let (r, s') = audit.record_event id now event s in (r >>= λ _. ok answer, s')

    unfoldable pub simulate_transaction :
        TransactionSimulator
        → K.Uuid
        → K.DateTime
        → SimulateTransactionRequest
        → S
        → Result SimulateTransactionResponse AppError × S
    unfolding recorded
    simulate_transaction simulator id now req s = elim simulated [
      | err e ↦ (err e, s)
      | ok result ↦ recorded id now (simulation_event req result) result s
    ]
      where
        simulated : Result SimulateTransactionResponse AppError
        simulated = do
          fail_if (req.chain_id == 0) (bad_request "chain_id must be non-zero")
          simulator.simulate req
