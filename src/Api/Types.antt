-- ===== src/Api/Types.antt =====
-- src/api.rs and `AppState` of src/service.rs: the routes, the arguments and answers of their handlers,
-- and what calls change.
use ai_wallet.Prelude.{ℕ, String, Bool, true, false, List, Option, Result, ok, err}
use ai_wallet.Crates.{Crates}
use ai_wallet.Error.{AppError}
use ai_wallet.Audit.{AuditRepository}
use ai_wallet.Auth.{ApiAuth, HttpRequest}
use ai_wallet.Broadcast.{Service}
use ai_wallet.Model.{
  ApiInfo, VerifyMessageRequest, VerifyMessageResponse, VerifyTypedDataRequest,
  VerifyTypedDataResponse, PrepareTransferRequest, PrepareTransferResponse,
  SimulateTransactionRequest, SimulateTransactionResponse, SignIntentRequest, SignIntentResponse,
  BroadcastTransactionRequest, BroadcastTransactionResponse, BroadcastStatusResponse,
  ListAuditEventsQuery, ListAuditEventsResponse, AuditEventInput,
}
use ai_wallet.Signer.{SignerGateway}
use ai_wallet.Simulator.{TransactionSimulator}

-- The routes, in the order of `router`.
pub data Endpoint : Type 0 where
  verify_message verify_typed_data prepare_transfer simulate_transaction sign_intent : Endpoint
  broadcast_transaction broadcast_status audit_events healthz info : Endpoint

-- Whether the route stands under the layer of `auth_middleware`.
abbrev pub is_authenticated : Endpoint → Bool
is_authenticated Endpoint.healthz = false
is_authenticated Endpoint.info = false
is_authenticated _ = true

module _ (K : Crates) where
  -- A handler's arguments, as axum extracts them.
  pub data Call : Type 0 where
    verify_message : VerifyMessageRequest → Call
    verify_typed_data : VerifyTypedDataRequest K → Call
    prepare_transfer : PrepareTransferRequest → Call
    simulate_transaction : SimulateTransactionRequest → Call
    sign_intent : SignIntentRequest K → Call
    broadcast_transaction : BroadcastTransactionRequest K → Call
    broadcast_status : K.Uuid → Call
    audit_events : ListAuditEventsQuery → Call
    healthz info : Call

  pub data Reply : Type 0 where
    verified : VerifyMessageResponse → Reply
    verified_typed_data : VerifyTypedDataResponse → Reply
    prepared : PrepareTransferResponse → Reply
    simulated : SimulateTransactionResponse → Reply
    signed : SignIntentResponse K → Reply
    broadcast : BroadcastTransactionResponse K → Reply
    status : BroadcastStatusResponse K → Reply
    events : ListAuditEventsResponse K → Reply
    text : String → Reply
    about : ApiInfo → Reply

  -- What one call draws: an id and a time for itself and for its audit event, and the answer of the
  -- channel.
  pub record Draws : Type 0 where
    pub id : K.Uuid
    pub now : K.DateTime
    pub event_id : K.Uuid
    pub event_now : K.DateTime
    pub sent : Result (Unit {0}) String

  module _ (S : Type 0) where
    pub record AppState : Type 0 where
      pub api_auth : ApiAuth
      pub signer : SignerGateway K
      pub simulator : TransactionSimulator
      pub audit : AuditRepository K S
      pub broadcast_rpc_url : Option String  -- of the broadcast service's worker

    -- The audit's state, the broadcast service, and the audit tasks that are spawned and have not run.
    pub record Store : Type 0 where
      pub audited : S
      pub service : Service K
      pub spawned : List (AuditEventInput K)

  -- A response: a handler's result, or axum's refusal of the arguments with its status.
  pub data Outcome : Type 0 where
    answered : Result Reply AppError → Outcome
    rejected : ℕ → Outcome

  -- `Json`, `Path` and `Query` of axum: the arguments of the route's handler.
  abbrev pub Extract : Type 0
  Extract = Endpoint → HttpRequest K → Result Call ℕ

  abbrev pub flatten : Result Outcome AppError → Outcome
  flatten (ok outcome) = outcome
  flatten (err e) = answered (err e)
