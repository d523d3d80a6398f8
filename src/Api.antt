-- ===== src/Api.antt =====
-- src/api.rs: the handlers and the router. Matching a path and extracting a handler's arguments are
-- axum's, and a parameter.
pub mod Types
pub mod Access
pub mod Admits
pub mod Broadcasts
pub mod Events
pub mod Router
pub mod Closed
pub mod Front
pub mod Statuses
use ai_wallet.Prelude.{
  ℕ, ◌+◌, String, Bool, true, false, List, [], ◌∷◌, ◌++◌, Option, none, some, Result, ok, err,
  ◌>>=◌, unwrap_or, min, if◌then◌else◌, ℤ,
}
use ai_wallet.Crates.{Crates}
use ai_wallet.Error.{AppError}
use ai_wallet.Audit.{AuditRepository}
use ai_wallet.Auth.{ApiAuth, mode_name, HttpRequest, auth_middleware}
use ai_wallet.Broadcast.{BroadcastJob, Service, register, place, enqueued, get_status}
use ai_wallet.Intent
use ai_wallet.Intent.{handle_sign_intent, recorded}
use ai_wallet.Model.{
  ApiInfo, ExecutionMode, mock, isolated_signer, VerifyMessageRequest, VerifyMessageResponse,
  VerifyTypedDataRequest, VerifyTypedDataResponse, PrepareTransferRequest, PrepareTransferResponse,
  SimulateTransactionRequest, SimulateTransactionResponse, SignIntentRequest, SignIntentResponse,
  BroadcastTransactionRequest, BroadcastTransactionResponse, BroadcastStatusResponse,
  ListAuditEventsQuery, ListAuditEventsResponse, AuditEventInput,
}
use ai_wallet.Api.Types.{
  Endpoint, is_authenticated, Call, Reply, verified, verified_typed_data, prepared, simulated,
  signed, broadcast, status, events, text, about, Draws, AppState, Store, Outcome, answered,
  rejected, Extract, flatten,
}
use ai_wallet.Signer.{SignerGateway}
use ai_wallet.Simulator.{TransactionSimulator}
use ai_wallet.Transfer
use ai_wallet.Verify

unfoldable pub signer_mode_name : ExecutionMode → String
signer_mode_name mock = "mock"
signer_mode_name isolated_signer = "isolated-signer"

-- At most 200 events, 50 by default.
unfoldable pub list_limit : ListAuditEventsQuery → ℕ
list_limit query = min (unwrap_or 50 query.limit) 200

module _ (K : Crates) where
  -- `enqueue` of a call that gets its answer from the channel at once.
  unfoldable pub enqueue :
      K.Uuid
      → K.DateTime
      → BroadcastTransactionRequest K
      → Result (Unit {0}) String
      → Service K
      → Result (BroadcastTransactionResponse K) AppError × Service K
  unfolding register place enqueued
  enqueue id now request (ok _) s = (
    enqueued K id now (ok tt),
    place K [] (record { broadcast_id = id; request = request }) s.sending
        (register K id now request s),
  )
  enqueue id now request (err e) s =
      (enqueued K id now (err e), record (register K id now request s) { sending = s.sending })

  unfoldable pub queued_event :
      BroadcastTransactionRequest K → BroadcastTransactionResponse K → AuditEventInput K
  queued_event request response = record {
    request_id = request.request_id;
    tenant_id = none;
    wallet_id = none;
    actor = none;
    action = "broadcast_transaction";
    status = "queued";
    metadata = K.json_object (
        ("broadcast_id", K.json_uuid response.broadcast_id)
        ∷ ("chain_id", K.json_number request.chain_id)
        ∷ []);
  }

  module _ {S : Type 0} (app : AppState K S) where
    unfoldable pub info_of : ApiInfo
    unfolding mode_name signer_mode_name
    info_of = record {
      service = "ai-wallet";
      version = "0.1.0";
      supported_chains = "ethereum" ∷ "base" ∷ "arbitrum" ∷ "optimism" ∷ "bsc" ∷ [];
      isolation_model = "api gateway + isolated signer worker + policy engine";
      auth_mode = mode_name app.api_auth;
      audit_backend = app.audit.backend_name;
      signer_mode = signer_mode_name app.signer.execution_mode;
    }

    unfoldable pub broadcast_transaction_handler :
        Draws K
        → BroadcastTransactionRequest K
        → Store K S
        → Result (BroadcastTransactionResponse K) AppError × Store K S
    unfolding enqueue queued_event recorded
    broadcast_transaction_handler draws req s =
        let (queued, service) = enqueue draws.id draws.now req draws.sent s.service in
        elim queued [
          | err e ↦ (err e, record s { service = service })
          | ok response ↦
              let (r, audited) =
                recorded K app.audit draws.event_id draws.event_now (queued_event req response)
                  response s.audited in
              (r, record s { service = service; audited = audited })
        ]

    unfoldable pub sign_intent_handler :
        Draws K
        → SignIntentRequest K
        → Store K S
        → Result (SignIntentResponse K) AppError × Store K S
    sign_intent_handler draws req s =
        elim (handle_sign_intent K app.signer draws.id draws.now req) [
          | err e ↦ (err e, s)
          | ok (response, event) ↦ (ok response, record s { spawned = s.spawned ++ event ∷ [] })
        ]

    unfoldable pub simulate_transaction_handler :
        Draws K
        → SimulateTransactionRequest
        → Store K S
        → Result SimulateTransactionResponse AppError × Store K S
    simulate_transaction_handler draws req s =
        let (r, audited) =
          Intent.simulate_transaction K app.audit app.simulator draws.event_id draws.event_now req
            s.audited in
        (r, record s { audited = audited })

    unfoldable pub list_audit_events_handler :
        ListAuditEventsQuery → Store K S → Result (ListAuditEventsResponse K) AppError
    unfolding list_limit
    list_audit_events_handler query s = do
      found ← app.audit.list (list_limit query) s.audited
      ok (record { events = found })

    abbrev pub replied :
        {A : Type 0} → (A → Reply K) → Result A AppError → Result (Reply K) AppError
    replied f r = r >>= λ a. ok (f a)

    unfoldable pub handle : Draws K → Call K → Store K S → Result (Reply K) AppError × Store K S
    handle draws (Call.verify_message req) s = (replied verified (Verify.verify_message K req), s)
    handle draws (Call.verify_typed_data req) s =
        (replied verified_typed_data (Verify.verify_typed_data K req), s)
    handle draws (Call.prepare_transfer req) s =
        (replied prepared (Transfer.prepare_transfer K req), s)
    handle draws (Call.simulate_transaction req) s =
        let (r, s') = simulate_transaction_handler draws req s in (replied simulated r, s')
    handle draws (Call.sign_intent req) s =
        let (r, s') = sign_intent_handler draws req s in (replied signed r, s')
    handle draws (Call.broadcast_transaction req) s =
        let (r, s') = broadcast_transaction_handler draws req s in (replied broadcast r, s')
    handle draws (Call.broadcast_status id) s = (replied status (get_status K id s.service), s)
    handle draws (Call.audit_events query) s =
        (replied events (list_audit_events_handler query s), s)
    handle draws Call.healthz s = (ok (text "ok"), s)
    handle draws Call.info s = (ok (about info_of), s)

    -- A spawned audit task runs, whichever the runtime picks; its result is dropped.
    unfoldable pub run_spawned :
        List (AuditEventInput K)
        → AuditEventInput K
        → List (AuditEventInput K)
        → K.Uuid
        → K.DateTime
        → Store K S
        → Store K S
    run_spawned before event after id now s = record s {
      audited = (app.audit.record_event id now event s.audited).1;
      spawned = before ++ after;
    }

    unfoldable pub run_handler :
        Extract K → Draws K → Endpoint → HttpRequest K → Store K S → Outcome K × Store K S
    unfolding handle
    run_handler extract draws endpoint request s = elim (extract endpoint request) [
      | err code ↦ (rejected code, s)
      | ok call ↦ let (r, s') = handle draws call s in (answered r, s')
    ]

    -- A request at a route: through the authentication where the layer covers the route.
    unfoldable pub serve :
        Extract K → ℤ → Draws K → Endpoint → HttpRequest K → Store K S → Outcome K × Store K S
    unfolding run_handler
    serve extract now draws endpoint request s =
        if is_authenticated endpoint
        then (let (r, s') =
              auth_middleware K app.api_auth now (run_handler extract draws endpoint) request s in
            (flatten K r, s'))
        else run_handler extract draws endpoint request s
