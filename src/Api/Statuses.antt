-- ===== src/Api/Statuses.antt =====
-- With which statuses the API refuses.
use ai_wallet.Prelude.{
  ◌≡◌, ◌⊎◌, refl, inl, inr, Result, Result-cases, ok, err, arith, ℤ, ◌>>=◌, Bool-cases, ℕ,
}
use ai_wallet.Crates.{Crates}
use ai_wallet.Error.{AppError, status_code}
use ai_wallet.Auth.{ApiAuth, HttpRequest, auth_middleware}
use ai_wallet.Auth.Guard.{auth_middleware_cases}
use ai_wallet.Broadcast.{Service, get_status, enqueued}
use ai_wallet.Fields.{parse_address, parse_u256}
use ai_wallet.Model.{
  queued, AuditEventInput, SignIntentRequest, SimulateTransactionRequest,
  BroadcastTransactionRequest, VerifyTypedDataRequest, VerifyMessageRequest, PrepareTransferRequest,
  TransferAsset, native, erc20,
}
use ai_wallet.Policy.Decision.{evaluate-status}
use ai_wallet.Intent.{envelope_of, handle_sign_intent, simulate_transaction, recorded}
use ai_wallet.Intent.Approval.{handle_sign_intent-eq-err_iff}
use ai_wallet.Intent.Simulation.{simulate_transaction_cases}
use ai_wallet.Signer.{SignerEnvelope}
use ai_wallet.Transfer.{transfer_parts, prepare_transfer}
use ai_wallet.Verify.{verify_message, verify_typed_data}
use ai_wallet.Api.Types.{
  Endpoint, is_authenticated, Call, Reply, Draws, AppState, Store, answered, Extract, flatten,
}
use ai_wallet.Api.{
  list_limit, enqueue, queued_event, broadcast_transaction_handler, sign_intent_handler,
  simulate_transaction_handler, list_audit_events_handler, handle, run_handler, serve,
}

-- The statuses of refusals.
abbrev pub IsRefusal : ℕ → Type 0
IsRefusal n = (◌≡◌ {A = ℕ} n 400) ⊎ (◌≡◌ {A = ℕ} n 401) ⊎ (◌≡◌ {A = ℕ} n 500) ⊎ (◌≡◌ {A = ℕ} n 503)

-- Every error of a result has such a status.
abbrev pub Refuses {ℓ} : {A : Type ℓ} → Result A AppError → Type 0
Refuses (ok a) = Unit
Refuses (err e) = IsRefusal (status_code e)

module _ (K : Crates) where
  verify_message-Refuses : (req : VerifyMessageRequest) → Refuses (verify_message K req)
  unfolding verify_message parse_address
  verify_message-Refuses req = ground arith

  verify_typed_data-Refuses : (req : VerifyTypedDataRequest K) → Refuses (verify_typed_data K req)
  unfolding verify_typed_data parse_address
  verify_typed_data-Refuses req = ground arith

  transfer_parts-Refuses :
      (req : PrepareTransferRequest) (asset : TransferAsset) → Refuses (transfer_parts K req asset)
  unfolding transfer_parts parse_address parse_u256
  transfer_parts-Refuses req native = ground arith
  transfer_parts-Refuses req (erc20 token decimals) = ground arith

  prepare_transfer-Refuses : (req : PrepareTransferRequest) → Refuses (prepare_transfer K req)
  unfolding prepare_transfer parse_address
  prepare_transfer-Refuses req = ground (arith, transfer_parts-Refuses req req.asset)

  -- What the API asks of the parts that it is given.
  pub record IsPolite {S : Type 0} (app : AppState K S) : Type 0 where
    pub signs : (envelope : SignerEnvelope K) → Refuses (app.signer.sign envelope)
    pub simulates : (req : SimulateTransactionRequest) → Refuses (app.simulator.simulate req)
    pub records :
        (id : K.Uuid) (now : K.DateTime) (event : AuditEventInput K) (s : S)
        → Refuses (app.audit.record_event id now event s).0
    pub lists : (limit : ℕ) (s : S) → Refuses (app.audit.list limit s)

  pub Refuses-of_err {ℓ} :
      {A : Type ℓ} (r : Result A AppError)
      → ((e : AppError) → r ≡ err e → IsRefusal (status_code e))
      → Refuses r
  Refuses-of_err (ok a) h = tt
  Refuses-of_err (err e) h = h e refl

  Refuses-err {ℓ} :
      {A : Type ℓ} (r : Result A AppError) (e : AppError)
      → Refuses r
      → r ≡ err e
      → IsRefusal (status_code e)
  Refuses-err r e h same = rw same at h

  Refuses-map :
      {A B : Type 0} (r : Result A AppError) (f : A → B) → Refuses r → Refuses (r >>= λ a. ok (f a))
  Refuses-map (ok a) f h = tt
  Refuses-map (err e) f h = h

  get_status-Refuses : (id : K.Uuid) (s : Service K) → Refuses (get_status K id s)
  unfolding get_status
  get_status-Refuses id s = ground arith

  module _ {S : Type 0} (app : AppState K S) (polite : IsPolite app) where
    intent-Refuses :
        (id : K.Uuid) (now : K.DateTime) (req : SignIntentRequest K)
        → Refuses (handle_sign_intent K app.signer id now req)
    intent-Refuses id now req = Refuses-of_err _ (λ e failed.
        elim ((handle_sign_intent-eq-err_iff K app.signer id now req e).0 failed) [
          | inl bad ↦ inl (evaluate-status K req e bad)
          | inr (good, refused) ↦ Refuses-err _ e (polite.signs (envelope_of K id req)) refused
        ])

    simulate-Refuses :
        (id : K.Uuid) (now : K.DateTime) (req : SimulateTransactionRequest) (s : S)
        → Refuses (simulate_transaction K app.audit app.simulator id now req s).0
    simulate-Refuses id now req s =
        elim (simulate_transaction_cases K app.audit app.simulator id now req s) [
          | inl (e, same, inl (zero_chain, code)) ↦ rw same (inl code)
          | inl (e, same, inr (chain, failed)) ↦
              rw same (Refuses-err _ e (polite.simulates req) failed)
          | inr (result, chain, simulated, inl (event, kept, same)) ↦ rw same tt
          | inr (result, chain, simulated, inr (e, lost, same)) ↦
              rw same (Refuses-err _ e (polite.records id now _ s) lost)
        ]

    broadcast-Refuses :
        (draws : Draws K) (req : BroadcastTransactionRequest K) (s : Store K S)
        → Refuses (broadcast_transaction_handler K app draws req s).0
    unfolding broadcast_transaction_handler enqueue enqueued recorded
    broadcast-Refuses draws req s = elim (Result-cases draws.sent) [
      | inl (u, placed) ↦ ground (
        arith,
        placed,
        polite.records draws.event_id draws.event_now
            (queued_event K req
              (record { broadcast_id = draws.id; status = queued; created_at = draws.now }))
            s.audited,
      )
      | inr (x, closed) ↦ ground (arith, closed)
    ]

    handle-Refuses :
        (draws : Draws K) (call : Call K) (s : Store K S) → Refuses (handle K app draws call s).0
    unfolding handle sign_intent_handler simulate_transaction_handler list_audit_events_handler
    handle-Refuses draws (Call.verify_message req) s =
        Refuses-map (verify_message K req) Reply.verified (verify_message-Refuses req)
    handle-Refuses draws (Call.verify_typed_data req) s =
        Refuses-map (verify_typed_data K req) Reply.verified_typed_data
          (verify_typed_data-Refuses req)
    handle-Refuses draws (Call.prepare_transfer req) s =
        Refuses-map (prepare_transfer K req) Reply.prepared (prepare_transfer-Refuses req)
    handle-Refuses draws (Call.simulate_transaction req) s =
        Refuses-map _ Reply.simulated
          (simulate-Refuses draws.event_id draws.event_now req s.audited)
    handle-Refuses draws (Call.sign_intent req) s =
        elim (Result-cases (handle_sign_intent K app.signer draws.id draws.now req)) [
          | inl (a, made) ↦ rw (made, sign_intent_handler) tt
          | inr (e, failed) ↦
              rw (failed, sign_intent_handler)
                (Refuses-err _ e (intent-Refuses draws.id draws.now req) failed)
        ]
    handle-Refuses draws (Call.broadcast_transaction req) s =
        Refuses-map _ Reply.broadcast (broadcast-Refuses draws req s)
    handle-Refuses draws (Call.broadcast_status id) s =
        Refuses-map (get_status K id s.service) Reply.status (get_status-Refuses id s.service)
    handle-Refuses draws (Call.audit_events query) s =
        Refuses-map (list_audit_events_handler K app query s) Reply.events (
          Refuses-map (app.audit.list (list_limit query) s.audited)
            (λ found. record { events = found }) (polite.lists (list_limit query) s.audited))
    handle-Refuses draws Call.healthz s = tt
    handle-Refuses draws Call.info s = tt

    run-Refuses :
        (extract : Extract K) (draws : Draws K) (endpoint : Endpoint) (request : HttpRequest K)
        (s : Store K S) (e : AppError)
        → (run_handler K app extract draws endpoint request s).0 ≡ answered (err e)
        → IsRefusal (status_code e)
    unfolding run_handler
    run-Refuses extract draws endpoint request s e h =
        elim (Result-cases (extract endpoint request)) [
          | inr (code, bad) ↦ absurd (ground arith)
          | inl (call, good) ↦
              Refuses-err (handle K app draws call s).0 e (handle-Refuses draws call s)
                (ground arith)
        ]

    middleware-Refuses :
        (auth : ApiAuth) (extract : Extract K) (now : ℤ) (draws : Draws K) (endpoint : Endpoint)
        (request : HttpRequest K) (s : Store K S) (e : AppError)
        → flatten K
            (auth_middleware K auth now (run_handler K app extract draws endpoint) request s).0
          ≡ answered (err e)
        → IsRefusal (status_code e)
    middleware-Refuses ApiAuth.disabled extract now draws endpoint request s e h =
        run-Refuses extract draws endpoint request s e (unfold auth_middleware in h)
    middleware-Refuses (ApiAuth.hmac verifier) extract now draws endpoint request s e h =
        elim (auth_middleware_cases K verifier now (run_handler K app extract draws endpoint)
          request s) [
            | inl ((bytes, read, authentic), run) ↦
                run-Refuses extract draws endpoint (record request { to_bytes = λ _. ok bytes }) s e
                  (rw (run bytes read) at h)
            | inr (bad, (x, stopped, code)) ↦ ground (arith, rw stopped at h)
          ]

    -- Every error that the API answers, at any route and under any authentication, is a 400, 401, 500
    -- or 503: a 403 is never answered. The signer, the simulator and the audit fail with these only.
    pub serve-Refuses :
        (extract : Extract K) (now : ℤ) (draws : Draws K) (endpoint : Endpoint)
        (request : HttpRequest K) (s : Store K S) (e : AppError)
        → (serve K app extract now draws endpoint request s).0 ≡ answered (err e)
        → IsRefusal (status_code e)
    unfolding serve
    serve-Refuses extract now draws endpoint request s e h =
        elim (Bool-cases (is_authenticated endpoint)) [
          | inl layered ↦
              middleware-Refuses app.api_auth extract now draws endpoint request s e
                (rw layered at h)
          | inr open_ ↦ run-Refuses extract draws endpoint request s e (rw open_ at h)
        ]
