-- ===== src/System/Prompt.antt =====
-- A call at a handler of src/api.rs as steps of the running server.
use mathlib.Core.List.{append-nil}
use ai_wallet.Prelude.{◌≡◌, ◌<◌, refl, subst, [], ◌∷◌, ◌++◌, none, some, ok, arith, length, Result}
use ai_wallet.Crates.{Crates}
use ai_wallet.Error.{AppError}
use ai_wallet.Model.{BroadcastTransactionRequest, BroadcastStatusResponse}
use ai_wallet.Broadcast.{capacity, register, place, enqueued, queued_status}
use ai_wallet.Broadcast.Table.{get, get-insert}
use ai_wallet.Api.Types.{Call, Reply, Draws, AppState, Store}
use ai_wallet.Api.{handle, broadcast_transaction_handler, enqueue}
use ai_wallet.System.{
  IsBroadcast, Server, calls, registers, places, records, Run, here, next, remember, placed,
  queued_answer,
}

module _ (K : Crates) {S : Type 0} (app : AppState K S) where
  -- A broadcast draws an id that is not in the table, finds a place at once and the worker is there.
  pub record IsPrompt (draws : Draws K) (s : Store K S) : Type 0 where
    pub fresh : get K draws.id s.service.statuses ≡ none
    pub room : length s.service.channel < capacity
    pub sent : draws.sent ≡ ok tt

  -- The server once a call is answered.
  abbrev pub after_call : Draws K → Call K → Server K app → Server K app
  after_call draws call w = record w {
    store = (handle K app draws call w.store).1;
    history = remember K call (handle K app draws call w.store).0 w.history;
  }

  module _ (draws : Draws K) (request : BroadcastTransactionRequest K) where
    abbrev status : BroadcastStatusResponse K
    status = queued_status K draws.id draws.now request

    abbrev after_register : Server K app → Server K app
    after_register w = record w {
      store = record w.store { service = register K draws.id draws.now request w.store.service };
    }

    abbrev after_place : Server K app → Server K app
    after_place w = record w {
      store = record w.store {
        service =
            place K [] (record { broadcast_id = draws.id; request = request })
              w.store.service.sending (register K draws.id draws.now request w.store.service);
      };
      pending = w.pending ++ (request, queued_answer K status) ∷ [];
    }

    abbrev answer : S → Result (Reply K) AppError × S
    answer = placed K app draws.event_id draws.event_now request (queued_answer K status)

    abbrev after_record : Server K app → Server K app
    after_record w = record {
      store = record (after_place w).store { audited = (answer w.store.audited).1 };
      pending = w.pending ++ [];
      history =
          remember K (Call.broadcast_transaction request) (answer w.store.audited).0 w.history;
    }

    registered-found :
        (s : Store K S)
        → get K draws.id (register K draws.id draws.now request s.service).statuses ≡ some status
    unfolding register
    registered-found s = ground (arith, get-insert K draws.id draws.id status s.service.statuses)

    record-Run : (w : Server K app) → IsPrompt draws w.store → Run K app w (after_record w)
    unfolding register queued_status
    record-Run w h =
        let first : Run K app w (after_register w) =
          next here (registers draws.id draws.now request h.fresh) in
        let second : Run K app w (after_place w) = next first (
          places [] (record { broadcast_id = draws.id; request = request }) w.store.service.sending
            status refl h.room (registered-found w.store)) in
        next second (
          records w.pending request (queued_answer K status) [] draws.event_id draws.event_now refl)

    after_record-eq :
        (w : Server K app)
        → IsPrompt draws w.store
        → after_record w ≡ after_call draws (Call.broadcast_transaction request) w
    unfolding handle broadcast_transaction_handler enqueue enqueued placed queued_status register
    after_record-eq w h = rw (append-nil w.pending) (rw h.sent refl)

  -- An answered call is steps of the server.
  pub handle-Run :
      (draws : Draws K) (call : Call K) (w : Server K app)
      → (IsBroadcast K call → IsPrompt draws w.store)
      → Run K app w (after_call draws call w)
  handle-Run draws (Call.broadcast_transaction request) w h =
      subst (Run K app w) (after_record-eq draws request w (h tt))
        (record-Run draws request w (h tt))
  handle-Run draws (Call.verify_message req) w h = next here (calls draws _ (λ b. b))
  handle-Run draws (Call.verify_typed_data req) w h = next here (calls draws _ (λ b. b))
  handle-Run draws (Call.prepare_transfer req) w h = next here (calls draws _ (λ b. b))
  handle-Run draws (Call.simulate_transaction req) w h = next here (calls draws _ (λ b. b))
  handle-Run draws (Call.sign_intent req) w h = next here (calls draws _ (λ b. b))
  handle-Run draws (Call.broadcast_status id) w h = next here (calls draws _ (λ b. b))
  handle-Run draws (Call.audit_events query) w h = next here (calls draws _ (λ b. b))
  handle-Run draws Call.healthz w h = next here (calls draws _ (λ b. b))
  handle-Run draws Call.info w h = next here (calls draws _ (λ b. b))
