-- ===== src/System.antt =====
-- The running server: requests in the handlers of src/api.rs, the worker task of src/broadcast.rs and
-- the audit tasks that src/service.rs spawns, interleaved in any order over one store. A broadcast takes
-- three steps, as it waits for its place and for its audit record.
pub mod Service
pub mod Owed
pub mod History
pub mod Trail
pub mod Signed
pub mod Submitted
pub mod Departures
pub mod Sound
pub mod Settles
pub mod Departed
pub mod Prompt
pub mod Requests
use ai_wallet.Prelude.{
  String, List, [], ◌∷◌, ◌++◌, ◌≡◌, ◌<◌, Option, none, some, Result, ok, err, length,
}
use ai_wallet.Crates.{Crates}
use ai_wallet.Error.{AppError}
use ai_wallet.Audit.{AuditRepository}
use ai_wallet.Model.{
  queued, BroadcastTransactionRequest, BroadcastTransactionResponse, BroadcastStatusResponse,
  AuditEventInput,
}
use ai_wallet.Intent.{recorded}
use ai_wallet.Broadcast
use ai_wallet.Broadcast.{
  BroadcastJob, capacity, register, place, receive, finish, settle, submit_transaction,
}
use ai_wallet.Broadcast.Table.{get}
use ai_wallet.Broadcast.Traced.{Answer}
use ai_wallet.Api.Types.{Call, Reply, broadcast, Draws, AppState, Store}
use ai_wallet.Api.{handle, queued_event, run_spawned, replied}

module _ (K : Crates) where
  -- What has happened: a call was answered, or the worker has settled a status.
  pub data Happened : Type 0 where
    answered : Call K → Reply K → Happened
    settled : Result String AppError → BroadcastStatusResponse K → Happened

  abbrev pub IsBroadcast : Call K → Type 0
  IsBroadcast (Call.broadcast_transaction _) = Unit
  IsBroadcast _ = ⊥

  -- The history after a call: its answer, if it has one.
  abbrev pub remember : Call K → Result (Reply K) AppError → List Happened → List Happened
  remember call (ok reply) history = answered call reply ∷ history
  remember call (err e) history = history

  abbrev pub settlement :
      K.DateTime
      → Result String AppError
      → Option (BroadcastStatusResponse K)
      → List Happened
      → List Happened
  settlement now outcome none history = history
  settlement now outcome (some status) history =
      settled outcome (settle K now outcome status) ∷ history

  -- The answer of `enqueue` to the caller whose status it is.
  abbrev pub queued_answer : BroadcastStatusResponse K → BroadcastTransactionResponse K
  queued_answer status = record {
    broadcast_id = status.broadcast_id;
    status = queued;
    created_at = status.created_at;
  }

  module _ {S : Type 0} (app : AppState K S) where
    -- The store, the callers of the broadcast endpoint that have yet to record the place they got, with
    -- the answer they will give, and, the newest first, what has happened.
    pub record Server : Type 0 where
      pub store : Store K S
      pub pending : List (BroadcastTransactionRequest K × BroadcastTransactionResponse K)
      pub history : List Happened

    -- `let _ = audit.record(event).await`, if there is an event.
    abbrev pub logged : K.Uuid → K.DateTime → Option (AuditEventInput K) → S → S
    logged id now none audited = audited
    logged id now (some event) audited = (app.audit.record_event id now event audited).1

    -- What the worker's submission of a job comes to, where the RPC answers a body at a URL by `answer`.
    abbrev pub submission : Answer K → BroadcastJob K → Result String AppError
    submission answer job = submit_transaction K answer app.broadcast_rpc_url job.request

    -- The worker's round after the outcome of its job.
    unfoldable pub round :
        K.Uuid
        → K.DateTime
        → K.DateTime
        → Result String AppError
        → BroadcastJob K
        → Store K S
        → Store K S
    unfolding finish
    round event_id event_now now outcome job s = record s {
      service = (finish K now outcome job s.service).0;
      audited = logged event_id event_now (finish K now outcome job s.service).1 s.audited;
    }

    -- The rest of the broadcast endpoint once its job has a place: the record and the answer.
    unfoldable pub placed :
        K.Uuid
        → K.DateTime
        → BroadcastTransactionRequest K
        → BroadcastTransactionResponse K
        → S
        → Result (Reply K) AppError × S
    unfolding recorded queued_event
    placed event_id event_now request response audited =
        let (r, audited') =
          recorded K app.audit event_id event_now (queued_event K request response) response
            audited in
        (replied K app broadcast r, audited')

    abbrev pub begin : S → Server
    begin audited = record {
      store = record { audited = audited; service = Broadcast.new K; spawned = [] };
      pending = [];
      history = [];
    }

    -- A broadcast waits for a place in the channel after its status is registered, under an id that
    -- is new, and then for its audit record; every other call is one step.
    pub data Step (w : Server) : Server → Type 0 where
      calls :
          (draws : Draws K) (call : Call K)
          → ¬ IsBroadcast call
          → Step w (record w {
            store = (handle K app draws call w.store).1;
            history = remember call (handle K app draws call w.store).0 w.history;
          })
      registers :
          (id : K.Uuid) (now : K.DateTime) (request : BroadcastTransactionRequest K)
          → get K id w.store.service.statuses ≡ none
          → Step w (record w {
            store = record w.store { service = register K id now request w.store.service };
          })
      places :
          (before : List (BroadcastJob K)) (job : BroadcastJob K) (after : List (BroadcastJob K))
          (status : BroadcastStatusResponse K)
          → w.store.service.sending ≡ before ++ job ∷ after
          → length w.store.service.channel < capacity
          → get K job.broadcast_id w.store.service.statuses ≡ some status
          → Step w (record w {
            store = record w.store { service = place K before job after w.store.service };
            pending = w.pending ++ (job.request, queued_answer status) ∷ [];
          })
      records :
          (before : List (BroadcastTransactionRequest K × BroadcastTransactionResponse K))
          (request : BroadcastTransactionRequest K) (response : BroadcastTransactionResponse K)
          (after : List (BroadcastTransactionRequest K × BroadcastTransactionResponse K))
          (id : K.Uuid) (now : K.DateTime)
          → w.pending ≡ before ++ (request, response) ∷ after
          → Step w (record {
            store = record w.store { audited = (placed id now request response w.store.audited).1 };
            pending = before ++ after;
            history =
                remember
                  (Call.broadcast_transaction request)
                  (placed id now request response w.store.audited).0
                  w.history;
          })
      receives :
          (job : BroadcastJob K) (rest : List (BroadcastJob K))
          → w.store.service.running ≡ none
          → w.store.service.channel ≡ job ∷ rest
          → Step w
              (record w { store = record w.store { service = receive K job rest w.store.service } })
      finishes :
          (id : K.Uuid) (event_now now : K.DateTime) (answer : Answer K) (job : BroadcastJob K)
          → w.store.service.running ≡ some job
          → Step w (record w {
            store = round id event_now now (submission answer job) job w.store;
            history =
                settlement now
                  (submission answer job)
                  (get K job.broadcast_id w.store.service.statuses)
                  w.history;
          })
      runs :
          (before : List (AuditEventInput K)) (event : AuditEventInput K)
          (after : List (AuditEventInput K)) (id : K.Uuid) (now : K.DateTime)
          → w.store.spawned ≡ before ++ event ∷ after
          → Step w (record w { store = run_spawned K app before event after id now w.store })

    pub data Run (w : Server) : Server → Type 0 where
      here : Run w w
      next : {u v : Server} → Run w u → Step u v → Run w v

    pub Run-trans : {u v w : Server} → Run u v → Run v w → Run u w
    Run-trans r here = r
    Run-trans r (next r' step) = next (Run-trans r r') step
