-- ===== src/Broadcast.antt =====
-- src/broadcast.rs. The service's shared state is the status table, the channel of 128 places, the
-- calls of `enqueue` that wait for a place, and the job that the worker task holds. A lock is held
-- for one operation below, so the operations interleave whole. The RPC and the channel's answer, by
-- reqwest and tokio, are arguments.
pub mod Table
pub mod Steps
pub mod Ledger
pub mod Reached
pub mod Submit
pub mod Traced
pub mod Stranded
pub mod Tracked
use ai_wallet.Prelude.{
  ℕ, String, List, [], ◌∷◌, ◌++◌, Option, none, some, Result, ok, err, map_err, ok_or, ◌>>=◌, ◌>>◌,
  ◌⧺◌, unwrap_or,
}
use ai_wallet.Crates.{Crates}
use ai_wallet.Error.{AppError, bad_request, internal, to_string}
use ai_wallet.Model.{
  BroadcastState, queued, submitted, failed, BroadcastTransactionRequest,
  BroadcastTransactionResponse, BroadcastStatusResponse, AuditEventInput,
}
use Table.{get, insert, modify}

abbrev pub capacity : ℕ
capacity = 128

module _ (K : Crates) where
  open K use {Uuid, DateTime, Value}

  pub record BroadcastJob : Type 0 where
    pub broadcast_id : Uuid
    pub request : BroadcastTransactionRequest K

  pub record Service : Type 0 where
    pub statuses : List (Uuid × BroadcastStatusResponse K)
    pub sending : List BroadcastJob
    pub channel : List BroadcastJob
    pub running : Option BroadcastJob

  abbrev pub new : Service
  new = record { statuses = []; sending = []; channel = []; running = none }

  unfoldable pub queued_status :
      Uuid → DateTime → BroadcastTransactionRequest K → BroadcastStatusResponse K
  queued_status broadcast_id now request = record {
    broadcast_id = broadcast_id;
    request_id = request.request_id;
    chain_id = request.chain_id;
    status = queued;
    tx_hash = none;
    error = none;
    created_at = now;
    updated_at = now;
  }

  -- `enqueue` up to its wait for a place in the channel.
  unfoldable pub register : Uuid → DateTime → BroadcastTransactionRequest K → Service → Service
  unfolding queued_status
  register broadcast_id now request s = record s {
    statuses = insert K broadcast_id (queued_status broadcast_id now request) s.statuses;
    sending = record { broadcast_id = broadcast_id; request = request } ∷ s.sending;
  }

  -- What `enqueue` answers, from what `send` answered.
  unfoldable pub enqueued :
      Uuid → DateTime → Result (Unit {0}) String → Result (BroadcastTransactionResponse K) AppError
  enqueued broadcast_id now sent = do
    map_err (λ e. internal ("failed to queue broadcast: " ⧺ e)) sent
    ok (record { broadcast_id = broadcast_id; status = queued; created_at = now })

  unfoldable pub get_status : Uuid → Service → Result (BroadcastStatusResponse K) AppError
  get_status id s =
      ok_or (bad_request ("unknown broadcast id `" ⧺ K.show_uuid id ⧺ "`")) (get K id s.statuses)

  -- `client.post(url).json(&body).send()`, and in it `response.json()`.
  abbrev pub Rpc : Type 0
  Rpc = String → Value → Result (Result Value String) String

  unfoldable pub rpc_request : BroadcastTransactionRequest K → Value
  rpc_request request = K.json_object (
      ("jsonrpc", K.json_string "2.0")
      ∷ ("method", K.json_string "eth_sendRawTransaction")
      ∷ ("params", K.json_strings (request.raw_transaction_hex ∷ []))
      ∷ ("id", K.json_number 1)
      ∷ [])

  abbrev pub result_text : Value → Option String
  result_text json = elim (K.json_get json "result") [
    | none ↦ none
    | some value ↦ K.json_as_str value
  ]

  unfoldable pub rpc_answer : Value → Result String AppError
  rpc_answer json = elim (result_text json) [
    | some hash ↦ ok hash
    | none ↦ err (
        internal (
          "broadcast RPC returned error: "
          ⧺ K.show_value (
              unwrap_or (K.json_object (("message", K.json_string "unknown") ∷ []))
                (K.json_get json "error"))))
  ]

  unfoldable pub submit_transaction :
      Rpc → Option String → BroadcastTransactionRequest K → Result String AppError
  unfolding rpc_request rpc_answer
  submit_transaction post rpc_url request = do
    url ← ok_or (internal "AI_WALLET_RPC_URL is required for broadcast submission") rpc_url
    response ←
        map_err (λ e. internal ("broadcast RPC request failed: " ⧺ e))
          (post url (rpc_request request))
    json ← map_err (λ e. internal ("broadcast RPC response decode failed: " ⧺ e)) response
    rpc_answer json

  -- What the worker writes into the status of its job.
  unfoldable pub settle :
      DateTime → Result String AppError → BroadcastStatusResponse K → BroadcastStatusResponse K
  unfolding to_string
  settle now (ok tx_hash) status = record status {
    status = submitted;
    tx_hash = some tx_hash;
    error = none;
    updated_at = now;
  }
  settle now (err e) status = record status {
    status = failed;
    tx_hash = none;
    error = some (to_string e);
    updated_at = now;
  }

  abbrev broadcast_event :
      BroadcastStatusResponse K → String → List (String × Value) → AuditEventInput K
  broadcast_event status outcome fields = record {
    request_id = status.request_id;
    tenant_id = none;
    wallet_id = none;
    actor = none;
    action = "broadcast_transaction";
    status = outcome;
    metadata = K.json_object fields;
  }

  -- What it hands to the audit.
  unfoldable pub settled_event :
      Result String AppError → BroadcastStatusResponse K → AuditEventInput K
  unfolding to_string
  settled_event (ok tx_hash) status = broadcast_event status "submitted" (
      ("broadcast_id", K.json_uuid status.broadcast_id)
      ∷ ("tx_hash", K.json_string tx_hash)
      ∷ ("chain_id", K.json_number status.chain_id)
      ∷ [])
  settled_event (err e) status = broadcast_event status "failed" (
      ("broadcast_id", K.json_uuid status.broadcast_id)
      ∷ ("chain_id", K.json_number status.chain_id)
      ∷ ("error", K.json_string (to_string e))
      ∷ [])

  -- The rest of the worker's round, once it has the outcome of its job: the new status, and the
  -- event for the audit if the job has a status.
  unfoldable pub finish :
      DateTime
      → Result String AppError
      → BroadcastJob
      → Service
      → Service × Option (AuditEventInput K)
  unfolding settle settled_event
  finish now outcome job s = (
    record s {
      statuses = modify K job.broadcast_id (settle now outcome) s.statuses;
      running = none;
    },
    elim (get K job.broadcast_id s.statuses) [
      | none ↦ none
      | some status ↦ some (settled_event outcome (settle now outcome status))
    ],
  )

  -- A waiting call of `enqueue` gets a place: `job` leaves the calls that wait.
  unfoldable pub place : List BroadcastJob → BroadcastJob → List BroadcastJob → Service → Service
  place before job after s = record s { sending = before ++ after; channel = s.channel ++ job ∷ [] }

  -- The worker's `recv`.
  unfoldable pub receive : BroadcastJob → List BroadcastJob → Service → Service
  receive job rest s = record s { channel = rest; running = some job }
