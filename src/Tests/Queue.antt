-- ===== src/Tests/Queue.antt =====
-- The test of src/broadcast.rs: a service without an RPC whose worker may have had its round before the
-- status is read.
use ai_wallet.Prelude.{◌≡◌, arith, Bool, true, false, none, Result, ok, ◌>>=◌, if◌then◌else◌, []}
use ai_wallet.Crates.{Crates}
use ai_wallet.Error.{AppError}
use ai_wallet.Model.{BroadcastState, queued, submitted, failed, BroadcastTransactionRequest}
use ai_wallet.Broadcast.{
  Rpc, BroadcastJob, Service, new, get_status, submit_transaction, receive, finish, place, register,
  queued_status,
}
use ai_wallet.Broadcast.Table.{get, insert, modify}
use ai_wallet.Api.{enqueue}

abbrev is_queued_or_failed : BroadcastState → Bool
is_queued_or_failed queued = true
is_queued_or_failed failed = true
is_queued_or_failed submitted = false

module _ (K : Crates) (post : Rpc K) where
  abbrev raw_transaction : BroadcastTransactionRequest K
  raw_transaction = record { request_id = none; chain_id = 1; raw_transaction_hex = "0x02" }

  -- The worker's round with the one job.
  abbrev worker_round : K.Uuid → K.DateTime → Service K → Service K
  worker_round id now s =
      let job : BroadcastJob K = record { broadcast_id = id; request = raw_transaction } in
      (finish K now (submit_transaction K post none raw_transaction) job (receive K job [] s)).0

  unfoldable enqueue_creates_pending_status :
      Bool → K.Uuid → K.DateTime → K.DateTime → Result Bool AppError
  enqueue_creates_pending_status worker_ran id now later =
      let call = enqueue K id now raw_transaction (ok tt) (new K) in
      do
        response ← call.0
        status ←
            get_status K response.broadcast_id
              (if worker_ran then worker_round id later call.1 else call.1)
        ok (is_queued_or_failed status.status)

  -- Whether the worker had its round or not, the status is there.
  enqueue_creates_pending_status_lem :
      (worker_ran : Bool) (id : K.Uuid) (now later : K.DateTime)
      → enqueue_creates_pending_status worker_ran id now later ≡ ok true
  unfolding enqueue_creates_pending_status enqueue get_status finish submit_transaction receive
      place register queued_status get insert modify
  enqueue_creates_pending_status_lem true id now later = ground arith
  enqueue_creates_pending_status_lem false id now later = ground arith
