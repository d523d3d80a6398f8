-- ===== src/Api/Broadcasts.antt =====
-- Broadcasts as the API's callers see them.
use ai_wallet.Prelude.{◌≡◌, [], ◌∷◌, ◌++◌, ok, err, arith}
use ai_wallet.Crates.{Crates}
use ai_wallet.Error.{AppError}
use ai_wallet.Model.{queued, BroadcastTransactionRequest, AuditEventInput}
use ai_wallet.Broadcast.Table.{get-insert}
use ai_wallet.Broadcast.{queued_status, get_status}
use ai_wallet.Api.Types.{Draws, AppState, Store}
use ai_wallet.Api.{queued_event, broadcast_transaction_handler}

module _ (K : Crates) where
  -- If the audit fails after the job has its place, the caller of the broadcast endpoint gets the
  -- audit's error, while the job is the last in the channel and its status is queued.
  pub broadcast_error-queued :
      {S : Type 0} (app : AppState K S) (draws : Draws K) (request : BroadcastTransactionRequest K)
      (s : Store K S) (e : AppError)
      → draws.sent ≡ ok tt
      → ((event : AuditEventInput K)
          → (app.audit.record_event draws.event_id draws.event_now event s.audited).0 ≡ err e)
      → ((broadcast_transaction_handler K app draws request s).0 ≡ err e)
        × ((broadcast_transaction_handler K app draws request s).1.service.channel
            ≡ s.service.channel ++ record { broadcast_id = draws.id; request = request } ∷ [])
        × (get_status K draws.id (broadcast_transaction_handler K app draws request s).1.service
            ≡ ok (queued_status K draws.id draws.now request))
  unfolding broadcast_transaction_handler get_status
  broadcast_error-queued app draws request s e sent down =
      let failed = down (
        queued_event K request
          (record { broadcast_id = draws.id; status = queued; created_at = draws.now })) in
      (
        ground (arith, sent, failed),
        ground (arith, sent),
        ground (
          arith,
          sent,
          get-insert K draws.id draws.id (queued_status K draws.id draws.now request)
              s.service.statuses,
        ),
      )
