-- ===== src/System/History.antt =====
-- Predicates of all that has happened in the running server.
use ai_wallet.Prelude.{
  ◌≡◌, List, [], ◌∷◌, ◌++◌, Result, ok, err, refl, Option, none, some, String, All,
}
use ai_wallet.Crates.{Crates}
use ai_wallet.Error.{AppError}
use ai_wallet.Model.{BroadcastStatusResponse}
use ai_wallet.Broadcast.{settle}
use ai_wallet.Api.Types.{Call, Reply, AppState, Draws, Store}
use ai_wallet.Api.{handle}
use ai_wallet.Broadcast.Table.{get}
use ai_wallet.System.{
  Happened, Server, settlement, begin, calls, registers, places, records, receives, finishes, runs,
  Run, here, next, remember, placed, submission,
}

module _ (K : Crates) (P : Happened K → Type 0) where
  All-remember :
      (call : Call K) (r : Result (Reply K) AppError) (history : List (Happened K))
      → ((reply : Reply K) → r ≡ ok reply → P (Happened.answered call reply))
      → All P history
      → All P (remember K call r history)
  All-remember call (ok reply) history h all = (h reply refl, all)
  All-remember call (err e) history h all = all

  pub All-middle :
      (before : List (Happened K)) (h : Happened K) (after : List (Happened K))
      → All P (before ++ h ∷ after)
      → P h
  All-middle [] h after all = all.0
  All-middle (x ∷ before) h after all = All-middle before h after all.1

  All-settlement :
      (now : K.DateTime) (outcome : Result String AppError)
      (status : Option (BroadcastStatusResponse K)) (history : List (Happened K))
      → ((status : BroadcastStatusResponse K) → P (Happened.settled outcome status))
      → All P history
      → All P (settlement K now outcome status history)
  All-settlement now outcome none history h all = all
  All-settlement now outcome (some status) history h all = (h (settle K now outcome status), all)

  module _ {S : Type 0} (app : AppState K S)
      (called : (draws : Draws K) (call : Call K) (s : Store K S) (reply : Reply K)
        → (handle K app draws call s).0 ≡ ok reply
        → P (Happened.answered call reply))
      (broadcast : (id : K.Uuid) (now : K.DateTime) (request : _) (response : _) (audited : S)
          (reply : Reply K)
        → (placed K app id now request response audited).0 ≡ ok reply
        → P (Happened.answered (Call.broadcast_transaction request) reply))
      (settled : (outcome : Result String AppError) (status : BroadcastStatusResponse K)
        → P (Happened.settled outcome status)) where
    -- What every answer of a handler and every settlement satisfies, all that happens does.
    pub Run-All :
        {audited : S} {w : Server K app} → Run K app (begin K app audited) w → All P w.history
    Run-All here = tt
    Run-All (next {u} r (calls draws call other)) =
        All-remember call (handle K app draws call u.store).0 u.history
          (λ reply e. called draws call u.store reply e) (Run-All r)
    Run-All (next {u} r (registers id now request fresh)) = Run-All r
    Run-All (next {u} r (places before job after status split room found)) = Run-All r
    Run-All (next {u} r (records before request response after id now split)) =
        All-remember (Call.broadcast_transaction request)
          (placed K app id now request response u.store.audited).0 u.history
          (λ reply e. broadcast id now request response u.store.audited reply e) (Run-All r)
    Run-All (next {u} r (receives job rest idle first)) = Run-All r
    Run-All (next {u} r (finishes id event_now now answer job busy)) =
        All-settlement now (submission K app answer job)
          (get K job.broadcast_id u.store.service.statuses) u.history
          (λ status. settled (submission K app answer job) status) (Run-All r)
    Run-All (next {u} r (runs before event after id now split)) = Run-All r
