-- ===== src/System/Service.antt =====
-- The broadcast service within the running server.
use ai_wallet.Prelude.{
  ◌≡◌, refl, List, [], ◌∷◌, ◌++◌, Result, ok, err, arith, inl, inr, String, Option-cases,
}
use ai_wallet.Crates.{Crates}
use ai_wallet.Error.{AppError}
use ai_wallet.Model.{AuditEventInput}
use ai_wallet.Broadcast.{BroadcastJob, Service, finish, settled_event}
use ai_wallet.Broadcast.Table.{get}
use ai_wallet.Broadcast.Steps as Steps
use ai_wallet.Broadcast.Steps.{Reach-trans, World, start, Reach, to_list}
use ai_wallet.Broadcast.Ledger.{Inv}
use ai_wallet.Broadcast.Reached.{Reach-Inv}
use ai_wallet.Api.Types.{Call, Reply, Draws, AppState, Store}
use ai_wallet.Api.{handle, sign_intent_handler, simulate_transaction_handler, run_spawned}
use ai_wallet.System.{
  Happened, Step, IsBroadcast, Server, settlement, begin, round, calls, registers, places, records,
  receives, finishes, runs, Run, here, next, remember, placed, submission,
}

module _ (K : Crates) where
  -- The events of the statuses that the worker has settled.
  abbrev pub settled_events : List (Happened K) → List (AuditEventInput K)
  settled_events [] = []
  settled_events (Happened.answered call reply ∷ history) = settled_events history
  settled_events (Happened.settled outcome status ∷ history) =
      settled_event K outcome status ∷ settled_events history

  module _ {S : Type 0} (app : AppState K S) where
    -- A call that is no broadcast leaves the service alone.
    pub handle-service :
        (draws : Draws K) (call : Call K) (s : Store K S)
        → ¬ IsBroadcast K call
        → (handle K app draws call s).1.service ≡ s.service
    unfolding handle sign_intent_handler simulate_transaction_handler
    handle-service draws (Call.sign_intent req) s h = ground arith
    handle-service draws (Call.broadcast_transaction req) s h = absurd (h tt)
    handle-service draws call s h = refl

    -- The service of a server, with the events of what the worker has settled.
    abbrev pub view : Server K app → World K
    view w = record { service = w.store.service; handed = settled_events w.history }

    settled_events-remember :
        (call : Call K) (r : Result (Reply K) AppError) (history : List (Happened K))
        → settled_events (remember K call r history) ≡ settled_events history
    settled_events-remember call (ok reply) history = refl
    settled_events-remember call (err e) history = refl

    finish-event :
        (now : K.DateTime) (outcome : Result String AppError) (job : BroadcastJob K) (s : Service K)
        (history : List (Happened K))
        → settled_events (settlement K now outcome (get K job.broadcast_id s.statuses) history)
          ≡ to_list (finish K now outcome job s).1 ++ settled_events history
    unfolding finish
    finish-event now outcome job s history =
        elim (Option-cases (get K job.broadcast_id s.statuses)) [
          | inl missing ↦ rw (missing, finish)
          | inr (st, found) ↦ rw (found, finish)
        ]

    -- A step of the server is a step of the service, or none.
    pub Step-view : {u v : Server K app} → Step K app u v → Reach K (view u) (view v)
    unfolding round run_spawned
    Step-view {u} (calls draws call other) =
        rw
          (
            handle-service draws call u.store other,
            settled_events-remember call (handle K app draws call u.store).0 u.history,
          )
          Reach.here
    Step-view (registers id now request fresh) =
        Reach.next Reach.here (Steps.Step.registers id now request fresh)
    Step-view (places before job after status split room found) =
        Reach.next Reach.here (Steps.Step.places before job after split room)
    Step-view {u} (records before request response after id now split) =
        rw
          (settled_events-remember (Call.broadcast_transaction request)
            (placed K app id now request response u.store.audited).0 u.history)
          Reach.here
    Step-view (receives job rest idle first) =
        Reach.next Reach.here (Steps.Step.receives job rest idle first)
    Step-view {u} (finishes id event_now now answer job busy) =
        rw (finish-event now (submission K app answer job) job u.store.service u.history)
          (Reach.next Reach.here (Steps.Step.finishes now (submission K app answer job) job busy))
    Step-view (runs before event after id now split) = Reach.here

    reach :
        {audited : S} {w : Server K app}
        → Run K app (begin K app audited) w
        → Reach K (start K) (view w)
    reach here = Reach.here
    reach (next r step) = Reach-trans K (reach r) (Step-view step)

    -- The server's broadcast service only takes the steps of the broadcast service by itself: every run
    -- of the server, whatever calls it answers and whatever the audit does, is seen as a run of the
    -- service that hands to the audit the events of the statuses that the worker has settled. So in
    -- every state of the server the invariant of the service holds.
    pub Run-Reach :
        {audited : S} {w : Server K app}
        → Run K app (begin K app audited) w
        → Reach K (start K) (view w) × Inv K (view w)
    Run-Reach r = let reached = reach r in (reached, Reach-Inv K reached)
