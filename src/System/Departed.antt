-- ===== src/System/Departed.antt =====
-- What callers that leave the broadcast endpoint leave behind.
use mathlib.Core.List.{Perm, Subperm}
use ai_wallet.Prelude.{sublist-split, ◌≡◌, refl, List, [], ◌∷◌, ◌++◌, map, ok, arith, ap}
use ai_wallet.Crates.{Crates}
use ai_wallet.Audit.Journal.{IsReliable, Keeps}
use ai_wallet.Model.{queued, AuditEvent, BroadcastStatusResponse}
use ai_wallet.Broadcast.{BroadcastJob, get_status}
use ai_wallet.Broadcast.Ledger.{waiting, waiting-append, in_flight}
use ai_wallet.Broadcast.Stranded.{IsStranded, Reach-IsStranded, IsStranded-without}
use ai_wallet.Api.Types.{AppState}
use ai_wallet.System.{Server, begin}
use ai_wallet.System.Service.{view, Step-view, Run-Reach}
use ai_wallet.System.Owed.{input_of, trail}
use ai_wallet.System.Trail.{Run-trail, Run-Subperm}
use ai_wallet.System.Departures.{
  Change, steps, leaves_channel, leaves_record, Visit, stays, goes, unplaced, with_callers,
  Visit-Companion,
}

module _ (K : Crates) {S : Type 0} (app : AppState K S) where
  Change-IsStranded :
      {w v : Server K app} (id : K.Uuid) (st : BroadcastStatusResponse K)
      → Change K app w v
      → IsStranded K id st w.store.service
      → IsStranded K id st v.store.service
  Change-IsStranded id st (steps step) h = Reach-IsStranded K (Step-view K app step) h
  Change-IsStranded {w} id st (leaves_channel before job after split) h = record {
    gone = omega (
      arith,
      h.gone,
      ap (waiting K id) split,
      waiting-append K id before (job ∷ after),
      waiting-append K id before after,
    );
    kept = h.kept;
  }
  Change-IsStranded id st (leaves_record before call after split) h = h

  Visit-IsStranded :
      {w v : Server K app} (id : K.Uuid) (st : BroadcastStatusResponse K)
      → Visit K app w v
      → IsStranded K id st w.store.service
      → IsStranded K id st v.store.service
  Visit-IsStranded id st stays h = h
  Visit-IsStranded id st (goes r change) h =
      Change-IsStranded id st change (Visit-IsStranded id st r h)

  -- A broadcast whose caller leaves while it waits for its place is lost: from then on its status is
  -- queued in every state of the server, and no job of it is in the channel, with the worker or with
  -- a caller.
  pub unplaced-queued :
      {audited : S} {w v : Server K app} (before : List (BroadcastJob K)) (job : BroadcastJob K)
      (after : List (BroadcastJob K))
      → Visit K app (begin K app audited) w
      → w.store.service.sending ≡ before ++ job ∷ after
      → Visit K app (unplaced K app (before ++ after) w) v
      → (st : BroadcastStatusResponse K) × (get_status K job.broadcast_id v.store.service ≡ ok st)
        × (st.status ≡ queued)
        × (in_flight K job.broadcast_id v.store.service ≡ 0)
  unfolding get_status
  unplaced-queued {w = w} before job after r split later =
      let c = Visit-Companion K app r in
      let (b, a, found, fewer) = sublist-split before job after split c.jobs in
      let (st, open_, stranded) =
        IsStranded-without K (view K app (with_callers K app c.sending c.pending w)) b job a
          (before ++ after) (Run-Reach K app c.run).1 found fewer in
      let still = Visit-IsStranded job.broadcast_id st later stranded in
      (st, rw still.kept refl, open_, still.gone)

  module _ (journal : S → List (AuditEvent K)) where
    -- Over a repository that takes every event, the audit of the server is complete and records nothing
    -- else, in every state that the server reaches from an empty journal, callers who leave included: the
    -- events of the journal with those that spawned tasks still have to record are, up to their order,
    -- one event for each sign intent, simulation and broadcast that was answered, and one for each
    -- broadcast that the worker has settled.
    pub Visit-trail :
        {audited : S} {w : Server K app}
        → IsReliable K app.audit journal
        → journal audited ≡ []
        → Visit K app (begin K app audited) w
        → Perm (map (input_of K) (journal w.store.audited) ++ w.store.spawned) (trail K w.history)
    Visit-trail reliable empty r =
        Run-trail K app journal reliable empty (Visit-Companion K app r).run

    -- Over any repository that keeps a journal, its failures included, the audit of the server makes
    -- nothing up, in every state that the server reaches from an empty journal, callers who leave
    -- included: each event of the journal, and each that a spawned task still has to record, is one of
    -- those owed to the answered sign intents, simulations and broadcasts and to the settled broadcasts,
    -- and none is there twice.
    pub Visit-Subperm :
        {audited : S} {w : Server K app}
        → Keeps K app.audit journal
        → journal audited ≡ []
        → Visit K app (begin K app audited) w
        → Subperm
            (map (input_of K) (journal w.store.audited) ++ w.store.spawned)
            (trail K w.history)
    Visit-Subperm keeps empty r =
        Run-Subperm K app journal keeps empty (Visit-Companion K app r).run
