-- ===== src/System/Trail.antt =====
-- The audit of a running server against what has happened in it.
use mathlib.Core.List.{append_assoc, perm_middle, Perm, Subperm}
use mathlib.Core.List.Perm
use mathlib.Core.List.Subperm
use ai_wallet.Prelude.{◌≡◌, ap, List, [], ◌∷◌, ◌++◌, map, Result, inl, inr, String, Option-cases}
use ai_wallet.Crates.{Crates}
use ai_wallet.Error.{AppError}
use ai_wallet.Audit.Journal.{IsReliable, Keeps}
use ai_wallet.Audit.{to_event}
use ai_wallet.Model.{
  AuditEvent, AuditEventInput, BroadcastTransactionRequest, BroadcastTransactionResponse,
}
use ai_wallet.Broadcast.{BroadcastJob, finish, settle, settled_event}
use ai_wallet.Broadcast.Table.{get}
use ai_wallet.Api.Types.{Call, AppState, Store}
use ai_wallet.Api.{run_spawned, queued_event}
use ai_wallet.System.{
  Happened, Server, settlement, begin, round, calls, registers, places, records, receives, finishes,
  runs, Run, here, next, remember, placed, submission,
}
use ai_wallet.System.Owed.{input_of, trail, inputs, on_record, Accounts, handle-trail}

module _ (K : Crates) where
  module _ {S : Type 0} (app : AppState K S) (journal : S → List (AuditEvent K)) where
    -- A server's events on record, against those that are owed.
    abbrev Accounted :
        (List (AuditEventInput K) → List (AuditEventInput K) → Type 0)
        → Store K S
        → List (Happened K)
        → Type 0
    Accounted Covers s history = Covers (on_record K app journal s) (trail K history)

    module _ (Covers : List (AuditEventInput K) → List (AuditEventInput K) → Type 0)
        (rules : Accounts K app journal Covers) where
      placed-trail :
          (id : K.Uuid) (now : K.DateTime) (request : BroadcastTransactionRequest K)
          (response : BroadcastTransactionResponse K) (s : Store K S) (history : List (Happened K))
          → Accounted Covers s history
          → Accounted Covers
              (record s { audited = (placed K app id now request response s.audited).1 })
              (remember K
                (Call.broadcast_transaction request)
                (placed K app id now request response s.audited).0
                history)
      unfolding placed
      placed-trail id now request response s history h =
          elim (rules.records id now (queued_event K request response) s.audited) [
            | inl (good, put) ↦ rw (put, good) (rules.both _ h)
            | inr (e, bad, stays, lose) ↦ rw (bad, stays) h
          ]

      round-trail :
          (id : K.Uuid) (event_now now : K.DateTime) (outcome : Result String AppError)
          (job : BroadcastJob K) (s : Store K S) (history : List (Happened K))
          → Accounted Covers s history
          → Accounted Covers
              (round K app id event_now now outcome job s)
              (settlement K now outcome (get K job.broadcast_id s.service.statuses) history)
      unfolding round
      round-trail id event_now now outcome job s history h =
          elim (Option-cases (get K job.broadcast_id s.service.statuses)) [
            | inl missing ↦ rw (missing, finish) h
            | inr (st, found) ↦
                let event = settled_event K outcome (settle K now outcome st) in
                elim (rules.records id event_now event s.audited) [
                  | inl (good, put) ↦ rw (found, finish) (rw put (rules.both _ h))
                  | inr (e, bad, stays, lose) ↦
                      rw (found, finish) (rw stays (lose _ _ (rules.both _ h)))
                ]
          ]

      runs-trail :
          (before : List (AuditEventInput K)) (event : AuditEventInput K)
          (after : List (AuditEventInput K)) (id : K.Uuid) (now : K.DateTime) (s : Store K S)
          (history : List (Happened K))
          → s.spawned ≡ before ++ event ∷ after
          → Accounted Covers s history
          → Accounted Covers (run_spawned K app before event after id now s) history
      unfolding run_spawned
      runs-trail before event after id now s history split h =
          let xs = inputs K app journal s.audited in
          let pending : Covers (xs ++ (before ++ event ∷ after)) (trail K history) =
            rw split at h in
          let front : Covers (event ∷ (xs ++ (before ++ after))) (trail K history) =
            rw (← append_assoc xs before after) (
              rules.moved (Perm.symm (perm_middle {a = event} (xs ++ before) after))
                (rw (append_assoc xs before (event ∷ after)) pending)) in
          elim (rules.records id now event s.audited) [
            | inl (good, put) ↦ rw put front
            | inr (e, bad, stays, lose) ↦ rw stays (lose _ _ front)
          ]

      Run-Accounted :
          {audited : S} {w : Server K app}
          → Covers [] []
          → journal audited ≡ []
          → Run K app (begin K app audited) w
          → Accounted Covers w.store w.history
      Run-Accounted nothing empty here = rw empty nothing
      Run-Accounted nothing empty (next {u} r (calls draws call other)) =
          handle-trail K app journal Covers rules draws call u.store u.history other
            (Run-Accounted nothing empty r)
      Run-Accounted nothing empty (next {u} r (registers id now request fresh)) =
          Run-Accounted nothing empty r
      Run-Accounted nothing empty (next {u} r (places before job after status split room found)) =
          Run-Accounted nothing empty r
      Run-Accounted nothing empty
            (next {u} r (records before request response after id now split)) =
          placed-trail id now request response u.store u.history (Run-Accounted nothing empty r)
      Run-Accounted nothing empty (next {u} r (receives job rest idle first)) =
          Run-Accounted nothing empty r
      Run-Accounted nothing empty (next {u} r (finishes id event_now now answer job busy)) =
          round-trail id event_now now (submission K app answer job) job u.store u.history
            (Run-Accounted nothing empty r)
      Run-Accounted nothing empty (next {u} r (runs before event after id now split)) =
          runs-trail before event after id now u.store u.history split
            (Run-Accounted nothing empty r)

    reliable-Accounts : IsReliable K app.audit journal → Accounts K app journal Perm
    unfolding to_event
    reliable-Accounts reliable = record {
      both = λ event h. Perm.cons event h;
      moved = λ p h. Perm.trans p h;
      records = λ id now event audited.
          let (good, put) = reliable.takes id now event audited in
          inl (good, ap (map (input_of K)) put);
    }

    keeps-Accounts : Keeps K app.audit journal → Accounts K app journal Subperm
    unfolding to_event
    keeps-Accounts keeps = record {
      both = λ event h. Subperm.cons event h;
      moved = λ p h. Subperm.trans (Perm.subperm p) h;
      records = λ id now event audited. elim (keeps.recorded id now event audited) [
        | inl (good, put) ↦ inl (good, ap (map (input_of K)) put)
        | inr (e, bad, stays) ↦
            inr (e, bad, ap (map (input_of K)) stays, λ xs ys h. Subperm.trans Subperm.cons_self h)
      ];
    }

    -- Over a repository that takes every event, the audit of the server is complete and records
    -- nothing else, in every state that the server reaches from an empty journal: the events of the
    -- journal with those that spawned tasks still have to record are, up to their order, one event for
    -- each sign intent, simulation and broadcast that was answered, and one for each broadcast that the
    -- worker has settled.
    pub Run-trail :
        {audited : S} {w : Server K app}
        → IsReliable K app.audit journal
        → journal audited ≡ []
        → Run K app (begin K app audited) w
        → Perm (map (input_of K) (journal w.store.audited) ++ w.store.spawned) (trail K w.history)
    Run-trail reliable empty r =
        Run-Accounted Perm (reliable-Accounts reliable) (Perm.refl []) empty r

    -- Over any repository that keeps a journal, its failures included, the audit of the server makes
    -- nothing up, in every state that the server reaches from an empty journal: each event of the
    -- journal, and each that a spawned task still has to record, is one of those owed to the answered
    -- sign intents, simulations and broadcasts and to the settled broadcasts, and none is there twice.
    pub Run-Subperm :
        {audited : S} {w : Server K app}
        → Keeps K app.audit journal
        → journal audited ≡ []
        → Run K app (begin K app audited) w
        → Subperm
            (map (input_of K) (journal w.store.audited) ++ w.store.spawned)
            (trail K w.history)
    Run-Subperm keeps empty r =
        Run-Accounted Subperm (keeps-Accounts keeps) (Subperm.refl []) empty r
