-- ===== src/System/Departures.antt =====
-- The running server with callers that disconnect: a caller of the broadcast endpoint can leave while it
-- waits for a place in the channel, or for its audit record, and its handler is dropped there. Those of
-- the other endpoints are whole steps here: one that a disconnection drops at its only wait, that for the
-- audit, is not followed.
use mathlib.Core.List.{Sublistᴰ}
use ai_wallet.Prelude.{
  ◌≡◌, refl, sym, subst, List, [], ◌∷◌, ◌++◌, arith, sublist-without, sublist-split, sublist-snoc,
}
use ai_wallet.Crates.{Crates}
use ai_wallet.Model.{BroadcastTransactionRequest, BroadcastTransactionResponse}
use ai_wallet.Broadcast.{BroadcastJob, Service, get_status, register, place, receive, finish}
use ai_wallet.Api.Types.{Call, Draws, AppState, Store}
use ai_wallet.Api.{
  handle, sign_intent_handler, simulate_transaction_handler, list_audit_events_handler, run_spawned,
}
use ai_wallet.System.Service.{handle-service}
use ai_wallet.System.{
  remember, queued_answer, round, Server, IsBroadcast, begin, calls, registers, places, records,
  receives, finishes, runs, Step, Run, here, next,
}

module _ (K : Crates) {S : Type 0} (app : AppState K S) where
  abbrev pub Pending : Type 0
  Pending = List (BroadcastTransactionRequest K × BroadcastTransactionResponse K)

  -- The server once a caller has left that waited for its place.
  abbrev pub unplaced : List (BroadcastJob K) → Server K app → Server K app
  unplaced sending w = record w {
    store = record w.store { service = record w.store.service { sending = sending } };
  }

  -- A step of the server, or a caller that leaves.
  pub data Change (w : Server K app) : Server K app → Type 0 where
    steps : {v : Server K app} → Step K app w v → Change w v
    leaves_channel :
        (before : List (BroadcastJob K)) (job : BroadcastJob K) (after : List (BroadcastJob K))
        → w.store.service.sending ≡ before ++ job ∷ after
        → Change w (unplaced (before ++ after) w)
    leaves_record :
        (before : Pending) (call : BroadcastTransactionRequest K × BroadcastTransactionResponse K)
        (after : Pending)
        → w.pending ≡ before ++ call ∷ after
        → Change w (record w { pending = before ++ after })

  pub data Visit (w : Server K app) : Server K app → Type 0 where
    stays : Visit w w
    goes : {u v : Server K app} → Visit w u → Change u v → Visit w v

  pub Visit-trans : {u v w : Server K app} → Visit u v → Visit v w → Visit u w
  Visit-trans r stays = r
  Visit-trans r (goes r' change) = goes (Visit-trans r r') change

  -- Nobody has to leave.
  pub Run-Visit : {w v : Server K app} → Run K app w v → Visit w v
  Run-Visit here = stays
  Run-Visit (next r step) = goes (Run-Visit r) (steps step)

  -- The same server, with these callers waiting.
  abbrev pub with_callers : List (BroadcastJob K) → Pending → Server K app → Server K app
  with_callers sending pending w = record (unplaced sending w) { pending = pending }

  -- A run of the server in which nobody leaves and that differs from the visited one in those who wait.
  pub record Companion (audited : S) (w : Server K app) : Type 0 where
    pub sending : List (BroadcastJob K)
    pub pending : Pending
    pub jobs : Sublistᴰ w.store.service.sending sending
    pub calls : Sublistᴰ w.pending pending
    pub run : Run K app (begin K app audited) (with_callers sending pending w)

  -- A call that is no broadcast does not see who waits.
  handle-with_callers :
      (draws : Draws K) (call : Call K) (sending : List (BroadcastJob K)) (s : Store K S)
      → ¬ IsBroadcast K call
      → handle K app draws call (record s { service = record s.service { sending = sending } }) ≡ (
        (handle K app draws call s).0,
        record (handle K app draws call s).1 {
          service = record (handle K app draws call s).1.service { sending = sending };
        },
      )
  unfolding handle sign_intent_handler simulate_transaction_handler get_status
      list_audit_events_handler
  handle-with_callers draws (Call.broadcast_transaction req) sending s h = absurd (h tt)
  handle-with_callers draws (Call.sign_intent req) sending s h = ground arith
  handle-with_callers draws call sending s h = refl

  begin-Companion : (audited : S) → Companion audited (begin K app audited)
  begin-Companion audited = record {
    sending = [];
    pending = [];
    jobs = Sublistᴰ.slnil;
    calls = Sublistᴰ.slnil;
    run = here;
  }

  Step-Companion :
      {audited : S} {w v : Server K app}
      → Companion audited w
      → Step K app w v
      → Companion audited v
  unfolding register place receive finish round run_spawned
  Step-Companion {audited} {w} c (calls draws call other) = record {
    sending = c.sending;
    pending = c.pending;
    jobs =
        subst (λ (s : Service K). Sublistᴰ s.sending c.sending)
          (sym (handle-service K app draws call w.store other)) c.jobs;
    calls = c.calls;
    run =
        subst
          (λ r.
            Run K app (begin K app audited) (record {
              store = r.1;
              pending = c.pending;
              history = remember K call r.0 w.history;
            }))
          (handle-with_callers draws call c.sending w.store other)
          (next c.run (calls draws call other));
  }
  Step-Companion c (registers id now request fresh) = record {
    sending = record { broadcast_id = id; request = request } ∷ c.sending;
    pending = c.pending;
    jobs = Sublistᴰ.cons-cons refl c.jobs;
    calls = c.calls;
    run = next c.run (registers id now request fresh);
  }
  Step-Companion c (places before job after status split room found) =
      let (b, a, e, s) = sublist-split before job after split c.jobs in
      record {
        sending = b ++ a;
        pending = c.pending ++ (job.request, queued_answer K status) ∷ [];
        jobs = s;
        calls = sublist-snoc (job.request, queued_answer K status) c.calls;
        run = next c.run (places b job a status e room found);
      }
  Step-Companion c (records before request response after id now split) =
      let (b, a, e, s) = sublist-split before (request, response) after split c.calls in
      record {
        sending = c.sending;
        pending = b ++ a;
        jobs = c.jobs;
        calls = s;
        run = next c.run (records b request response a id now e);
      }
  Step-Companion c (receives job rest idle first) = record {
    sending = c.sending;
    pending = c.pending;
    jobs = c.jobs;
    calls = c.calls;
    run = next c.run (receives job rest idle first);
  }
  Step-Companion c (finishes id event_now now answer job busy) = record {
    sending = c.sending;
    pending = c.pending;
    jobs = c.jobs;
    calls = c.calls;
    run = next c.run (finishes id event_now now answer job busy);
  }
  Step-Companion c (runs before event after id now split) = record {
    sending = c.sending;
    pending = c.pending;
    jobs = c.jobs;
    calls = c.calls;
    run = next c.run (runs before event after id now split);
  }

  -- The server with callers that leave only does what it does without: whatever state it comes to, a run
  -- in which nobody leaves comes to one that differs in those who wait, and there the callers who have
  -- left still wait for their place or for their record.
  pub Visit-Companion :
      {audited : S} {w : Server K app} → Visit (begin K app audited) w → Companion audited w
  Visit-Companion {audited} stays = begin-Companion audited
  Visit-Companion (goes r (steps step)) = Step-Companion (Visit-Companion r) step
  Visit-Companion (goes r (leaves_channel before job after split)) =
      let c = Visit-Companion r in
      record {
        sending = c.sending;
        pending = c.pending;
        jobs = sublist-without before job after split c.jobs;
        calls = c.calls;
        run = c.run;
      }
  Visit-Companion (goes r (leaves_record before call after split)) =
      let c = Visit-Companion r in
      record {
        sending = c.sending;
        pending = c.pending;
        jobs = c.jobs;
        calls = sublist-without before call after split c.calls;
        run = c.run;
      }
