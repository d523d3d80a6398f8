-- ===== src/System/Owed.antt =====
-- What the audit of a running server owes to what has happened, handler by handler.
use mathlib.Core.List.{append_assoc, perm_append_singleton, Perm}
use ai_wallet.Prelude.{
  ◌⊎◌, ◌>>=◌, ◌≡◌, refl, List, [], ◌∷◌, ◌++◌, map, Result, ok, err, Result-cases, inl, inr,
}
use ai_wallet.Crates.{Crates}
use ai_wallet.Error.{AppError}
use ai_wallet.Audit.{to_event}
use ai_wallet.Model.{AuditEvent, AuditEventInput, SignIntentRequest, SimulateTransactionRequest}
use ai_wallet.Intent.{handle_sign_intent, intent_event, simulation_event}
use ai_wallet.Intent.Approval.{handle_sign_intent-event}
use ai_wallet.Intent.Simulation.{simulate_transaction_cases}
use ai_wallet.Transfer
use ai_wallet.Verify
use ai_wallet.Broadcast.{get_status, settled_event}
use ai_wallet.Api.Types.{Call, Reply, Draws, AppState, Store}
use ai_wallet.Api.{
  handle, list_audit_events_handler, sign_intent_handler, simulate_transaction_handler,
  queued_event,
}
use ai_wallet.System.{Happened, IsBroadcast, remember}

module _ (K : Crates) where
  -- What an event was recorded from.
  abbrev pub input_of : AuditEvent K → AuditEventInput K
  input_of event = record {
    request_id = event.request_id;
    tenant_id = event.tenant_id;
    wallet_id = event.wallet_id;
    actor = event.actor;
    action = event.action;
    status = event.status;
    metadata = event.metadata;
  }

  -- The event that the audit owes to what has happened: one for each answered intent, simulation and
  -- broadcast, and one for each status that the worker has settled.
  abbrev pub owed : Happened K → List (AuditEventInput K)
  owed (Happened.answered (Call.sign_intent req) (Reply.signed response)) =
      intent_event K req response ∷ []
  owed (Happened.answered (Call.simulate_transaction req) (Reply.simulated result)) =
      simulation_event K req result ∷ []
  owed (Happened.answered (Call.broadcast_transaction req) (Reply.broadcast response)) =
      queued_event K req response ∷ []
  owed (Happened.settled outcome status) = settled_event K outcome status ∷ []
  owed _ = []

  abbrev pub trail : List (Happened K) → List (AuditEventInput K)
  trail [] = []
  trail (h ∷ history) = owed h ++ trail history

  -- A call that owes nothing.
  pub trail-quiet :
      {A : Type 0} (call : Call K) (f : A → Reply K) (r : Result A AppError)
      (history : List (Happened K))
      → ((a : A) → owed (Happened.answered call (f a)) ≡ [])
      → trail (remember K call (r >>= λ a. ok (f a)) history) ≡ trail history
  trail-quiet call f (ok a) history quiet = rw (quiet a)
  trail-quiet call f (err e) history quiet = refl

  module _ {S : Type 0} (app : AppState K S) (journal : S → List (AuditEvent K)) where
    abbrev pub inputs : S → List (AuditEventInput K)
    inputs audited = map input_of (journal audited)

    -- The recorded events and the spawned tasks that will record theirs.
    abbrev pub on_record : Store K S → List (AuditEventInput K)
    on_record s = inputs s.audited ++ s.spawned

    -- A way to compare the events on record with those that are owed, for this repository: one event
    -- more on both sides and another order on record keep it, and a `record` call either puts its
    -- event at the front of the journal, or fails, leaves the journal alone, and then one event less
    -- on record keeps it too.
    pub record Accounts (Covers : List (AuditEventInput K) → List (AuditEventInput K) → Type 0)
        : Type 0 where
      pub both :
          (event : AuditEventInput K) {xs ys : List (AuditEventInput K)}
          → Covers xs ys
          → Covers (event ∷ xs) (event ∷ ys)
      pub moved :
          {xs xs' ys : List (AuditEventInput K)} → Perm xs xs' → Covers xs' ys → Covers xs ys
      pub records :
          (id : K.Uuid) (now : K.DateTime) (event : AuditEventInput K) (audited : S)
          → (((app.audit.record_event id now event audited).0 ≡ ok (to_event K id now event))
              × (inputs (app.audit.record_event id now event audited).1 ≡ event ∷ inputs audited))
            ⊎ ((e : AppError) × ((app.audit.record_event id now event audited).0 ≡ err e)
                × (inputs (app.audit.record_event id now event audited).1 ≡ inputs audited)
                × ((xs ys : List (AuditEventInput K)) → Covers (event ∷ xs) ys → Covers xs ys))

  module _ {S : Type 0} (app : AppState K S) (journal : S → List (AuditEvent K))
      (Covers : List (AuditEventInput K) → List (AuditEventInput K) → Type 0)
      (rules : Accounts app journal Covers) where
    pub sign-trail :
        (draws : Draws K) (req : SignIntentRequest K) (s : Store K S) (history : List (Happened K))
        → Covers (on_record app journal s) (trail history)
        → Covers (on_record app journal (handle K app draws (Call.sign_intent req) s).1) (
            trail (
              remember K
                (Call.sign_intent req)
                (handle K app draws (Call.sign_intent req) s).0
                history))
    unfolding handle sign_intent_handler
    sign-trail draws req s history h =
        elim (Result-cases (handle_sign_intent K app.signer draws.id draws.now req)) [
          | inr (x, e) ↦ rw (e, sign_intent_handler) h
          | inl ((response, event), e) ↦
              let same =
                handle_sign_intent-event K app.signer draws.id draws.now req response event e in
              rw (e, sign_intent_handler)
                (rw (← append_assoc (inputs app journal s.audited) s.spawned (event ∷ [])) (
                  rules.moved (perm_append_singleton event (on_record app journal s))
                    (rw same (rules.both _ h))))
        ]

    pub simulate-trail :
        (draws : Draws K) (req : SimulateTransactionRequest) (s : Store K S)
        (history : List (Happened K))
        → Covers (on_record app journal s) (trail history)
        → Covers (on_record app journal (handle K app draws (Call.simulate_transaction req) s).1) (
            trail (
              remember K
                (Call.simulate_transaction req)
                (handle K app draws (Call.simulate_transaction req) s).0
                history))
    unfolding handle simulate_transaction_handler
    simulate-trail draws req s history h =
        elim (simulate_transaction_cases K app.audit app.simulator draws.event_id draws.event_now
          req s.audited) [
            | inl (e, same, why) ↦ rw same h
            | inr (result, chain, simulated, inl (event, kept, same)) ↦
                elim (rules.records draws.event_id draws.event_now (simulation_event K req result)
                  s.audited) [
                    | inl (good, put) ↦ rw same (rw put (rules.both _ h))
                    | inr (e, bad, stays, lose) ↦ absurd (cc (kept, bad))
                  ]
            | inr (result, chain, simulated, inr (e, lost, same)) ↦
                elim (rules.records draws.event_id draws.event_now (simulation_event K req result)
                  s.audited) [
                    | inl (good, put) ↦ absurd (cc (lost, good))
                    | inr (e', bad, stays, lose) ↦ rw same (rw stays h)
                  ]
          ]

    pub handle-trail :
        (draws : Draws K) (call : Call K) (s : Store K S) (history : List (Happened K))
        → ¬ IsBroadcast K call
        → Covers (on_record app journal s) (trail history)
        → Covers
            (on_record app journal (handle K app draws call s).1)
            (trail (remember K call (handle K app draws call s).0 history))
    unfolding handle
    handle-trail draws (Call.verify_message req) s history other h =
        rw
          (trail-quiet (Call.verify_message req) Reply.verified (Verify.verify_message K req)
            history (λ a. refl))
          h
    handle-trail draws (Call.verify_typed_data req) s history other h =
        rw
          (trail-quiet (Call.verify_typed_data req) Reply.verified_typed_data
            (Verify.verify_typed_data K req) history (λ a. refl))
          h
    handle-trail draws (Call.prepare_transfer req) s history other h =
        rw
          (trail-quiet (Call.prepare_transfer req) Reply.prepared (Transfer.prepare_transfer K req)
            history (λ a. refl))
          h
    handle-trail draws (Call.broadcast_status id) s history other h =
        rw
          (trail-quiet (Call.broadcast_status id) Reply.status (get_status K id s.service) history
            (λ a. refl))
          h
    handle-trail draws (Call.audit_events query) s history other h =
        rw
          (trail-quiet (Call.audit_events query) Reply.events
            (list_audit_events_handler K app query s) history (λ a. refl))
          h
    handle-trail draws (Call.sign_intent req) s history other h = sign-trail draws req s history h
    handle-trail draws (Call.simulate_transaction req) s history other h =
        simulate-trail draws req s history h
    handle-trail draws (Call.broadcast_transaction req) s history other h = absurd (other tt)
    handle-trail draws Call.healthz s history other h = h
    handle-trail draws Call.info s history other h = h
