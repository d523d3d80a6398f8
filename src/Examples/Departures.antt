-- ===== src/Examples/Departures.antt =====
-- Callers that leave the broadcast endpoint, at concrete runs.
use mathlib.Core.List.{Perm, Subperm}
use ai_wallet.Prelude.{ℕ, ◌<◌, ◌≢◌, ◌≡◌, refl, [], ◌∷◌, ◌++◌, map, ok, pos, reverse, as_bytes, trim}
use ai_wallet.Number.{parse_u128}
use ai_wallet.Audit.{to_event}
use ai_wallet.Audit.Journal.{memory-IsReliable}
use ai_wallet.Model.{approved, BroadcastStatusResponse}
use ai_wallet.Model
use ai_wallet.Policy.{evaluate, check_payload, classify}
use ai_wallet.Signer.{local_sign, wallet, sign_payload}
use ai_wallet.Intent.{handle_sign_intent, artifact_for}
use ai_wallet.Broadcast.Table.{get}
use ai_wallet.Broadcast.{register, get_status}
use ai_wallet.Broadcast.Ledger.{in_flight}
use ai_wallet.Api.{handle, sign_intent_handler, run_spawned}
use ai_wallet.System.{Server, begin, calls, registers, queued_answer, remember, Run, next}
use ai_wallet.System.Owed.{input_of, trail}
use ai_wallet.System.Departures.{Visit, steps, leaves_record, stays, goes, unplaced, Run-Visit}
use ai_wallet.System.Sound.{IsSound, Visit-IsSound}
use ai_wallet.System.Settles.{Answered, IsIdle, can_settle}
use ai_wallet.Examples.Submissions.{answer}
use ai_wallet.System.Departed.{unplaced-queued, Visit-trail, Visit-Subperm}
use ai_wallet.Examples.Sample.{sample}
use ai_wallet.Examples.Broadcasts.{tx, job, waiting}
use ai_wallet.Examples.Failures as Failures
use ai_wallet.Examples.Servers.{app, draws, intent, to_signed, registered, queued, to_queued}

-- The caller leaves before the record.
abbrev unrecorded : Server sample app
unrecorded = record queued { pending = [] }

to_registered : Run sample app (begin sample app []) registered
unfolding get handle sign_intent_handler handle_sign_intent evaluate parse_u128 trim check_payload
    classify artifact_for local_sign wallet sign_payload as_bytes
to_registered = next to_signed (registers 7 (pos 10) tx refl)

one_waits : registered.store.service.sending ≡ job ∷ []
unfolding register handle sign_intent_handler handle_sign_intent evaluate parse_u128 trim
    check_payload classify artifact_for local_sign wallet sign_payload as_bytes
one_waits = refl

to_unrecorded : Visit sample app (begin sample app []) unrecorded
to_unrecorded =
    goes (Run-Visit sample app to_queued)
      (leaves_record [] (tx, queued_answer sample waiting) [] refl)

Visit-IsSound_example : IsSound sample app unrecorded
Visit-IsSound_example = Visit-IsSound sample app to_unrecorded

Visit-trail_example :
    Perm
      (map (input_of sample) (reverse unrecorded.store.audited) ++ unrecorded.store.spawned)
      (trail sample unrecorded.history)
Visit-trail_example = Visit-trail sample app reverse (memory-IsReliable sample) refl to_unrecorded

Visit-Subperm_example : Subperm (Failures.event ∷ []) (Failures.event ∷ Failures.event ∷ [])
unfolding handle sign_intent_handler handle_sign_intent evaluate parse_u128 trim check_payload
    classify artifact_for local_sign wallet sign_payload as_bytes run_spawned to_event
Visit-Subperm_example =
    Visit-Subperm sample Failures.app (λ events. events) Failures.small-Keeps refl
      (Run-Visit sample Failures.app Failures.to_one_lost)

-- The caller leaves before its job has a place, and an intent is signed.
abbrev lost : Server sample app
lost = unplaced sample app [] registered

abbrev later : Server sample app
later = record lost {
  store = (handle sample app draws intent lost.store).1;
  history = remember sample intent (handle sample app draws intent lost.store).0 lost.history;
}

to_later : Visit sample app lost later
to_later = goes stays (steps (calls draws intent (λ b. b)))

unplaced-queued_example :
    (st : BroadcastStatusResponse sample) × (get_status sample 7 later.store.service ≡ ok st)
    × (st.status ≡ Model.queued)
    × (in_flight sample 7 later.store.service ≡ 0)
unplaced-queued_example =
    unplaced-queued sample app [] job [] (Run-Visit sample app to_registered) one_waits to_later

can_settle_example :
    (v : Server sample app) × (r : Run sample app unrecorded v) × Answered sample app answer r
    × IsIdle sample v.store.service
    × ((b : ℕ)
        → 0 < in_flight sample b unrecorded.store.service
        → (st : BroadcastStatusResponse sample) × (get_status sample b v.store.service ≡ ok st)
          × (st.status ≢ Model.queued))
can_settle_example = can_settle sample app answer 12 (pos 13) (pos 12) to_unrecorded
