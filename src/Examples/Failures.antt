-- ===== src/Examples/Failures.antt =====
-- A running server whose repository fails, at a concrete run: of two intents one is recorded.
use ai_wallet.Prelude.{
  ℕ, ◌≡◌, ◌⊎◌, refl, [], ◌∷◌, take, Result, ok, err, inl, inr, pos, trim, as_bytes, arith,
}
use ai_wallet.Number.{parse_u128}
use ai_wallet.Error.{AppError, internal}
use ai_wallet.Model.{AuditEvent, AuditEventInput}
use ai_wallet.Audit.{AuditRepository, Memory, to_event}
use ai_wallet.Audit.Journal.{Keeps}
use ai_wallet.Policy.{evaluate, check_payload, classify}
use ai_wallet.Signer.{local_sign, wallet, sign_payload}
use ai_wallet.Intent.{handle_sign_intent, artifact_for, intent_event}
use ai_wallet.Api.Types.{AppState}
use ai_wallet.Api.{handle, sign_intent_handler, run_spawned}
use ai_wallet.System.{Server, begin, remember, calls, runs, Run, here, next}
use ai_wallet.Examples.Sample.{sample}
use ai_wallet.Examples.Signing.{request, hello, response}
use ai_wallet.Examples.Servers.{draws, intent}
use ai_wallet.Examples.Servers as Servers

-- A journal for one event.
abbrev small_record :
    ℕ
    → sample.DateTime
    → AuditEventInput sample
    → Memory sample
    → Result (AuditEvent sample) AppError × Memory sample
small_record id now event [] =
    (ok (to_event sample id now event), to_event sample id now event ∷ [])
small_record id now event (x ∷ xs) = (err (internal "full"), x ∷ xs)

abbrev small : AuditRepository sample (Memory sample)
small = record {
  record_event = small_record;
  list = λ limit events. ok (take limit events);
  backend_name = "small";
}

small_recorded :
    (id : ℕ) (now : sample.DateTime) (event : AuditEventInput sample) (s : Memory sample)
    → (((small_record id now event s).0 ≡ ok (to_event sample id now event))
        × ((small_record id now event s).1 ≡ to_event sample id now event ∷ s))
      ⊎ ((e : AppError) × ((small_record id now event s).0 ≡ err e)
          × ((small_record id now event s).1 ≡ s))
small_recorded id now event [] = inl (refl, refl)
small_recorded id now event (x ∷ xs) = inr (internal "full", refl, refl)

pub small-Keeps : Keeps sample small (λ events. events)
small-Keeps = record { recorded = small_recorded; listed = λ limit s events h. ground arith }

abbrev pub app : AppState sample (Memory sample)
app = record Servers.app { audit = small }

abbrev after_intent : Server sample app → Server sample app
after_intent w = record w {
  store = (handle sample app draws intent w.store).1;
  history = remember sample intent (handle sample app draws intent w.store).0 w.history;
}

abbrev pub event : AuditEventInput sample
event = intent_event sample (request hello) response

abbrev two_signed : Server sample app
two_signed = after_intent (after_intent (begin sample app []))

abbrev one_recorded : Server sample app
one_recorded = record two_signed {
  store = run_spawned sample app [] event (event ∷ []) 11 (pos 1702) two_signed.store;
}

abbrev one_lost : Server sample app
one_lost = record one_recorded {
  store = run_spawned sample app [] event [] 12 (pos 1703) one_recorded.store;
}

pub to_one_lost : Run sample app (begin sample app []) one_lost
unfolding handle sign_intent_handler handle_sign_intent evaluate parse_u128 trim check_payload
    classify artifact_for local_sign wallet sign_payload as_bytes run_spawned
to_one_lost =
    next
      (next (next (next here (calls draws intent (λ b. b))) (calls draws intent (λ b. b)))
        (runs [] event (event ∷ []) 11 (pos 1702) refl))
      (runs [] event [] 12 (pos 1703) refl)
