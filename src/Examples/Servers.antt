-- ===== src/Examples/Servers.antt =====
-- The running server at concrete inputs.
use native.Mathlib.Decide.{ℕ_discrete}
use ai_wallet.Prelude.{◌≡◌, refl, arith, [], ◌∷◌, none, some, ok, pos, ℤ, as_bytes, trim}
use ai_wallet.Number.{parse_u128}
use ai_wallet.Crates.Laws.{Base64Laws}
use ai_wallet.Audit.{Memory, memory_repository}
use ai_wallet.Auth.{ApiAuth}
use ai_wallet.Auth.Canonical.{canonical-injective}
use ai_wallet.Policy.{evaluate, check_payload, classify}
use ai_wallet.Signer.{local_sign, wallet, sign_payload, local_dev_signer}
use ai_wallet.Simulator.{static_simulator}
use ai_wallet.Intent.{handle_sign_intent, artifact_for}
use ai_wallet.Broadcast.Table.{get, insert}
use ai_wallet.Broadcast.{register, place}
use ai_wallet.Api.Types.{Call, Reply, Draws, AppState}
use ai_wallet.Api.{handle, sign_intent_handler}
use ai_wallet.System.{
  Happened, Server, begin, remember, placed, queued_answer, registers, places, records, calls, Run,
  here, next,
}
use ai_wallet.Examples.Hex.{encode-injective}
use ai_wallet.Examples.Sample.{sample}
use ai_wallet.Examples.Broadcasts.{tx, job, waiting}
use ai_wallet.Examples.Signing.{request, hello, dev, response}

abbrev pub app : AppState sample (Memory sample)
app = record {
  api_auth = ApiAuth.disabled;
  signer = local_dev_signer sample dev;
  simulator = static_simulator sample (record { rpc_url = none });
  audit = memory_repository sample;
  broadcast_rpc_url = some "http://rpc";
}

abbrev pub draws : Draws sample
draws = record { id = 9; now = pos 1700; event_id = 10; event_now = pos 1701; sent = ok tt }

abbrev pub intent : Call sample
intent = Call.sign_intent (request hello)

abbrev pub signed : Server sample app
signed = record {
  store = (handle sample app draws intent (begin sample app []).store).1;
  pending = [];
  history =
      remember sample intent (handle sample app draws intent (begin sample app []).store).0 [];
}

pub to_signed : Run sample app (begin sample app []) signed
to_signed = next here (calls draws intent (λ b. b))

-- A broadcast is registered.
abbrev pub registered : Server sample app
registered = record signed {
  store = record signed.store { service = register sample 7 (pos 10) tx signed.store.service };
}

-- A broadcast gets its place, and then its record.
abbrev pub queued : Server sample app
queued = record registered {
  store = record registered.store { service = place sample [] job [] registered.store.service };
  pending = (tx, queued_answer sample waiting) ∷ [];
}

abbrev recorded : Server sample app
recorded = record {
  store = record queued.store {
    audited =
        (placed sample app 11 (pos 1702) tx (queued_answer sample waiting) queued.store.audited).1;
  };
  pending = [];
  history =
      remember sample (Call.broadcast_transaction tx)
        (placed sample app 11 (pos 1702) tx (queued_answer sample waiting) queued.store.audited).0
        queued.history;
}

pub to_queued : Run sample app (begin sample app []) queued
unfolding register get insert place handle sign_intent_handler handle_sign_intent evaluate
    parse_u128 trim check_payload classify artifact_for local_sign wallet sign_payload as_bytes
    ℕ_discrete
to_queued =
    next (next to_signed (registers 7 (pos 10) tx refl))
      (places [] job [] waiting refl (omega arith) refl)

to_recorded : Run sample app (begin sample app []) recorded
to_recorded = next to_queued (records [] tx (queued_answer sample waiting) [] 11 (pos 1702) refl)

pub answered_hello : signed.history ≡ Happened.answered intent (Reply.signed response) ∷ []
unfolding handle sign_intent_handler handle_sign_intent evaluate parse_u128 trim check_payload
    classify artifact_for local_sign wallet sign_payload as_bytes
answered_hello = refl

sample_base64 : Base64Laws sample
sample_base64 = record { encode_injective = λ a b ha hb e. encode-injective a b ha hb e }

canonical-injective_example : ◌≡◌ {A = ℤ} (pos 5) (pos 5)
canonical-injective_example =
    (canonical-injective sample sample_base64 (pos 5) (pos 5) "GET" "GET" "/v1/audit-events"
      "/v1/audit-events" [] [] (omega arith) (omega arith) (omega arith) (omega arith) (omega arith)
      (omega arith) tt tt refl).0
