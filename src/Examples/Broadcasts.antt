-- ===== src/Examples/Broadcasts.antt =====
-- The broadcast service at concrete inputs.
use native.Mathlib.Decide.{ℕ_discrete}
use ai_wallet.Prelude.{◌≡◌, refl, arith, [], ◌∷◌, none, some, ok, err, pos}
use ai_wallet.Error.{internal}
use ai_wallet.Audit.{AuditRepository}
use ai_wallet.Auth.{ApiAuth}
use ai_wallet.Model.{BroadcastTransactionRequest, BroadcastStatusResponse}
use ai_wallet.Broadcast.Table.{get, insert}
use ai_wallet.Broadcast.{BroadcastJob, new, register, place, receive, queued_status, get_status}
use ai_wallet.Broadcast.Steps.{
  World, start, after_finish, registers, places, receives, finishes, Reach, here, next,
}
use ai_wallet.Broadcast.Reached.{Reach-Inv, Evolves, Reach-Later}
use ai_wallet.Api.Types.{AppState, Store, Draws}
use ai_wallet.Api.{broadcast_transaction_handler}
use ai_wallet.Api.Broadcasts.{broadcast_error-queued}
use ai_wallet.Signer.{mock_signer}
use ai_wallet.Simulator.{static_simulator}
use ai_wallet.Examples.Sample.{sample}

abbrev pub tx : BroadcastTransactionRequest sample
tx = record { request_id = some 3; chain_id = 1; raw_transaction_hex = "0xf8" }

abbrev pub job : BroadcastJob sample
job = record { broadcast_id = 7; request = tx }

abbrev registered : World sample
registered = record (start sample) { service = register sample 7 (pos 10) tx (new sample) }

abbrev placed : World sample
placed = record registered { service = place sample [] job [] registered.service }

abbrev received : World sample
received = record placed { service = receive sample job [] placed.service }

abbrev finished : World sample
finished = after_finish sample (pos 12) (ok "0xhash") job received

to_placed : Reach sample (start sample) placed
unfolding register get insert place
to_placed = next (next here (registers 7 (pos 10) tx refl)) (places [] job [] refl (omega arith))

to_received : Reach sample (start sample) received
unfolding register get insert place receive ℕ_discrete
to_received = next to_placed (receives job [] refl refl)

received-finished : Reach sample received finished
unfolding register get insert place receive ℕ_discrete
received-finished = next here (finishes (pos 12) (ok "0xhash") job refl)

abbrev pub waiting : BroadcastStatusResponse sample
waiting = queued_status sample 7 (pos 10) tx

waits : get sample 7 received.service.statuses ≡ some waiting
unfolding register get insert place receive ℕ_discrete
waits = refl

Reach-Later_example :
    (status : BroadcastStatusResponse sample) × (get sample 7 finished.service.statuses
      ≡ some status)
    × Evolves sample waiting status
Reach-Later_example =
    Reach-Later sample 7 waiting (Reach-Inv sample to_received) received-finished waits

-- A repository that takes nothing.
abbrev broken : AuditRepository sample (Unit {0})
broken = record {
  record_event = λ id now event s. (err (internal "disk full"), s);
  list = λ limit s. err (internal "disk full");
  backend_name = "broken";
}

abbrev app : AppState sample (Unit {0})
app = record {
  api_auth = ApiAuth.disabled;
  signer = mock_signer sample;
  simulator = static_simulator sample (record { rpc_url = none });
  audit = broken;
  broadcast_rpc_url = none;
}

abbrev store : Store sample (Unit {0})
store = record { audited = tt; service = new sample; spawned = [] }

abbrev draws : Draws sample
draws = record { id = 7; now = pos 10; event_id = 2; event_now = pos 11; sent = ok tt }

broadcast_error-queued_example :
    ((broadcast_transaction_handler sample app draws tx store).0 ≡ err (internal "disk full"))
    × ((broadcast_transaction_handler sample app draws tx store).1.service.channel ≡ job ∷ [])
    × (get_status sample 7 (broadcast_transaction_handler sample app draws tx store).1.service
        ≡ ok (queued_status sample 7 (pos 10) tx))
broadcast_error-queued_example =
    broadcast_error-queued sample app draws tx store (internal "disk full") refl (λ event. refl)
