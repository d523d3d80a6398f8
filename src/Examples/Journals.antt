-- ===== src/Examples/Journals.antt =====
-- The audit at concrete inputs.
use ai_wallet.Prelude.{
  ℕ, ◌≤◌, ◌≡◌, refl, List, [], ◌∷◌, none, some, ok, pos, length, take, reverse, ℤ,
}
use ai_wallet.Auth.{ApiAuth}
use ai_wallet.Audit.{Memory, memory_repository, memory_list, to_event}
use ai_wallet.Audit.Journal.{memory-Keeps}
use ai_wallet.Broadcast.{new}
use ai_wallet.Model.{AuditEventInput, ListAuditEventsResponse}
use ai_wallet.Api.Types.{AppState, Store}
use ai_wallet.Api.{list_limit, list_audit_events_handler}
use ai_wallet.Api.Events.{list_audit_events-newest}
use ai_wallet.Signer.{mock_signer}
use ai_wallet.Simulator.{static_simulator}
use ai_wallet.Examples.Sample.{sample, text}

abbrev pub event : AuditEventInput sample
event = record {
  request_id = none;
  tenant_id = some "acme";
  wallet_id = none;
  actor = none;
  action = "sign_intent";
  status = "approved";
  metadata = text "m";
}

abbrev pub calls : List (ℕ × ℤ × AuditEventInput sample)
calls = (1, pos 10, event) ∷ (2, pos 11, event) ∷ (3, pos 12, event) ∷ []

abbrev app : AppState sample (Memory sample)
app = record {
  api_auth = ApiAuth.disabled;
  signer = mock_signer sample;
  simulator = static_simulator sample (record { rpc_url = none });
  audit = memory_repository sample;
  broadcast_rpc_url = none;
}

abbrev store : Store sample (Memory sample)
store = record {
  audited = to_event sample 1 (pos 10) event ∷ to_event sample 2 (pos 11) event ∷ [];
  service = new sample;
  spawned = [];
}

abbrev newest : ListAuditEventsResponse sample
newest = record { events = to_event sample 2 (pos 11) event ∷ [] }

listed : list_audit_events_handler sample app (record { limit = some 1 }) store ≡ ok newest
unfolding list_audit_events_handler list_limit memory_list
listed = refl

list_audit_events-newest_example :
    (newest.events ≡ take 1 (reverse store.audited)) × (length newest.events ≤ 200)
list_audit_events-newest_example =
    list_audit_events-newest sample app reverse (record { limit = some 1 }) store newest
      (memory-Keeps sample) listed
