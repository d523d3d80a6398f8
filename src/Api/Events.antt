-- ===== src/Api/Events.antt =====
-- The list of audit events.
use ai_wallet.Prelude.{
  ◌≤◌, ◌≡◌, inl, inr, List, Result-cases, ok, arith, take, length, length-take, min, unwrap_or, ap,
  ◌∙◌,
}
use ai_wallet.Crates.{Crates}
use ai_wallet.Audit.Journal.{Keeps}
use ai_wallet.Model.{AuditEvent, ListAuditEventsQuery, ListAuditEventsResponse}
use ai_wallet.Api.Types.{AppState, Store}
use ai_wallet.Api.{list_limit, list_audit_events_handler}

list_limit-le : (query : ListAuditEventsQuery) → list_limit query ≤ 200
unfolding list_limit
list_limit-le query = omega arith

module _ (K : Crates) {S : Type 0} (app : AppState K S) (journal : S → List (AuditEvent K)) where
  -- Over a repository that keeps a journal, the endpoint answers the newest events of the journal,
  -- the newest first: as many as are asked for, 50 if nothing is asked, and never more than 200.
  pub list_audit_events-newest :
      (query : ListAuditEventsQuery) (s : Store K S) (response : ListAuditEventsResponse K)
      → Keeps K app.audit journal
      → list_audit_events_handler K app query s ≡ ok response
      → (response.events ≡ take (min (unwrap_or 50 query.limit) 200) (journal s.audited))
        × (length response.events ≤ 200)
  unfolding list_audit_events_handler list_limit
  list_audit_events-newest query s response keeps h =
      elim (Result-cases (app.audit.list (min (unwrap_or 50 query.limit) 200) s.audited)) [
        | inr (x, e) ↦ absurd (ground arith)
        | inl (found, e) ↦
            let newest = keeps.listed (min (unwrap_or 50 query.limit) 200) s.audited found e in
            let same : response.events ≡ found = ground arith in
            (
              same ∙ newest,
              omega (
                arith,
                ap length (same ∙ newest),
                length-take (min (unwrap_or 50 query.limit) 200) (journal s.audited),
              ),
            )
      ]
