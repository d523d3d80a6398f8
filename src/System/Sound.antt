-- ===== src/System/Sound.antt =====
-- The broadcast service of a running server whose callers may leave at any time.
use ai_wallet.Prelude.{◌≤◌, ◌≡◌, arith, length}
use ai_wallet.Crates.{Crates}
use ai_wallet.Broadcast.{capacity}
use ai_wallet.Broadcast.Table.{get}
use ai_wallet.Broadcast.Ledger.{in_flight, open_count, ShapeAt, settled}
use ai_wallet.Broadcast.Stranded.{waiting-sublist}
use ai_wallet.Api.Types.{AppState}
use ai_wallet.System.{Server, begin}
use ai_wallet.System.Service.{settled_events, Run-Reach}
use ai_wallet.System.Departures.{Visit, Visit-Companion}

module _ (K : Crates) {S : Type 0} (app : AppState K S) where
  pub record IsSound (w : Server K app) : Type 0 where
    pub tracked :
        (id : K.Uuid)
        → in_flight K id w.store.service ≤ open_count K (get K id w.store.service.statuses)
    pub shaped : (id : K.Uuid) → ShapeAt K (get K id w.store.service.statuses)
    pub bounded : length w.store.service.channel ≤ capacity
    pub settlements : length (settled_events K w.history) ≡ settled K w.store.service.statuses

  -- In every state that the server can reach, callers who leave included, an id has at most one
  -- unfinished job, wherever it waits, and none unless its status is queued; a status has a transaction
  -- hash exactly when it is submitted and an error exactly when it is failed; the channel holds at most
  -- 128 jobs; and as many broadcasts have been settled as statuses are finished.
  pub Visit-IsSound :
      {audited : S} {w : Server K app} → Visit K app (begin K app audited) w → IsSound w
  Visit-IsSound r =
      let c = Visit-Companion K app r in
      let inv = (Run-Reach K app c.run).1 in
      record {
        tracked = λ id. omega (arith, inv.tracked id, waiting-sublist K id c.jobs);
        shaped = inv.shaped;
        bounded = inv.bounded;
        settlements = inv.audited;
      }
