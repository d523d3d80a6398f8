-- ===== src/Audit.antt =====
-- src/audit.rs: the `AuditRepository` trait and its two implementations. Postgres, behind sqlx, is a
-- parameter: what an insert and a select answer.
pub mod Journal
pub mod Stored
use ai_wallet.Prelude.{
  ℕ, ◌-◌, ◌^◌, String, List, [], ◌∷◌, ◌++◌, Option, none, some, Result, ok, err, map_err, ◌>>=◌,
  ◌>>◌, ◌⧺◌, reverse, take, ℤ, pos, negsuc, ltb, if◌then◌else◌,
}
use ai_wallet.Crates.{Crates}
use ai_wallet.Number.{i64_bound, u64_bound}
use ai_wallet.Error.{AppError, internal}
use ai_wallet.Model.{AuditEvent, AuditEventInput}

-- `limit as i64`.
abbrev pub as_i64 : ℕ → ℤ
as_i64 n = if ltb n i64_bound then pos n else negsuc (u64_bound - n - 1)

module _ (K : Crates) where
  -- The trait, over the state `S` of the repository. A call of `record` gets the id and the time that
  -- it would draw.
  pub record AuditRepository (S : Type 0) : Type 0 where
    pub record_event :
        K.Uuid → K.DateTime → AuditEventInput K → S → Result (AuditEvent K) AppError × S
    pub list : ℕ → S → Result (List (AuditEvent K)) AppError
    pub backend_name : String

  unfoldable pub to_event : K.Uuid → K.DateTime → AuditEventInput K → AuditEvent K
  to_event id now event = record {
    id = id;
    request_id = event.request_id;
    tenant_id = event.tenant_id;
    wallet_id = event.wallet_id;
    actor = event.actor;
    action = event.action;
    status = event.status;
    metadata = event.metadata;
    created_at = now;
  }

  -- `MemoryAuditRepository`: the vector of events, the oldest first.
  abbrev pub Memory : Type 0
  Memory = List (AuditEvent K)

  abbrev pub memory_new : Memory
  memory_new = []

  unfoldable pub memory_record :
      K.Uuid → K.DateTime → AuditEventInput K → Memory → Result (AuditEvent K) AppError × Memory
  memory_record id now event events =
      let event' = to_event id now event in (ok event', events ++ event' ∷ [])

  unfoldable pub memory_list : ℕ → Memory → Result (List (AuditEvent K)) AppError
  memory_list limit events = ok (take limit (reverse events))

  abbrev pub memory_repository : AuditRepository Memory
  memory_repository = record {
    record_event = memory_record;
    list = memory_list;
    backend_name = "memory";
  }

  -- sqlx and the database: connecting, `create table if not exists`, the insert of a row, the newest
  -- rows first, and a row's fields.
  pub record Postgres : Type 1 where
    pub Pool : Type 0
    pub Row : Type 0
    pub connect_pool : String → Result Pool String
    pub create_table : Pool → Result (Unit {0}) String × Pool
    pub insert : AuditEvent K → Pool → Result (Unit {0}) String × Pool
    pub select_newest : ℤ → Pool → Result (List Row) String
    pub try_get : Row → Result (AuditEvent K) String

  module _ (P : Postgres) where
    open P use {connect_pool, create_table, Pool, Row, insert, select_newest, try_get}

    unfoldable pub postgres_connect : String → Result Pool AppError
    postgres_connect url = do
      pool ← map_err (λ e. internal ("failed to connect postgres: " ⧺ e)) (connect_pool url)
      let prepared = create_table pool
      map_err (λ e. internal ("failed to prepare audit schema: " ⧺ e)) prepared.0
      ok prepared.1

    unfoldable pub postgres_record :
        K.Uuid → K.DateTime → AuditEventInput K → Pool → Result (AuditEvent K) AppError × Pool
    postgres_record id now event pool =
        let (r, pool') = insert (to_event id now event) pool in
        (
          (map_err (λ e. internal ("failed to record audit event: " ⧺ e)) r >>= λ _.
              ok (to_event id now event)),
          pool',
        )

    -- `collect` into a `Result`: the first row that cannot be read ends it.
    unfoldable pub decode_rows : List Row → Result (List (AuditEvent K)) String
    decode_rows [] = ok []
    decode_rows (row ∷ rows) = do
      event ← try_get row
      events ← decode_rows rows
      ok (event ∷ events)

    unfoldable pub postgres_list : ℕ → Pool → Result (List (AuditEvent K)) AppError
    postgres_list limit pool = do
      rows ←
          map_err (λ e. internal ("failed to list audit events: " ⧺ e))
            (select_newest (as_i64 limit) pool)
      map_err (λ e. internal ("failed to decode audit events: " ⧺ e)) (decode_rows rows)

    abbrev pub postgres_repository : AuditRepository Pool
    postgres_repository = record {
      record_event = postgres_record;
      list = postgres_list;
      backend_name = "postgres";
    }
