-- ===== src/Audit/Stored.antt =====
-- What the Postgres repository of src/audit.rs keeps, from what its SQL statements say.
use mathlib.Core.List.{Perm, perm_middle}
use mathlib.Core.List.Perm
use ai_wallet.Prelude.{
  ℕ, ◌<◌, ◌≡◌, refl, ap, List, [], ◌∷◌, ◌++◌, map, take, String, Result, Result-cases, ok, err, inl,
  inr, arith, pos,
}
use ai_wallet.Crates.{Crates}
use ai_wallet.Number.{i64_bound}
use ai_wallet.Error.{AppError}
use ai_wallet.Model.{AuditEvent, AuditEventInput}
use ai_wallet.Audit.{as_i64, to_event, Postgres, postgres_record, postgres_list, decode_rows}

as_i64-pos : (n : ℕ) → n < i64_bound → as_i64 n ≡ pos n
as_i64-pos n small = ground arith

module _ (K : Crates) where
  -- No event of the list is earlier than the next one.
  abbrev pub IsNewestFirst : (K.DateTime → K.DateTime → Type 0) → List (AuditEvent K) → Type 0
  IsNewestFirst earlier [] = Unit
  IsNewestFirst earlier (x ∷ []) = Unit
  IsNewestFirst earlier (x ∷ y ∷ ys) =
      earlier y.created_at x.created_at × IsNewestFirst earlier (y ∷ ys)

  -- The table behind a pool, up to the order of its rows. A successful `insert into` adds its row and
  -- a failed one adds none; `order by created_at desc limit $1` answers the first rows of an order of
  -- the table, and a row is read as it was written, but for its time, of which `timestamptz` keeps the
  -- microseconds.
  pub record SqlLaws (P : Postgres K) (earlier : K.DateTime → K.DateTime → Type 0) : Type 0 where
    pub micros : K.DateTime → K.DateTime
    pub table : P.Pool → List (AuditEvent K)
    pub inserted :
        (event : AuditEvent K) (pool : P.Pool)
        → (P.insert event pool).0 ≡ ok tt
        → Perm
            (table (P.insert event pool).1)
            (record event { created_at = micros event.created_at } ∷ table pool)
    pub failed :
        (event : AuditEvent K) (pool : P.Pool) (x : String)
        → (P.insert event pool).0 ≡ err x
        → table (P.insert event pool).1 ≡ table pool
    pub selected :
        (n : ℕ) (pool : P.Pool) (rows : List P.Row)
        → P.select_newest (pos n) pool ≡ ok rows
        → (ordered : List (AuditEvent K)) × Perm ordered (table pool)
          × IsNewestFirst earlier ordered
          × (map P.try_get rows ≡ map ok (take n ordered))

  module _ (P : Postgres K) where
    open P use {Pool, Row, try_get, select_newest, insert}

    abbrev tail_or : {A : Type 0} → List A → List A → List A
    tail_or d [] = d
    tail_or d (x ∷ xs) = xs

    abbrev head_or : {A : Type 0} → A → List A → A
    head_or d [] = d
    head_or d (x ∷ xs) = x

    decode_rows-map :
        (rows : List Row) (events : List (AuditEvent K))
        → map try_get rows ≡ map ok events
        → decode_rows K P rows ≡ ok events
    unfolding decode_rows
    decode_rows-map [] [] h = refl
    decode_rows-map [] (e ∷ events) h = absurd (cc h)
    decode_rows-map (row ∷ rows) [] h = absurd (cc h)
    decode_rows-map (row ∷ rows) (e ∷ events) h =
        let tail = decode_rows-map rows events (ap (tail_or []) h) in
        let head : try_get row ≡ ok e = ap (head_or (ok e)) h in rw (head, tail) refl

    -- A run of `record` calls.
    abbrev pub record_each : List (K.Uuid × K.DateTime × AuditEventInput K) → Pool → Pool
    record_each [] pool = pool
    record_each ((id, now, event) ∷ calls) pool =
        record_each calls (postgres_record K P id now event pool).1

    -- The event that a call answers, if it answers one.
    abbrev pub answer_of :
        Result (AuditEvent K) AppError → List (AuditEvent K) → List (AuditEvent K)
    answer_of (ok event) events = event ∷ events
    answer_of (err e) events = events

    -- The events that the calls of a run have answered.
    abbrev pub answers : List (K.Uuid × K.DateTime × AuditEventInput K) → Pool → List (AuditEvent K)
    answers [] pool = []
    answers ((id, now, event) ∷ calls) pool =
        answer_of (postgres_record K P id now event pool).0
          (answers calls (postgres_record K P id now event pool).1)

    module _ {earlier : K.DateTime → K.DateTime → Type 0} (sql : SqlLaws P earlier) where
      -- An event as a row keeps it.
      abbrev pub stored : AuditEvent K → AuditEvent K
      stored event = record event { created_at = sql.micros event.created_at }

      record-table :
          (id : K.Uuid) (now : K.DateTime) (event : AuditEventInput K) (pool : Pool)
          (events : List (AuditEvent K))
          → Perm (map stored events ++ sql.table (postgres_record K P id now event pool).1) (
              map stored (answer_of (postgres_record K P id now event pool).0 events)
              ++ sql.table pool)
      unfolding postgres_record
      record-table id now event pool events =
          elim (Result-cases (insert (to_event K id now event) pool).0) [
            | inl (u, done) ↦ rw done (
                Perm.trans
                  (Perm.append_left (map stored events)
                    (sql.inserted (to_event K id now event) pool done))
                  (perm_middle (map stored events) (sql.table pool)))
            | inr (x, bad) ↦ rw (bad, sql.failed (to_event K id now event) pool x bad) (Perm.refl _)
          ]

      record_each-table :
          (calls : List (K.Uuid × K.DateTime × AuditEventInput K)) (pool : Pool)
          → Perm
              (sql.table (record_each calls pool))
              (map stored (answers calls pool) ++ sql.table pool)
      record_each-table [] pool = Perm.refl _
      record_each-table ((id, now, event) ∷ calls) pool =
          Perm.trans (record_each-table calls (postgres_record K P id now event pool).1) (
            record-table id now event pool
              (answers calls (postgres_record K P id now event pool).1))

      list-ordered :
          (limit : ℕ) (pool : Pool) (events : List (AuditEvent K))
          → limit < i64_bound
          → postgres_list K P limit pool ≡ ok events
          → (ordered : List (AuditEvent K)) × Perm ordered (sql.table pool)
            × IsNewestFirst earlier ordered
            × (events ≡ take limit ordered)
      unfolding postgres_list
      list-ordered limit pool events small h =
          elim (Result-cases (select_newest (as_i64 limit) pool)) [
            | inr (x, bad) ↦ absurd (ground arith)
            | inl (rows, found) ↦
                let found' = rw (as_i64-pos limit small) at found in
                let (ordered, same, newest, read) = sql.selected limit pool rows found' in
                let decoded = decode_rows-map rows (take limit ordered) read in
                (ordered, same, newest, ground (arith, decoded))
          ]

      -- What Postgres is asked to keep, it keeps: after any `record` calls, some of which may have
      -- failed, `list` answers the newest `limit` of the table's events, the newest first; and the
      -- table has, up to the order of its rows, the events that the calls have answered, each once
      -- and with its time in microseconds, and those that it had before. The SQL statements do what they
      -- say.
      pub postgres_list-record_each :
          (calls : List (K.Uuid × K.DateTime × AuditEventInput K)) (pool : Pool) (limit : ℕ)
          (events : List (AuditEvent K))
          → limit < i64_bound
          → postgres_list K P limit (record_each calls pool) ≡ ok events
          → (ordered : List (AuditEvent K)) × Perm ordered
              (map stored (answers calls pool) ++ sql.table pool)
            × IsNewestFirst earlier ordered
            × (events ≡ take limit ordered)
      postgres_list-record_each calls pool limit events small h =
          let (ordered, same, newest, first) =
            list-ordered limit (record_each calls pool) events small h in
          (ordered, Perm.trans same (record_each-table calls pool), newest, first)
