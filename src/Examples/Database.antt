-- ===== src/Examples/Database.antt =====
-- The Postgres repository over a small database: a table for two rows, ordered by time on a select.
use mathlib.Core.List.{Perm}
use mathlib.Core.List.Perm
use ai_wallet.Prelude.{
  ℕ, ◌≤◌, ◌≡◌, refl, List, [], ◌∷◌, take, String, Result, ok, err, arith, ℤ, pos, negsuc, leb,
  leb→le, Bool-cases, false, inl, inr, if◌then◌else◌, map,
}
use ai_wallet.Model.{AuditEvent}
use ai_wallet.Audit.{to_event, Postgres, postgres_record, postgres_list, decode_rows}
use ai_wallet.Audit.Stored.{IsNewestFirst, SqlLaws, record_each, postgres_list-record_each}
use ai_wallet.Examples.Sample.{sample}
use ai_wallet.Examples.Journals.{event, calls}

abbrev seconds : ℤ → ℕ
seconds (pos n) = n
seconds (negsuc n) = 0

abbrev Earlier : ℤ → ℤ → Type 0
Earlier a b = seconds a ≤ seconds b

-- `order by created_at desc`, by insertion.
insert_newest : AuditEvent sample → List (AuditEvent sample) → List (AuditEvent sample)
insert_newest x [] = x ∷ []
insert_newest x (y ∷ ys) =
    let rest = insert_newest x ys in
    if leb (seconds y.created_at) (seconds x.created_at) then x ∷ y ∷ ys else y ∷ rest

newest_first : List (AuditEvent sample) → List (AuditEvent sample)
newest_first [] = []
newest_first (x ∷ xs) = insert_newest x (newest_first xs)

insert_newest-Perm :
    (x : AuditEvent sample) (xs : List (AuditEvent sample)) → Perm (insert_newest x xs) (x ∷ xs)
unfolding insert_newest
insert_newest-Perm x [] = Perm.refl _
insert_newest-Perm x (y ∷ ys) =
    elim (Bool-cases (leb (seconds y.created_at) (seconds x.created_at))) [
      | inl before ↦ rw before (Perm.refl _)
      | inr after ↦ rw after (Perm.trans (Perm.cons y (insert_newest-Perm x ys)) (Perm.swap _ _ _))
    ]

newest_first-Perm : (xs : List (AuditEvent sample)) → Perm (newest_first xs) xs
unfolding newest_first
newest_first-Perm [] = Perm.refl _
newest_first-Perm (x ∷ xs) =
    Perm.trans (insert_newest-Perm x (newest_first xs)) (Perm.cons x (newest_first-Perm xs))

leb-false : (a b : ℕ) → leb a b ≡ false → b ≤ a
leb-false a b h = ground arith

-- A head that is no Earlier stays in front.
insert_newest-IsNewestFirst :
    (x : AuditEvent sample) (xs : List (AuditEvent sample))
    → IsNewestFirst sample Earlier xs
    → IsNewestFirst sample Earlier (insert_newest x xs)
unfolding insert_newest
insert_newest-IsNewestFirst x [] h = tt
insert_newest-IsNewestFirst x (y ∷ []) h =
    elim (Bool-cases (leb (seconds y.created_at) (seconds x.created_at))) [
      | inl before ↦ rw before (leb→le _ _ before, tt)
      | inr after ↦ rw after (leb-false _ _ after, tt)
    ]
insert_newest-IsNewestFirst x (y ∷ z ∷ zs) h =
    let below = insert_newest-IsNewestFirst x (z ∷ zs) h.1 in
    elim (Bool-cases (leb (seconds y.created_at) (seconds x.created_at))) [
      | inl before ↦ rw before (leb→le _ _ before, h)
      | inr after ↦ elim (Bool-cases (leb (seconds z.created_at) (seconds x.created_at))) [
        | inl before' ↦ rw (after, before') (leb-false _ _ after, rw before' at below)
        | inr after' ↦ rw (after, after') (h.0, rw after' at below)
      ]
    ]

newest_first-IsNewestFirst :
    (xs : List (AuditEvent sample)) → IsNewestFirst sample Earlier (newest_first xs)
unfolding newest_first
newest_first-IsNewestFirst [] = tt
newest_first-IsNewestFirst (x ∷ xs) =
    insert_newest-IsNewestFirst x (newest_first xs) (newest_first-IsNewestFirst xs)

-- An insert fails where two rows are there.
abbrev store :
    AuditEvent sample
    → List (AuditEvent sample)
    → Result (Unit {0}) String × List (AuditEvent sample)
store row [] = (ok tt, row ∷ [])
store row (x ∷ []) = (ok tt, row ∷ x ∷ [])
store row (x ∷ y ∷ rows) = (err "disk full", x ∷ y ∷ rows)

abbrev select : ℤ → List (AuditEvent sample) → Result (List (AuditEvent sample)) String
select (pos n) rows = ok (take n (newest_first rows))
select (negsuc n) rows = err "LIMIT must not be negative"

abbrev database : Postgres sample
database = record {
  Pool = List (AuditEvent sample);
  Row = AuditEvent sample;
  connect_pool = λ url. ok [];
  create_table = λ pool. (ok tt, pool);
  insert = store;
  select_newest = select;
  try_get = λ row. ok row;
}

stored :
    (row : AuditEvent sample) (rows : List (AuditEvent sample))
    → (store row rows).0 ≡ ok tt
    → (store row rows).1 ≡ row ∷ rows
stored row [] h = refl
stored row (x ∷ []) h = refl
stored row (x ∷ y ∷ rows) h = absurd (cc h)

not_stored :
    (row : AuditEvent sample) (rows : List (AuditEvent sample)) (x : String)
    → (store row rows).0 ≡ err x
    → (store row rows).1 ≡ rows
not_stored row [] x h = absurd (cc h)
not_stored row (r ∷ []) x h = absurd (cc h)
not_stored row (r ∷ q ∷ rows) x h = refl

ok-eq :
    (rows found : List (AuditEvent sample))
    → ◌≡◌ {A = Result (List (AuditEvent sample)) String} (ok rows) (ok found)
    → ◌≡◌ {A = List (Result (AuditEvent sample) String)} (map ok found) (map ok rows)
ok-eq rows found h = let same : rows ≡ found = ground arith in rw same refl

abbrev database-SqlLaws : SqlLaws sample database Earlier
database-SqlLaws = record {
  micros = λ now. now;
  table = λ rows. rows;
  inserted = λ row rows h. rw (stored row rows h) (Perm.refl _);
  failed = not_stored;
  selected = λ n rows found h.
      (newest_first rows, newest_first-Perm rows, newest_first-IsNewestFirst rows, ok-eq _ _ h);
}

-- The third call finds the table full.
listed :
    postgres_list sample database 1 (record_each sample database calls [])
    ≡ ok (to_event sample 2 (pos 11) event ∷ [])
unfolding postgres_list postgres_record decode_rows newest_first insert_newest to_event
listed = refl

postgres_list-record_each_example :
    (ordered : List (AuditEvent sample)) × Perm ordered
      (to_event sample 1 (pos 10) event ∷ to_event sample 2 (pos 11) event ∷ [])
    × IsNewestFirst sample Earlier ordered
    × ((to_event sample 2 (pos 11) event ∷ []) ≡ take 1 ordered)
unfolding postgres_record to_event
postgres_list-record_each_example =
    postgres_list-record_each sample database database-SqlLaws calls [] 1
      (to_event sample 2 (pos 11) event ∷ []) (omega arith) listed
