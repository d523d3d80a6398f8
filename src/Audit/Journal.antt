-- ===== src/Audit/Journal.antt =====
-- What a repository promises: a journal, the newest event first.
use mathlib.Core.List.{reverse-append, append-nil, append_assoc}
use ai_wallet.Prelude.{
  ℕ, suc, ◌≡◌, ◌⊎◌, inl, List, [], ◌∷◌, ◌++◌, ok, err, reverse, take, length, refl, length-take,
  length-reverse, min, arith, ap, sym, ◌∙◌,
}
use ai_wallet.Crates.{Crates}
use ai_wallet.Error.{AppError}
use ai_wallet.Model.{AuditEvent, AuditEventInput}
use ai_wallet.Audit.{
  AuditRepository, to_event, Memory, memory_record, memory_list, memory_repository,
}

module _ (K : Crates) where
  -- The journal of a state is its events, the newest first. A successful `record` puts the event at
  -- its front and answers it, a failed one leaves the journal alone, and `list` answers at most the
  -- first `limit` of it.
  pub record Keeps {S : Type 0} (repo : AuditRepository K S) (journal : S → List (AuditEvent K))
      : Type 0 where
    pub recorded :
        (id : K.Uuid) (now : K.DateTime) (event : AuditEventInput K) (s : S)
        → (((repo.record_event id now event s).0 ≡ ok (to_event K id now event))
            × (journal (repo.record_event id now event s).1 ≡ to_event K id now event ∷ journal s))
          ⊎ ((e : AppError) × ((repo.record_event id now event s).0 ≡ err e)
              × (journal (repo.record_event id now event s).1 ≡ journal s))
    pub listed :
        (limit : ℕ) (s : S) (events : List (AuditEvent K))
        → repo.list limit s ≡ ok events
        → events ≡ take limit (journal s)

  reverse-snoc : (xs : Memory K) (x : AuditEvent K) → reverse (xs ++ x ∷ []) ≡ x ∷ reverse xs
  reverse-snoc xs x = reverse-append xs (x ∷ [])

  -- The in-memory repository keeps a journal.
  pub memory-Keeps : Keeps (memory_repository K) reverse
  unfolding memory_record memory_list
  memory-Keeps = record {
    recorded = λ id now event s. inl (refl, reverse-snoc s (to_event K id now event));
    listed = λ limit s events h. ground arith;
  }

  -- A run of `record` calls.
  abbrev pub record_all : List (K.Uuid × K.DateTime × AuditEventInput K) → Memory K → Memory K
  record_all [] s = s
  record_all ((id, now, event) ∷ calls) s = record_all calls (memory_record K id now event s).1

  abbrev pub written : List (K.Uuid × K.DateTime × AuditEventInput K) → List (AuditEvent K)
  written [] = []
  written ((id, now, event) ∷ calls) = to_event K id now event ∷ written calls

  record_all-append :
      (calls : List (K.Uuid × K.DateTime × AuditEventInput K)) (s : Memory K)
      → record_all calls s ≡ s ++ written calls
  unfolding memory_record
  record_all-append [] s = sym (append-nil s)
  record_all-append ((id, now, event) ∷ calls) s =
      record_all-append calls (s ++ to_event K id now event ∷ [])
      ∙ append_assoc s (to_event K id now event ∷ []) (written calls)

  length-written :
      (calls : List (K.Uuid × K.DateTime × AuditEventInput K))
      → length (written calls) ≡ length calls
  length-written [] = refl
  length-written ((id, now, event) ∷ calls) = ap suc (length-written calls)

  -- After any calls of `record` on an empty repository, `list` answers the newest `limit` of the
  -- recorded events, the last call's first: as many as `limit` and the number of calls allow.
  pub memory_list-record_all :
      (calls : List (K.Uuid × K.DateTime × AuditEventInput K)) (limit : ℕ)
      → (memory_list K limit (record_all calls []) ≡ ok (take limit (reverse (written calls))))
        × (length (take limit (reverse (written calls))) ≡ min limit (length calls))
  unfolding memory_list
  memory_list-record_all calls limit = (
    rw (record_all-append calls []),
    omega (
      arith,
      length-take limit (reverse (written calls)),
      length-reverse (written calls),
      length-written calls,
    ),
  )

  -- A repository that keeps a journal and takes every event.
  pub record IsReliable {S : Type 0} (repo : AuditRepository K S)
      (journal : S → List (AuditEvent K)) : Type 0 where
    pub takes :
        (id : K.Uuid) (now : K.DateTime) (event : AuditEventInput K) (s : S)
        → ((repo.record_event id now event s).0 ≡ ok (to_event K id now event))
          × (journal (repo.record_event id now event s).1 ≡ to_event K id now event ∷ journal s)

  pub memory-IsReliable : IsReliable (memory_repository K) reverse
  unfolding memory_record
  memory-IsReliable = record {
    takes = λ id now event s. (refl, reverse-snoc s (to_event K id now event));
  }
