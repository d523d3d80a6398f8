-- ===== src/Broadcast/Ledger.antt =====
-- The invariant of the broadcast service, step by step.
use mathlib.Core.Logic.{ite}
use ai_wallet.Prelude.{
  ℕ, suc, ◌+◌, ◌<◌, ◌≤◌, ◌≡◌, ◌≢◌, refl, String, List, [], ◌∷◌, ◌++◌, Option, none, some, Result,
  arith, length, length-append, Option-cases, ap, sym, ◌∙◌, inl, inr,
}
use ai_wallet.Crates.{Crates}
use ai_wallet.Error.{AppError}
use ai_wallet.Model.{
  BroadcastState, queued, submitted, failed, BroadcastTransactionRequest, BroadcastStatusResponse,
}
use ai_wallet.Broadcast.Table.{get, insert, modify, get-insert, get-modify}
use ai_wallet.Broadcast.{
  BroadcastJob, Service, capacity, queued_status, register, place, receive, settle, finish,
}
use ai_wallet.Broadcast.Steps.{
  World, to_list, start, after_finish, Step, registers, places, receives, finishes,
}

module _ (K : Crates) where
  -- How often an id is among the jobs.
  abbrev pub waiting : K.Uuid → List (BroadcastJob K) → ℕ
  waiting id [] = 0
  waiting id (job ∷ jobs) = ite (K.uuid_eq job.broadcast_id id) 1 0 + waiting id jobs

  -- The jobs of an id that are not finished, wherever they are.
  abbrev pub in_flight : K.Uuid → Service K → ℕ
  in_flight id s = waiting id (to_list s.running) + waiting id s.channel + waiting id s.sending

  abbrev pub open_state : BroadcastState → ℕ
  open_state queued = 1
  open_state submitted = 0
  open_state failed = 0

  abbrev pub open_count : Option (BroadcastStatusResponse K) → ℕ
  open_count none = 0
  open_count (some st) = open_state st.status

  -- Finished statuses.
  abbrev pub settled : List (K.Uuid × BroadcastStatusResponse K) → ℕ
  settled [] = 0
  settled ((id, st) ∷ m) = elim st.status [ queued ↦ 0 | submitted ↦ 1 | failed ↦ 1 ] + settled m

  abbrev pub HasShape : BroadcastState → Option String → Option String → Type 0
  HasShape queued tx_hash error = (tx_hash ≡ none) × (error ≡ none)
  HasShape submitted tx_hash error = (tx_hash ≢ none) × (error ≡ none)
  HasShape failed tx_hash error = (tx_hash ≡ none) × (error ≢ none)

  abbrev pub ShapeAt : Option (BroadcastStatusResponse K) → Type 0
  ShapeAt none = Unit
  ShapeAt (some st) = HasShape st.status st.tx_hash st.error

  -- An id has one unfinished job while its status is queued, and none otherwise; a status has a hash
  -- exactly when it is submitted and an error exactly when it is failed; the channel keeps to its
  -- capacity; and the worker has handed over one event for each finished status.
  pub record Inv (w : World K) : Type 0 where
    pub tracked : (id : K.Uuid) → in_flight id w.service ≡ open_count (get K id w.service.statuses)
    pub shaped : (id : K.Uuid) → ShapeAt (get K id w.service.statuses)
    pub bounded : length w.service.channel ≤ capacity
    pub audited : length w.handed ≡ settled w.service.statuses

  pub waiting-append :
      (id : K.Uuid) (xs ys : List (BroadcastJob K))
      → waiting id (xs ++ ys) ≡ waiting id xs + waiting id ys
  waiting-append id [] ys = omega arith
  waiting-append id (x ∷ xs) ys = omega (arith, waiting-append id xs ys)

  settled-insert :
      (id : K.Uuid) (st : BroadcastStatusResponse K) (m : List (K.Uuid × BroadcastStatusResponse K))
      → get K id m ≡ none
      → st.status ≡ queued
      → settled (insert K id st m) ≡ settled m
  unfolding insert get
  settled-insert id st [] h q = ground arith
  settled-insert id st ((j, v) ∷ m) h q = ground (arith, settled-insert id st m)

  settled-modify :
      (id : K.Uuid) (now : K.DateTime) (outcome : Result String AppError)
      (m : List (K.Uuid × BroadcastStatusResponse K)) (st : BroadcastStatusResponse K)
      → get K id m ≡ some st
      → st.status ≡ queued
      → settled (modify K id (settle K now outcome) m) ≡ suc (settled m)
  unfolding modify get settle
  settled-modify id now outcome [] st h q = ground arith
  settled-modify id now outcome ((j, v) ∷ m) st h q =
      ground (arith, settled-modify id now outcome m st)

  pub start-Inv : Inv (start K)
  unfolding get
  start-Inv = record {
    tracked = λ id. refl;
    shaped = λ id. tt;
    bounded = omega arith;
    audited = refl;
  }

  register-Inv :
      (w : World K) (id : K.Uuid) (now : K.DateTime) (request : BroadcastTransactionRequest K)
      → Inv w
      → get K id w.service.statuses ≡ none
      → Inv (record w { service = register K id now request w.service })
  unfolding register
  register-Inv w id now request inv fresh = record {
    tracked = λ j. ground (
      arith,
      inv.tracked j,
      get-insert K id j (queued_status K id now request) w.service.statuses,
    );
    shaped = λ j. ground (
      arith,
      inv.shaped j,
      get-insert K id j (queued_status K id now request) w.service.statuses,
    );
    bounded = inv.bounded;
    audited =
        inv.audited
        ∙ sym (settled-insert id (queued_status K id now request) w.service.statuses fresh refl);
  }

  place-Inv :
      (w : World K) (before : List (BroadcastJob K)) (job : BroadcastJob K)
      (after : List (BroadcastJob K))
      → Inv w
      → w.service.sending ≡ before ++ job ∷ after
      → length w.service.channel < capacity
      → Inv (record w { service = place K before job after w.service })
  unfolding place
  place-Inv w before job after inv split room = record {
    tracked = λ j. omega (
      arith,
      inv.tracked j,
      ap (waiting j) split,
      waiting-append j before (job ∷ after),
      waiting-append j before after,
      waiting-append j w.service.channel (job ∷ []),
    );
    shaped = inv.shaped;
    bounded = omega (arith, length-append w.service.channel (job ∷ []));
    audited = inv.audited;
  }

  receive-Inv :
      (w : World K) (job : BroadcastJob K) (rest : List (BroadcastJob K))
      → Inv w
      → w.service.running ≡ none
      → w.service.channel ≡ job ∷ rest
      → Inv (record w { service = receive K job rest w.service })
  unfolding receive
  receive-Inv w job rest inv idle first = record {
    tracked = λ j. ground (arith, inv.tracked j);
    shaped = inv.shaped;
    bounded = ground (arith, inv.bounded);
    audited = inv.audited;
  }

  pub open_state-pos : (s : BroadcastState) → 0 < open_state s → s ≡ queued
  open_state-pos queued h = refl
  open_state-pos submitted h = absurd (omega arith)
  open_state-pos failed h = absurd (omega arith)

  -- The job that the worker holds has a queued status.
  pub running-queued :
      (w : World K) (job : BroadcastJob K)
      → Inv w
      → w.service.running ≡ some job
      → (st : BroadcastStatusResponse K) × (get K job.broadcast_id w.service.statuses ≡ some st)
        × (st.status ≡ queued)
  running-queued w job inv busy = elim (Option-cases (get K job.broadcast_id w.service.statuses)) [
    | inl missing ↦ absurd (ground (arith, inv.tracked job.broadcast_id))
    | inr (st, found) ↦
        (st, found, open_state-pos st.status (ground (arith, inv.tracked job.broadcast_id)))
  ]

  finish-Inv :
      (w : World K) (now : K.DateTime) (outcome : Result String AppError) (job : BroadcastJob K)
      → Inv w
      → w.service.running ≡ some job
      → Inv (after_finish K now outcome job w)
  unfolding finish
  finish-Inv w now outcome job inv busy =
      let (st, found, unsettled) = running-queued w job inv busy in
      let table = w.service.statuses in
      record {
        tracked = λ j. ground (
          arith,
          inv.tracked j,
          unsettled,
          found,
          get-modify K job.broadcast_id j (settle K now outcome) table,
        );
        shaped = λ j. ground (
          arith,
          inv.shaped j,
          unsettled,
          found,
          get-modify K job.broadcast_id j (settle K now outcome) table,
        );
        bounded = inv.bounded;
        audited = ground (
          arith,
          found,
          inv.audited,
          settled-modify job.broadcast_id now outcome table st found unsettled,
        );
      }

  -- Every step keeps the invariant.
  pub Step-Inv : {w v : World K} → Step K w v → Inv w → Inv v
  Step-Inv {w} (registers id now request fresh) inv = register-Inv w id now request inv fresh
  Step-Inv {w} (places before job after split room) inv =
      place-Inv w before job after inv split room
  Step-Inv {w} (receives job rest idle first) inv = receive-Inv w job rest inv idle first
  Step-Inv {w} (finishes now outcome job busy) inv = finish-Inv w now outcome job inv busy
