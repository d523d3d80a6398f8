-- ===== src/Broadcast/Traced.antt =====
-- The submissions behind the statuses of src/broadcast.rs: what was accepted under which id, and what
-- the worker tried.
use mathlib.Core.List.{Memᴰ}
use ai_wallet.Prelude.{
  ◌≡◌, ◌≢◌, refl, String, List, [], ◌∷◌, ◌++◌, Option, none, some, Result, ok, err, arith, All,
  All-append, All-split, All-mem, All-of_mem, All-map, subst,
}
use ai_wallet.Crates.{Crates}
use ai_wallet.Error.{AppError, to_string}
use ai_wallet.Model.{
  queued, submitted, failed, BroadcastTransactionRequest, BroadcastStatusResponse,
}
use ai_wallet.Broadcast.{
  Rpc, BroadcastJob, Service, new, register, queued_status, place, receive, finish, settle,
  submit_transaction,
}
use ai_wallet.Broadcast.Table.{get, modify, get-insert, get-modify}

module _ (K : Crates) where
  -- What the RPC, as it is at the time of a submission, answers to a body at a URL.
  abbrev pub Answer : Type 0
  Answer = Rpc K

  -- A submission by the worker: of which broadcast, and to what RPC.
  pub record Attempt : Type 0 where
    pub id : K.Uuid
    pub request : BroadcastTransactionRequest K
    pub answer : Answer

  -- The calls of `enqueue`: each id with its request.
  abbrev pub Accepted : Type 0
  Accepted = List (K.Uuid × BroadcastTransactionRequest K)

  abbrev pub outcome_of : Option String → Attempt → Result String AppError
  outcome_of rpc_url x = submit_transaction K x.answer rpc_url x.request

  abbrev pub Shows : Result String AppError → BroadcastStatusResponse K → Type 0
  Shows (ok hash) st = (st.status ≡ submitted) × (st.tx_hash ≡ some hash) × (st.error ≡ none)
  Shows (err e) st = (st.status ≡ failed) × (st.tx_hash ≡ none) × (st.error ≡ some (to_string e))

  settle-Shows :
      (now : K.DateTime) (outcome : Result String AppError) (st : BroadcastStatusResponse K)
      → Shows outcome (settle K now outcome st)
  unfolding settle
  settle-Shows now (ok hash) st = (refl, refl, refl)
  settle-Shows now (err e) st = (refl, refl, refl)

  Shows-settled :
      (outcome : Result String AppError) (st : BroadcastStatusResponse K)
      → Shows outcome st
      → st.status ≢ queued
  Shows-settled (ok hash) st h e = cc (h.0, e)
  Shows-settled (err x) st h e = cc (h.0, e)

  -- No two attempts are of one broadcast.
  abbrev pub Distinct : List Attempt → Type 0
  Distinct [] = Unit
  Distinct (x ∷ xs) = All (λ y. x.id ≢ y.id) xs × Distinct xs

  abbrev IsAccepted : Accepted → BroadcastJob K → Type 0
  IsAccepted accepted job = Memᴰ (job.broadcast_id, job.request) accepted

  pub record Traced (rpc_url : Option String) (s : Service K) (accepted : Accepted)
      (attempts : List Attempt) : Type 0 where
    pub waiting : All (IsAccepted accepted) s.sending
    pub placed : All (IsAccepted accepted) s.channel
    pub held : (job : BroadcastJob K) → s.running ≡ some job → IsAccepted accepted job
    pub own : All (λ x. Memᴰ (x.id, x.request) accepted) attempts
    pub shown :
        (id : K.Uuid) (st : BroadcastStatusResponse K)
        → get K id s.statuses ≡ some st
        → st.status ≢ queued
        → (x : Attempt) × Memᴰ x attempts × (x.id ≡ id) × Shows (outcome_of rpc_url x) st
    pub closed :
        (x : Attempt)
        → Memᴰ x attempts
        → (st : BroadcastStatusResponse K) × (get K x.id s.statuses ≡ some st)
          × (st.status ≢ queued)
    pub once : Distinct attempts

  module _ (rpc_url : Option String) where
    pub new-Traced : Traced rpc_url (new K) [] []
    unfolding get
    new-Traced = record {
      waiting = tt;
      placed = tt;
      held = λ job e. cc e;
      own = tt;
      shown = λ id st e. cc e;
      closed = λ x m. elim m [ ];
      once = tt;
    }

    module _ {s : Service K} {accepted : Accepted} {attempts : List Attempt}
        (traced : Traced rpc_url s accepted attempts) where
      pub register-Traced :
          (id : K.Uuid) (now : K.DateTime) (request : BroadcastTransactionRequest K)
          → get K id s.statuses ≡ none
          → Traced rpc_url (register K id now request s) ((id, request) ∷ accepted) attempts
      unfolding register queued_status
      register-Traced id now request fresh = record {
        waiting = (Memᴰ.head refl, All-map (λ j m. Memᴰ.tail m) s.sending traced.waiting);
        placed = All-map (λ j m. Memᴰ.tail m) s.channel traced.placed;
        held = λ job e. Memᴰ.tail (traced.held job e);
        own = All-map (λ x m. Memᴰ.tail m) attempts traced.own;
        shown = λ j st found settled. elim (K.uuid_eq id j) [
          | yes e ↦
              absurd (ground (arith, get-insert K id j (queued_status K id now request) s.statuses))
          | no n ↦
              let before : get K j s.statuses ≡ some st =
                ground (arith, get-insert K id j (queued_status K id now request) s.statuses) in
              traced.shown j st before settled
        ];
        closed = λ x m.
            let (st, found, settled) = traced.closed x m in
            let other : id ≢ x.id = λ e. cc (e, fresh, found) in
            (
              st,
              ground (
                arith,
                other,
                found,
                get-insert K id x.id (queued_status K id now request) s.statuses,
              ),
              settled,
            );
        once = traced.once;
      }

      pub place-Traced :
          (before : List (BroadcastJob K)) (job : BroadcastJob K) (after : List (BroadcastJob K))
          → s.sending ≡ before ++ job ∷ after
          → Traced rpc_url (place K before job after s) accepted attempts
      unfolding place
      place-Traced before job after split =
          let waits : All (IsAccepted accepted) (before ++ job ∷ after) =
            rw split at traced.waiting in
          let (front, (own_job, back)) = All-split _ before (job ∷ after) waits in
          record {
            waiting = All-append _ before after front back;
            placed = All-append _ s.channel (job ∷ []) traced.placed (own_job, tt);
            held = traced.held;
            own = traced.own;
            shown = traced.shown;
            closed = traced.closed;
            once = traced.once;
          }

      pub receive-Traced :
          (job : BroadcastJob K) (rest : List (BroadcastJob K))
          → s.channel ≡ job ∷ rest
          → Traced rpc_url (receive K job rest s) accepted attempts
      unfolding receive
      receive-Traced job rest first =
          let queue : All (IsAccepted accepted) (job ∷ rest) = rw first at traced.placed in
          record {
            waiting = traced.waiting;
            placed = queue.1;
            held = λ j e.
                let same : job ≡ j = ground arith in subst (IsAccepted accepted) same queue.0;
            own = traced.own;
            shown = traced.shown;
            closed = traced.closed;
            once = traced.once;
          }

      pub finish-Traced :
          (now : K.DateTime) (answer : Answer) (job : BroadcastJob K)
          (st : BroadcastStatusResponse K)
          → s.running ≡ some job
          → get K job.broadcast_id s.statuses ≡ some st
          → st.status ≡ queued
          → Traced rpc_url
              (finish K now (submit_transaction K answer rpc_url job.request) job s).0
              accepted
              (record { id = job.broadcast_id; request = job.request; answer = answer } ∷ attempts)
      unfolding finish
      finish-Traced now answer job st busy found open_ =
          let attempt : Attempt = record {
            id = job.broadcast_id;
            request = job.request;
            answer = answer;
          } in
          let outcome = outcome_of rpc_url attempt in
          let changed =
            λ (id : K.Uuid). get-modify K job.broadcast_id id (settle K now outcome) s.statuses in
          let others : (x : Attempt) → Memᴰ x attempts → job.broadcast_id ≢ x.id = λ x m e.
            let (old, before, settled) = traced.closed x m in
            let same : old ≡ st = ground (arith, e, found, before) in settled (rw same open_) in
          record {
            waiting = traced.waiting;
            placed = traced.placed;
            held = λ j e. cc e;
            own = (traced.held job busy, traced.own);
            shown = λ id new same settled. elim (K.uuid_eq job.broadcast_id id) [
              | yes e ↦
                  let written : settle K now outcome st ≡ new =
                    ground (arith, e, found, same, changed id) in
                  (
                    attempt,
                    Memᴰ.head refl,
                    e,
                    subst (Shows outcome) written (settle-Shows now outcome st),
                  )
              | no n ↦
                  let before : get K id s.statuses ≡ some new = ground (arith, changed id) in
                  let (x, m, i, shows) = traced.shown id new before settled in
                  (x, Memᴰ.tail m, i, shows)
            ];
            closed = λ x m.
                All-mem
                  (λ x.
                    (new : BroadcastStatusResponse K) × (get K x.id
                        (modify K job.broadcast_id (settle K now outcome) s.statuses)
                      ≡ some new)
                    × (new.status ≢ queued))
                  x (attempt ∷ attempts)
                  (
                    (
                      settle K now outcome st,
                      ground (arith, found, changed job.broadcast_id),
                      Shows-settled outcome _ (settle-Shows now outcome st),
                    ),
                    All-of_mem _ attempts (λ x m.
                        let (old, before, settled) = traced.closed x m in
                        (old, ground (arith, others x m, before, changed x.id), settled)),
                  )
                  m;
            once = (All-of_mem _ attempts others, traced.once);
          }
