-- ===== src/Broadcast/Reached.antt =====
-- What holds of the broadcast service after any interleaving of its callers and its worker.
use mathlib.Core.Logic.{if_pos, if_neg}
use ai_wallet.Prelude.{◌≡◌, ◌≢◌, refl, String, Option, none, some, Result, ok, err, arith, ◌∙◌}
use ai_wallet.Crates.{Crates}
use ai_wallet.Error.{AppError}
use ai_wallet.Model.{queued, BroadcastStatusResponse}
use ai_wallet.Broadcast.Table.{get, get-insert, get-modify}
use ai_wallet.Broadcast.{
  BroadcastJob, queued_status, register, place, receive, settle, finish, get_status,
}
use ai_wallet.Broadcast.Steps.{
  World, start, Step, registers, places, receives, finishes, Reach, here, next,
}
use ai_wallet.Broadcast.Ledger.{Inv, start-Inv, Step-Inv, running-queued}

module _ (K : Crates) where
  -- In every state that the service can reach while no caller leaves, each id has one unfinished job while its status is
  -- queued and none otherwise, a status has a transaction hash exactly when it is submitted and an
  -- error exactly when it is failed, the channel holds at most 128 jobs, and the worker has handed
  -- the audit one event for each finished status.
  pub Reach-Inv : {w : World K} → Reach K (start K) w → Inv K w
  Reach-Inv here = start-Inv K
  Reach-Inv (next r step) = Step-Inv K step (Reach-Inv r)

  -- How a status may change: its id, request, chain and creation stay, and once it is no longer
  -- queued nothing of it changes.
  pub record Evolves (old new : BroadcastStatusResponse K) : Type 0 where
    pub same_id : new.broadcast_id ≡ old.broadcast_id
    pub same_request : new.request_id ≡ old.request_id
    pub same_chain : new.chain_id ≡ old.chain_id
    pub same_creation : new.created_at ≡ old.created_at
    pub final : old.status ≢ queued → new ≡ old

  abbrev pub Later : Option (BroadcastStatusResponse K) → BroadcastStatusResponse K → Type 0
  Later none old = ⊥
  Later (some new) old = Evolves old new

  Evolves-refl : (st : BroadcastStatusResponse K) → Evolves st st
  Evolves-refl st = record {
    same_id = refl;
    same_request = refl;
    same_chain = refl;
    same_creation = refl;
    final = λ _. refl;
  }

  settle-Evolves :
      (now : K.DateTime) (outcome : Result String AppError) (st : BroadcastStatusResponse K)
      → st.status ≡ queued
      → Evolves st (settle K now outcome st)
  unfolding settle
  settle-Evolves now (ok hash) st open_ = record {
    same_id = refl;
    same_request = refl;
    same_chain = refl;
    same_creation = refl;
    final = λ n. absurd (n open_);
  }
  settle-Evolves now (err e) st open_ = record {
    same_id = refl;
    same_request = refl;
    same_chain = refl;
    same_creation = refl;
    final = λ n. absurd (n open_);
  }

  Step-Later :
      {w v : World K} (id : K.Uuid) (st : BroadcastStatusResponse K)
      → Step K w v
      → Inv K w
      → get K id w.service.statuses ≡ some st
      → Later (get K id v.service.statuses) st
  unfolding register place receive finish
  Step-Later {w} id st (registers j now request fresh) inv h =
      ground (
        arith,
        Evolves-refl st,
        get-insert K j id (queued_status K j now request) w.service.statuses,
      )
  Step-Later {w} id st (places before job after split room) inv h = rw h (Evolves-refl st)
  Step-Later {w} id st (receives job rest idle first) inv h = rw h (Evolves-refl st)
  Step-Later {w} id st (finishes now outcome job busy) inv h =
      let (st0, found, unsettled) = running-queued K w job inv busy in
      let table = w.service.statuses in
      let changed = get-modify K job.broadcast_id id (settle K now outcome) table in
      elim (K.uuid_eq job.broadcast_id id) [
        | yes e ↦
            let still : st.status ≡ queued = ground arith in
            rw changed (rw (if_pos _ e) (rw h (settle-Evolves now outcome st still)))
        | no n ↦ rw changed (rw (if_neg _ n) (rw h (Evolves-refl st)))
      ]

  Later-trans :
      (o : Option (BroadcastStatusResponse K)) (st mid : BroadcastStatusResponse K)
      → Evolves st mid
      → Later o mid
      → Later o st
  Later-trans none st mid e l = l
  Later-trans (some new) st mid e l = record {
    same_id = l.same_id ∙ e.same_id;
    same_request = l.same_request ∙ e.same_request;
    same_chain = l.same_chain ∙ e.same_chain;
    same_creation = l.same_creation ∙ e.same_creation;
    final = λ n. l.final (rw (e.final n) n) ∙ e.final n;
  }

  Later-some :
      (o : Option (BroadcastStatusResponse K)) (st : BroadcastStatusResponse K)
      → Later o st
      → (new : BroadcastStatusResponse K) × (o ≡ some new) × Evolves st new
  Later-some none st l = absurd l
  Later-some (some new) st l = (new, refl, l)

  pub Reach-Inv_from : {u v : World K} → Inv K u → Reach K u v → Inv K v
  Reach-Inv_from inv here = inv
  Reach-Inv_from inv (next r step) = Step-Inv K step (Reach-Inv_from inv r)

  -- A status that the table has at some time it has at every later time too, with the same id,
  -- request, chain and creation; and a submitted or failed status never changes again.
  pub Reach-Later :
      {u v : World K} (id : K.Uuid) (st : BroadcastStatusResponse K)
      → Inv K u
      → Reach K u v
      → get K id u.service.statuses ≡ some st
      → (new : BroadcastStatusResponse K) × (get K id v.service.statuses ≡ some new)
        × Evolves st new
  Reach-Later id st inv here h = (st, h, Evolves-refl st)
  Reach-Later id st inv (next r step) h =
      let (mid, found, e) = Reach-Later id st inv r h in
      Later-some _ st (Later-trans _ st mid e (Step-Later id mid step (Reach-Inv_from inv r) found))

  -- `get_status` after the worker's round answers the status of its job, settled by the outcome; the
  -- status of every other id is as before.
  pub get_status-finish :
      (w : World K) (now : K.DateTime) (outcome : Result String AppError) (job : BroadcastJob K)
      → Inv K w
      → w.service.running ≡ some job
      → ((st : BroadcastStatusResponse K) × (get_status K job.broadcast_id w.service ≡ ok st)
          × (st.status ≡ queued)
          × (get_status K job.broadcast_id (finish K now outcome job w.service).0
              ≡ ok (settle K now outcome st)))
        × ((id : K.Uuid)
            → job.broadcast_id ≢ id
            → get_status K id (finish K now outcome job w.service).0 ≡ get_status K id w.service)
  unfolding get_status finish
  get_status-finish w now outcome job inv busy =
      let (st, found, unsettled) = running-queued K w job inv busy in
      let changed = λ (id : K.Uuid).
        get-modify K job.broadcast_id id (settle K now outcome) w.service.statuses in
      (
        (st, rw found, unsettled, ground (arith, found, changed job.broadcast_id)),
        λ id other. ground (arith, changed id, other),
      )
