-- ===== src/Broadcast/Tracked.antt =====
-- A broadcast whose job is where its status says, by itself: whatever other broadcasts have lost.
use mathlib.Core.Logic.{if_pos, if_neg}
use ai_wallet.Prelude.{
  ◌≤◌, ◌<◌, ◌≡◌, refl, [], ◌∷◌, Option, none, some, Result, ok, err, String, arith, ap, ◌∙◌,
}
use ai_wallet.Crates.{Crates}
use ai_wallet.Error.{AppError}
use ai_wallet.Model.{BroadcastState, queued, submitted, failed, BroadcastStatusResponse}
use ai_wallet.Broadcast.{Service, queued_status, register, place, receive, settle, finish}
use ai_wallet.Broadcast.Table.{get, get-insert, get-modify}
use ai_wallet.Broadcast.Steps.{
  World, Step, registers, places, receives, finishes, Reach, here, next,
}
use ai_wallet.Broadcast.Ledger.{
  waiting, waiting-append, in_flight, open_state, open_state-pos, open_count,
}

module _ (K : Crates) where
  -- The id has one unfinished job while its status is queued, and none once it is not.
  pub record IsTracked (id : K.Uuid) (s : Service K) : Type 0 where
    pub status : BroadcastStatusResponse K
    pub found : get K id s.statuses ≡ some status
    pub jobs : in_flight K id s ≡ open_state K status.status

  open_state-settle :
      (now : K.DateTime) (outcome : Result String AppError) (st : BroadcastStatusResponse K)
      → open_state K (settle K now outcome st).status ≡ 0
  unfolding settle
  open_state-settle now (ok hash) st = refl
  open_state-settle now (err e) st = refl

  Step-IsTracked :
      {w v : World K} (id : K.Uuid) → Step K w v → IsTracked id w.service → IsTracked id v.service
  unfolding register place receive finish
  Step-IsTracked {w} id (registers j now request fresh) h = record {
    status = h.status;
    found =
        ground
          (arith, h.found, get-insert K j id (queued_status K j now request) w.service.statuses);
    jobs = ground (arith, h.found, h.jobs);
  }
  Step-IsTracked {w} id (places before job after split room) h = record {
    status = h.status;
    found = h.found;
    jobs = omega (
      arith,
      h.jobs,
      ap (waiting K id) split,
      waiting-append K id before (job ∷ after),
      waiting-append K id before after,
      waiting-append K id w.service.channel (job ∷ []),
    );
  }
  Step-IsTracked {w} id (receives job rest idle first) h = record {
    status = h.status;
    found = h.found;
    jobs = ground (arith, h.jobs);
  }
  Step-IsTracked {w} id (finishes now outcome job busy) h =
      let changed = get-modify K job.broadcast_id id (settle K now outcome) w.service.statuses in
      elim (K.uuid_eq job.broadcast_id id) [
        | yes e ↦ record {
          status = settle K now outcome h.status;
          found = changed ∙ (rw (if_pos _ e) (rw h.found refl));
          jobs =
              let open_ : h.status.status ≡ queued =
                open_state-pos K h.status.status (ground (arith, h.jobs, busy, e)) in
              ground (arith, h.jobs, busy, e, open_, open_state-settle now outcome h.status);
        }
        | no n ↦ record {
          status = h.status;
          found = changed ∙ (rw (if_neg _ n) h.found);
          jobs = ground (arith, h.jobs, busy, n);
        }
      ]

  pub Reach-IsTracked :
      {w v : World K} {id : K.Uuid} → Reach K w v → IsTracked id w.service → IsTracked id v.service
  Reach-IsTracked here h = h
  Reach-IsTracked {id = id} (next r step) h = Step-IsTracked id step (Reach-IsTracked r h)

  open_state-le : (s : BroadcastState) → open_state K s ≤ 1
  open_state-le queued = omega arith
  open_state-le submitted = omega arith
  open_state-le failed = omega arith

  -- A broadcast that has a job is tracked, where no id has more jobs than its status allows.
  pub IsTracked-of_job :
      (id : K.Uuid) (s : Service K) (o : Option (BroadcastStatusResponse K))
      → get K id s.statuses ≡ o
      → in_flight K id s ≤ open_count K o
      → 0 < in_flight K id s
      → IsTracked id s
  IsTracked-of_job id s none e allowed some_ = absurd (omega (arith, allowed))
  IsTracked-of_job id s (some st) e allowed some_ = record {
    status = st;
    found = e;
    jobs = omega (arith, allowed, open_state-le st.status);
  }
