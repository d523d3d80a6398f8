-- ===== src/Broadcast/Stranded.antt =====
-- A broadcast without a job: its caller has left before the job had a place in the channel.
use mathlib.Core.Logic.{if_pos}
use mathlib.Core.List.{Sublistᴰ}
use ai_wallet.Prelude.{
  ℕ, suc, ◌≤◌, ◌≡◌, refl, List, [], ◌∷◌, ◌++◌, some, arith, ap, inl, inr, Option-cases,
}
use ai_wallet.Crates.{Crates}
use ai_wallet.Model.{BroadcastState, queued, submitted, failed, BroadcastStatusResponse}
use ai_wallet.Broadcast.{
  BroadcastJob, Service, queued_status, register, place, receive, settle, finish,
}
use ai_wallet.Broadcast.Table.{get, get-insert, get-modify}
use ai_wallet.Broadcast.Steps.{
  World, Step, registers, places, receives, finishes, Reach, here, next,
}
use ai_wallet.Broadcast.Ledger.{waiting, waiting-append, in_flight, open_state, open_state-pos, Inv}

module _ (K : Crates) where
  -- The table has a status for the id, and no job of it is anywhere.
  pub record IsStranded (id : K.Uuid) (st : BroadcastStatusResponse K) (s : Service K)
      : Type 0 where
    pub gone : in_flight K id s ≡ 0
    pub kept : get K id s.statuses ≡ some st

  Step-IsStranded :
      {w v : World K} (id : K.Uuid) (st : BroadcastStatusResponse K)
      → Step K w v
      → IsStranded id st w.service
      → IsStranded id st v.service
  unfolding register place receive finish
  Step-IsStranded {w} id st (registers j now request fresh) h = record {
    gone = ground (arith, h.gone, h.kept);
    kept = ground (
      arith,
      h.gone,
      h.kept,
      get-insert K j id (queued_status K j now request) w.service.statuses,
    );
  }
  Step-IsStranded {w} id st (places before job after split room) h = record {
    gone = omega (
      arith,
      h.gone,
      ap (waiting K id) split,
      waiting-append K id before (job ∷ after),
      waiting-append K id before after,
      waiting-append K id w.service.channel (job ∷ []),
    );
    kept = h.kept;
  }
  Step-IsStranded {w} id st (receives job rest idle first) h = record {
    gone = ground (arith, h.gone);
    kept = h.kept;
  }
  Step-IsStranded {w} id st (finishes now outcome job busy) h = record {
    gone = ground (arith, h.gone, h.kept);
    kept = ground (
      arith,
      h.gone,
      h.kept,
      get-modify K job.broadcast_id id (settle K now outcome) w.service.statuses,
    );
  }

  -- It stays so, whatever happens.
  pub Reach-IsStranded :
      {w v : World K} {id : K.Uuid} {st : BroadcastStatusResponse K}
      → Reach K w v
      → IsStranded id st w.service
      → IsStranded id st v.service
  Reach-IsStranded here h = h
  Reach-IsStranded {id = id} {st = st} (next r step) h =
      Step-IsStranded id st step (Reach-IsStranded r h)

  pub waiting-sublist :
      (id : K.Uuid) {xs ys : List (BroadcastJob K)}
      → Sublistᴰ xs ys
      → waiting K id xs ≤ waiting K id ys
  waiting-sublist id Sublistᴰ.slnil = omega arith
  waiting-sublist id (Sublistᴰ.cons h) = omega (arith, waiting-sublist id h)
  waiting-sublist id (Sublistᴰ.cons-cons e h) =
      omega (arith, ap (λ (j : BroadcastJob K). waiting K id (j ∷ [])) e, waiting-sublist id h)

  open_state-le : (s : BroadcastState) → open_state K s ≤ 1
  open_state-le queued = omega arith
  open_state-le submitted = omega arith
  open_state-le failed = omega arith

  counted :
      (job : BroadcastJob K) (before after : List (BroadcastJob K))
      → waiting K job.broadcast_id (before ++ job ∷ after)
        ≡ suc (waiting K job.broadcast_id (before ++ after))
  counted job before after = omega (
    arith,
    waiting-append K job.broadcast_id before (job ∷ after),
    waiting-append K job.broadcast_id before after,
    if_pos {C = ℕ} (K.uuid_eq job.broadcast_id job.broadcast_id) refl 1 0,
  )

  -- Without the job that waits for a place, its broadcast is stranded with a queued status.
  pub IsStranded-without :
      (w : World K) (before : List (BroadcastJob K)) (job : BroadcastJob K)
      (after : List (BroadcastJob K)) (sending : List (BroadcastJob K))
      → Inv K w
      → w.service.sending ≡ before ++ job ∷ after
      → Sublistᴰ sending (before ++ after)
      → (st : BroadcastStatusResponse K) × (st.status ≡ queued)
        × IsStranded job.broadcast_id st (record w.service { sending = sending })
  IsStranded-without w before job after sending inv split fewer =
      let here_once = ap (waiting K job.broadcast_id) split in
      elim (Option-cases (get K job.broadcast_id w.service.statuses)) [
        | inl missing ↦
            absurd
              (ground (arith, inv.tracked job.broadcast_id, here_once, counted job before after))
        | inr (st, found) ↦
            let known : in_flight K job.broadcast_id w.service ≡ open_state K st.status =
              rw found at (inv.tracked job.broadcast_id) in
            (
              st,
              open_state-pos K st.status
                  (omega (arith, known, here_once, counted job before after)),
              record {
                gone = omega (
                  arith,
                  known,
                  here_once,
                  counted job before after,
                  open_state-le st.status,
                  waiting-sublist job.broadcast_id fewer,
                );
                kept = found;
              },
            )
      ]
