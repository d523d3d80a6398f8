-- ===== src/System/Settles.antt =====
-- What a running server can still do for the broadcasts that it has accepted.
use ai_wallet.Prelude.{
  ◌+◌, ◌*◌, ℕ, zero, suc, ◌<◌, ◌≤◌, ◌≡◌, ◌≢◌, ◌⊎◌, inl, inr, refl, List, [], ◌∷◌, Option, none,
  some, ok, arith, length, ap, All, Option-cases,
}
use ai_wallet.Crates.{Crates}
use ai_wallet.Model.{queued, BroadcastStatusResponse}
use ai_wallet.Broadcast.{BroadcastJob, Service, place, receive, finish, get_status}
use ai_wallet.Broadcast.Table.{get}
use ai_wallet.Broadcast.Ledger.{in_flight}
use ai_wallet.Broadcast.Steps.{to_list}
use ai_wallet.Broadcast.Tracked.{Reach-IsTracked, IsTracked, IsTracked-of_job}
use ai_wallet.Broadcast.Traced.{Answer, Attempt}
use ai_wallet.Api.Types.{AppState}
use ai_wallet.System.{Server, begin, round, Step, places, receives, finishes, Run, here, next}
use ai_wallet.System.Service.{Step-view}
use ai_wallet.System.Submitted.{attempts}
use ai_wallet.System.Departures.{Visit, Run-Visit, Visit-trans}
use ai_wallet.System.Sound.{Visit-IsSound, IsSound}

module _ (K : Crates) where
  -- Steps that the jobs still need: three for a waiting call, two for a job in the channel.
  abbrev pub work : Service K → ℕ
  work s = length (to_list s.running) + (length s.channel * 2 + length s.sending * 3)

  abbrev pub IsIdle : Service K → Type 0
  IsIdle s = (s.running ≡ none) × (s.channel ≡ []) × (s.sending ≡ [])

module _ (K : Crates) {S : Type 0} (app : AppState K S) (answer : Answer K) where
  -- Each submission of the run has been answered this way.
  abbrev pub Answered : {u w : Server K app} → Run K app u w → Type 0
  Answered r = All (λ (x : Attempt K). x.answer ≡ answer) (attempts K app r)

  -- One step nearer to an idle service.
  pub record Nearer {u w : Server K app} (r : Run K app u w) : Type 0 where
    pub later : Server K app
    pub run : Run K app u later
    pub step : Step K app w later
    pub so : Answered run
    pub less : work K later.store.service < work K w.store.service

  module _ (id : K.Uuid) (event_now now : K.DateTime) where
    advance :
        {u w : Server K app} (run : Run K app u w) (r : Option (BroadcastJob K))
        (c s : List (BroadcastJob K))
        → IsSound K app w
        → Answered run
        → w.store.service.running ≡ r
        → w.store.service.channel ≡ c
        → w.store.service.sending ≡ s
        → IsIdle K w.store.service ⊎ Nearer run
    unfolding place receive finish round
    advance run (some job) c s sound so er ec es =
        let step = finishes id event_now now answer job er in
        inr (record {
          later = _;
          run = next run step;
          step = step;
          so = (refl, so);
          less = omega (arith, ap (λ (o : Option (BroadcastJob K)). length (to_list o)) er);
        })
    advance run none (job ∷ c) s sound so er ec es =
        let step = receives job c er ec in
        inr (record {
          later = _;
          run = next run step;
          step = step;
          so = so;
          less = ground (arith, er, ec);
        })
    advance {w = w} run none [] (job ∷ s) sound so er ec es =
        elim (Option-cases (get K job.broadcast_id w.store.service.statuses)) [
          | inl missing ↦ absurd (ground (arith, sound.tracked job.broadcast_id, es, missing))
          | inr (status, found) ↦
              let step = places [] job s status es (rw ec (omega arith)) found in
              inr (record {
                later = _;
                run = next run step;
                step = step;
                so = so;
                less = ground (arith, er, ec, es);
              })
        ]
    advance run none [] [] sound so er ec es = inl (er, ec, es)

    drain :
        {audited : S} {u : Server K app} (n : ℕ) {w : Server K app} (run : Run K app u w)
        → Visit K app (begin K app audited) u
        → Answered run
        → work K w.store.service ≤ n
        → (v : Server K app) × (r : Run K app u v) × Answered r × IsIdle K v.store.service
    drain zero {w} run visit so h =
        elim (advance run _ _ _
          (Visit-IsSound K app (Visit-trans K app visit (Run-Visit K app run))) so refl refl refl) [
            | inl idle ↦ (w, run, so, idle)
            | inr nearer ↦ absurd (omega (arith, nearer.less))
          ]
    drain (suc n) {w} run visit so h =
        elim (advance run _ _ _
          (Visit-IsSound K app (Visit-trans K app visit (Run-Visit K app run))) so refl refl refl) [
            | inl idle ↦ (w, run, so, idle)
            | inr nearer ↦ drain n nearer.run visit nearer.so (omega (arith, nearer.less))
          ]

    Run-IsTracked :
        {u w : Server K app} (b : K.Uuid)
        → Run K app u w
        → IsTracked K b u.store.service
        → IsTracked K b w.store.service
    Run-IsTracked b here h = h
    Run-IsTracked b (next r step) h = Reach-IsTracked K (Step-view K app step) (Run-IsTracked b r h)

    -- No job is ever stuck: from every state that the server can reach, callers who leave included, it
    -- can go on, with an RPC that answers its submissions in any one way, to a state in which the service
    -- has no job left, and there every broadcast that had a job is submitted or failed.
    pub can_settle :
        {audited : S} {w : Server K app}
        → Visit K app (begin K app audited) w
        → (v : Server K app) × (r : Run K app w v) × Answered r
          × IsIdle K v.store.service
          × ((b : K.Uuid)
              → 0 < in_flight K b w.store.service
              → (st : BroadcastStatusResponse K) × (get_status K b v.store.service ≡ ok st)
                × (st.status ≢ queued))
    unfolding get_status
    can_settle {w = w} visit =
        let (v, r, so, idle) = drain (work K w.store.service) here visit tt (omega arith) in
        let sound = Visit-IsSound K app visit in
        (
          v,
          r,
          so,
          idle,
          λ b some_.
              let t =
                Run-IsTracked b r
                  (IsTracked-of_job K b w.store.service _ refl (sound.tracked b) some_) in
              (t.status, rw t.found refl, λ open_. ground (arith, t.jobs, idle)),
        )
