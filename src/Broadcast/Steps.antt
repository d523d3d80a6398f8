-- ===== src/Broadcast/Steps.antt =====
-- The service as a step relation: callers and the worker task take turns in any order. A caller that
-- leaves while it waits in `enqueue` is not among these steps: System/Departures adds it.
use ai_wallet.Prelude.{String, List, [], ◌∷◌, ◌++◌, ◌≡◌, ◌<◌, Option, none, some, Result, length}
use ai_wallet.Crates.{Crates}
use ai_wallet.Error.{AppError}
use ai_wallet.Model.{BroadcastTransactionRequest, AuditEventInput}
use ai_wallet.Broadcast.Table.{get}
use ai_wallet.Broadcast.{BroadcastJob, Service, new, capacity, register, place, receive, finish}

abbrev pub to_list {ℓ} : {A : Type ℓ} → Option A → List A
to_list none = []
to_list (some a) = a ∷ []

-- The service, and the events that the worker has handed to the audit, the newest first.
pub record World (K : Crates) : Type 0 where
  pub service : Service K
  pub handed : List (AuditEventInput K)

module _ (K : Crates) where
  abbrev pub start : World K
  start = record { service = new K; handed = [] }

  -- The worker's write of an outcome, and the event that it hands over.
  abbrev pub after_finish : K.DateTime → Result String AppError → BroadcastJob K → World K → World K
  after_finish now outcome job w = record {
    service = (finish K now outcome job w.service).0;
    handed = to_list (finish K now outcome job w.service).1 ++ w.handed;
  }

  -- `registers` takes an id that is not in the table: `Uuid::new_v4` draws a new one. `finishes`
  -- takes any outcome, so any behaviour of the RPC.
  pub data Step (w : World K) : World K → Type 0 where
    registers :
        (id : K.Uuid) (now : K.DateTime) (request : BroadcastTransactionRequest K)
        → get K id w.service.statuses ≡ none
        → Step w (record w { service = register K id now request w.service })
    places :
        (before : List (BroadcastJob K)) (job : BroadcastJob K) (after : List (BroadcastJob K))
        → w.service.sending ≡ before ++ job ∷ after
        → length w.service.channel < capacity
        → Step w (record w { service = place K before job after w.service })
    receives :
        (job : BroadcastJob K) (rest : List (BroadcastJob K))
        → w.service.running ≡ none
        → w.service.channel ≡ job ∷ rest
        → Step w (record w { service = receive K job rest w.service })
    finishes :
        (now : K.DateTime) (outcome : Result String AppError) (job : BroadcastJob K)
        → w.service.running ≡ some job
        → Step w (after_finish now outcome job w)

  pub data Reach (w : World K) : World K → Type 0 where
    here : Reach w w
    next : {u v : World K} → Reach w u → Step u v → Reach w v

  pub Reach-trans : {u w v : World K} → Reach u w → Reach w v → Reach u v
  Reach-trans r here = r
  Reach-trans r (next r' step) = next (Reach-trans r r') step
