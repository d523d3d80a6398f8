-- ===== src/Examples/Submissions.antt =====
-- A broadcast of a running server, from its registration to the hash, at a concrete run.
use mathlib.Core.List.{Memᴰ}
use native.Mathlib.Decide.{ℕ_discrete}
use ai_wallet.Prelude.{◌≡◌, ◌⊎◌, refl, arith, String, [], ◌∷◌, Option, none, some, ok, err, pos}
use ai_wallet.Model.{BroadcastTransactionRequest, BroadcastStatusResponse, failed, queued}
use ai_wallet.Broadcast.{
  register, place, receive, finish, settle, submit_transaction, rpc_answer, get_status,
  queued_status,
}
use ai_wallet.Broadcast.Table.{get, insert, modify}
use ai_wallet.Broadcast.Traced.{Answer, Attempt, Distinct}
use ai_wallet.System.{
  Server, begin, registers, places, receives, finishes, Run, here, next, queued_answer, round,
  settlement, submission,
}
use ai_wallet.System.Submitted.{
  accepted, attempts, raw_submission, Run-Distinct, get_status-submitted, get_status-no_rpc,
}
use ai_wallet.Examples.Sample.{sample, fields, Json}
use ai_wallet.Examples.Broadcasts.{tx, job, waiting}
use ai_wallet.Api.Types.{AppState}
use ai_wallet.Error.{internal, to_string}
use ai_wallet.Audit.{Memory}
use ai_wallet.Examples.Servers as Servers

-- The RPC answers with a hash.
abbrev response : Json
response = fields (("result", "0xhash") ∷ [])

abbrev pub answer : Answer sample
answer url body = ok (ok response)

-- The same run with a RPC and without one.
module _ (url : Option String) where
  abbrev app : AppState sample (Memory sample)
  app = record Servers.app { broadcast_rpc_url = url }

  abbrev first : Server sample app
  first = begin sample app []

  abbrev registered : Server sample app
  registered = record first {
    store = record first.store { service = register sample 7 (pos 10) tx first.store.service };
  }

  abbrev placed : Server sample app
  placed = record registered {
    store = record registered.store { service = place sample [] job [] registered.store.service };
    pending = (tx, queued_answer sample waiting) ∷ [];
  }

  abbrev received : Server sample app
  received = record placed {
    store = record placed.store { service = receive sample job [] placed.store.service };
  }

  abbrev finished : Server sample app
  finished = record received {
    store =
        round sample app 12 (pos 13) (pos 12) (submission sample app answer job) job received.store;
    history =
        settlement sample (pos 12) (submission sample app answer job)
          (get sample 7 received.store.service.statuses) received.history;
  }

  to_finished : Run sample app (begin sample app []) finished
  unfolding register get insert place receive ℕ_discrete
  to_finished =
      next
        (next
          (next (next here (registers 7 (pos 10) tx refl))
            (places [] job [] waiting refl (omega arith) refl))
          (receives job [] refl refl))
        (finishes 12 (pos 13) (pos 12) answer job refl)

abbrev rpc : Option String
rpc = some "http://rpc"

Run-Distinct_example :
    Distinct sample (attempts sample (app rpc) (to_finished rpc))
    × ((x : Attempt sample)
        → Memᴰ x (attempts sample (app rpc) (to_finished rpc))
        → Memᴰ (x.id, x.request) (accepted sample (app rpc) (to_finished rpc)))
Run-Distinct_example = Run-Distinct sample (app rpc) (to_finished rpc)

told :
    get_status sample 7 (finished rpc).store.service
    ≡ ok (settle sample (pos 12) (ok "0xhash") waiting)
unfolding register get insert modify ℕ_discrete place receive round finish get_status
    submit_transaction rpc_answer settle
told = refl

get_status-submitted_example :
    (request : BroadcastTransactionRequest sample) × (url : String) × (json : Json)
    × (result : Json) × (hash : String) × (post : Answer sample) × Memᴰ
        (7, request)
        (accepted sample (app rpc) (to_finished rpc))
    × Memᴰ
        (record { id = 7; request = request; answer = post })
        (attempts sample (app rpc) (to_finished rpc))
    × ((app rpc).broadcast_rpc_url ≡ some url)
    × (post url (raw_submission sample (app rpc) request) ≡ ok (ok json))
    × (sample.json_get json "result" ≡ some result)
    × (sample.json_as_str result ≡ some hash)
    × (some "0xhash" ≡ some hash)
unfolding settle
get_status-submitted_example =
    get_status-submitted sample (app rpc) (to_finished rpc) 7
      (settle sample (pos 12) (ok "0xhash") waiting) told refl

told_failure :
    get_status sample 7 (finished none).store.service
    ≡ ok (
        settle sample
          (pos 12)
          (err (internal "AI_WALLET_RPC_URL is required for broadcast submission"))
          waiting)
unfolding register get insert modify ℕ_discrete place receive round finish get_status
    submit_transaction rpc_answer settle
told_failure = refl

abbrev failure : BroadcastStatusResponse sample
failure = record waiting {
  status = failed;
  error = some "internal error: AI_WALLET_RPC_URL is required for broadcast submission";
  updated_at = pos 12;
}

get_status-no_rpc_example :
    (failure.status ≡ queued)
    ⊎ ((failure.status ≡ failed)
        × (failure.tx_hash ≡ none)
        × (failure.error
            ≡ some "internal error: AI_WALLET_RPC_URL is required for broadcast submission"))
unfolding settle to_string queued_status
get_status-no_rpc_example =
    get_status-no_rpc sample (app none) (to_finished none) 7 failure refl told_failure
