-- ===== src/System/Submitted.antt =====
-- What the broadcast worker of a running server submits, and what its callers are told of it.
use mathlib.Core.List.{Memᴰ}
use ai_wallet.Prelude.{
  ◌≡◌, ◌≢◌, ◌⊎◌, refl, All-mem, ok_or, String, List, [], ◌∷◌, Option, none, some, Result-cases,
  Option-cases, ok, err, arith, inl, inr,
}
use ai_wallet.Crates.{Crates}
use ai_wallet.Error.{AppError, internal, to_string}
use ai_wallet.Model.{
  queued, submitted, failed, BroadcastState, BroadcastStatusResponse, BroadcastTransactionRequest,
}
use ai_wallet.Broadcast.{result_text, get_status, submit_transaction, rpc_request}
use ai_wallet.Broadcast.Table.{get}
use ai_wallet.Broadcast.Ledger.{running-queued}
use ai_wallet.Broadcast.Submit.{submit_transaction-eq-ok_iff}
use ai_wallet.Broadcast.Traced.{
  Answer, Attempt, Accepted, outcome_of, Shows, Distinct, Traced, new-Traced, register-Traced,
  place-Traced, receive-Traced, finish-Traced,
}
use ai_wallet.Api.Types.{AppState}
use ai_wallet.Api.{run_spawned}
use ai_wallet.System.{
  Server, begin, round, calls, registers, places, records, receives, finishes, runs, Run, here,
  next,
}
use ai_wallet.System.Service.{view, handle-service, Run-Reach}

module _ (K : Crates) {S : Type 0} (app : AppState K S) where
  -- The broadcasts that a run has registered, each id with its request.
  abbrev pub accepted : {u w : Server K app} → Run K app u w → Accepted K
  accepted here = []
  accepted (next r (registers id now request fresh)) = (id, request) ∷ accepted r
  accepted (next r step) = accepted r

  -- The submissions that its worker has made, the last one first.
  abbrev pub attempts : {u w : Server K app} → Run K app u w → List (Attempt K)
  attempts here = []
  attempts (next r (finishes id event_now now answer job busy)) =
      record { id = job.broadcast_id; request = job.request; answer = answer } ∷ attempts r
  attempts (next r step) = attempts r

  Run-Traced :
      {audited : S} {w : Server K app} (r : Run K app (begin K app audited) w)
      → Traced K app.broadcast_rpc_url w.store.service (accepted r) (attempts r)
  unfolding round run_spawned
  Run-Traced here = new-Traced K app.broadcast_rpc_url
  Run-Traced (next {u} r (calls draws call other)) =
      rw (handle-service K app draws call u.store other) (Run-Traced r)
  Run-Traced (next r (registers id now request fresh)) =
      register-Traced K app.broadcast_rpc_url (Run-Traced r) id now request fresh
  Run-Traced (next r (places before job after status split room found)) =
      place-Traced K app.broadcast_rpc_url (Run-Traced r) before job after split
  Run-Traced (next r (records before request response after id now split)) = Run-Traced r
  Run-Traced (next r (receives job rest idle first)) =
      receive-Traced K app.broadcast_rpc_url (Run-Traced r) job rest first
  Run-Traced (next {u} r (finishes id event_now now answer job busy)) =
      let (st, found, open_) = running-queued K (view K app u) job (Run-Reach K app r).1 busy in
      finish-Traced K app.broadcast_rpc_url (Run-Traced r) now answer job st busy found open_
  Run-Traced (next r (runs before event after id now split)) = Run-Traced r

  -- The worker submits no broadcast twice: in every run of the server, two submissions are of two
  -- broadcasts, and each is of a broadcast that was registered, with that broadcast's own request.
  pub Run-Distinct :
      {audited : S} {w : Server K app} (r : Run K app (begin K app audited) w)
      → Distinct K (attempts r)
        × ((x : Attempt K) → Memᴰ x (attempts r) → Memᴰ (x.id, x.request) (accepted r))
  Run-Distinct r =
      let traced = Run-Traced r in (traced.once, λ x m. All-mem _ x (attempts r) traced.own m)

  found-of_told :
      (e : AppError) (o : Option (BroadcastStatusResponse K)) (st : BroadcastStatusResponse K)
      → ok_or e o ≡ ok st
      → o ≡ some st
  found-of_told e none st h = cc h
  found-of_told e (some a) st h = ground arith

  result_text-eq :
      (json : K.Value) (hash : String)
      → result_text K json ≡ some hash
      → (result : K.Value) × (K.json_get json "result" ≡ some result)
        × (K.json_as_str result ≡ some hash)
  result_text-eq json hash h = elim (Option-cases (K.json_get json "result")) [
    | inl missing ↦ absurd (ground arith)
    | inr (result, there) ↦ (result, there, ground arith)
  ]

  -- The call of JSON-RPC that submits the raw transaction of a request.
  abbrev pub raw_submission : BroadcastTransactionRequest K → K.Value
  raw_submission request = K.json_object (
      ("jsonrpc", K.json_string "2.0")
      ∷ ("method", K.json_string "eth_sendRawTransaction")
      ∷ ("params", K.json_strings (request.raw_transaction_hex ∷ []))
      ∷ ("id", K.json_number 1)
      ∷ [])

  -- A caller is told the truth about a broadcast: if `get_status` answers that it is submitted, then
  -- the worker has posted `eth_sendRawTransaction` with the raw transaction of that broadcast's own
  -- request to the configured URL, what is there has answered a JSON, and the hash that the caller
  -- sees is the text of that JSON's `result`.
  pub get_status-submitted :
      {audited : S} {w : Server K app} (r : Run K app (begin K app audited) w) (id : K.Uuid)
      (st : BroadcastStatusResponse K)
      → get_status K id w.store.service ≡ ok st
      → st.status ≡ submitted
      → (request : BroadcastTransactionRequest K) × (url : String) × (json : K.Value)
        × (result : K.Value) × (hash : String) × (answer : Answer K) × Memᴰ
            (id, request)
            (accepted r)
        × Memᴰ (record { id = id; request = request; answer = answer }) (attempts r)
        × (app.broadcast_rpc_url ≡ some url)
        × (answer url (raw_submission request) ≡ ok (ok json))
        × (K.json_get json "result" ≡ some result)
        × (K.json_as_str result ≡ some hash)
        × (st.tx_hash ≡ some hash)
  unfolding get_status rpc_request
  get_status-submitted {w} r id st told done =
      let traced = Run-Traced r in
      let found : get K id w.store.service.statuses ≡ some st = found-of_told _ _ st told in
      let (x, m, i, shows) = traced.shown id st found (λ e. cc (done, e)) in
      elim (Result-cases (outcome_of K app.broadcast_rpc_url x)) [
        | inr (e, bad) ↦
            let failure : Shows K (err e) st = rw bad at shows in absurd (cc (failure.0, done))
        | inl (hash, good) ↦
            let success : Shows K (ok hash) st = rw good at shows in
            let (url, json, configured, answered, text) =
              (submit_transaction-eq-ok_iff K x.answer app.broadcast_rpc_url x.request hash).0
                good in
            let own : Memᴰ (x.id, x.request) (accepted r) = All-mem _ x (attempts r) traced.own m in
            let same : x ≡ record { id = id; request = x.request; answer = x.answer } =
              λ k. record { id = i k; request = x.request; answer = x.answer } in
            let (result, there, read) = result_text-eq json hash text in
            (
              x.request,
              url,
              json,
              result,
              hash,
              x.answer,
              rw i at own,
              rw same at m,
              configured,
              answered,
              there,
              read,
              success.1,
            )
      ]

  queued-cases : (state : BroadcastState) → (state ≡ queued) ⊎ (state ≢ queued)
  queued-cases queued = inl refl
  queued-cases submitted = inr (λ e. cc e)
  queued-cases failed = inr (λ e. cc e)

  abbrev no_url : AppError
  no_url = internal "AI_WALLET_RPC_URL is required for broadcast submission"

  Shows-none :
      (rpc_url : Option String) (x : Attempt K) (st : BroadcastStatusResponse K)
      → rpc_url ≡ none
      → Shows K (outcome_of K rpc_url x) st
      → Shows K (err no_url) st
  unfolding submit_transaction
  Shows-none none x st missing shows = shows
  Shows-none (some url) x st missing shows = absurd (cc missing)

  -- Without a RPC URL no broadcast is ever reported as submitted: in every state of the server a status
  -- is queued, or it is failed, has no hash and names the missing variable.
  pub get_status-no_rpc :
      {audited : S} {w : Server K app} (r : Run K app (begin K app audited) w) (id : K.Uuid)
      (st : BroadcastStatusResponse K)
      → app.broadcast_rpc_url ≡ none
      → get_status K id w.store.service ≡ ok st
      → (st.status ≡ queued)
        ⊎ ((st.status ≡ failed)
            × (st.tx_hash ≡ none)
            × (st.error
                ≡ some "internal error: AI_WALLET_RPC_URL is required for broadcast submission"))
  unfolding get_status
  get_status-no_rpc {w} r id st missing told = elim (queued-cases st.status) [
    | inl open_ ↦ inl open_
    | inr settled ↦
        let found : get K id w.store.service.statuses ≡ some st = found-of_told _ _ st told in
        let (x, m, i, shows) = (Run-Traced r).shown id st found settled in
        let failure = Shows-none app.broadcast_rpc_url x st missing shows in
        inr (unfold to_string in failure)
  ]
