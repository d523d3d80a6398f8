-- ===== src/Broadcast/Submit.antt =====
-- What `submit_transaction` answers.
use ai_wallet.Prelude.{
  String, ◌≡◌, ◌↔◌, refl, none, some, Option, ok, err, arith, Result-cases, inl, inr,
}
use ai_wallet.Crates.{Crates}
use ai_wallet.Error.{AppError, status_code}
use ai_wallet.Model.{BroadcastTransactionRequest}
use ai_wallet.Broadcast.{Rpc, rpc_request, rpc_answer, result_text, submit_transaction}

module _ (K : Crates) where
  rpc_answer-eq-ok :
      (json : K.Value) (hash : String)
      → rpc_answer K json ≡ ok hash
      → result_text K json ≡ some hash
  unfolding rpc_answer
  rpc_answer-eq-ok json hash h = ground arith

  -- A submission succeeds with a hash exactly when a RPC is configured, its answer to the request is
  -- JSON, and that has a `result` which is the hash's text.
  pub submit_transaction-eq-ok_iff :
      (post : Rpc K) (rpc_url : Option String) (request : BroadcastTransactionRequest K)
      (hash : String)
      → (submit_transaction K post rpc_url request ≡ ok hash) ↔ (
          (url : String) × (json : K.Value) × (rpc_url ≡ some url)
          × (post url (rpc_request K request) ≡ ok (ok json))
          × (result_text K json ≡ some hash))
  unfolding submit_transaction rpc_answer
  submit_transaction-eq-ok_iff post none request hash = (λ h. cc, λ (url, json, e, _, _). cc)
  submit_transaction-eq-ok_iff post (some url) request hash = (
    λ h. elim (Result-cases (post url (rpc_request K request))) [
      | inr (x, e) ↦ absurd (ground arith)
      | inl (response, e) ↦ elim (Result-cases response) [
        | inr (x, e') ↦ absurd (ground arith)
        | inl (json, e') ↦
            (url, json, refl, ground arith, rpc_answer-eq-ok json hash (ground arith))
      ]
    ],
    λ (url', json, same, answered, found). ground arith,
  )

  -- Every failure of a submission is an internal error, a 500.
  pub submit_transaction-status :
      (post : Rpc K) (rpc_url : Option String) (request : BroadcastTransactionRequest K)
      (e : AppError)
      → submit_transaction K post rpc_url request ≡ err e
      → status_code e ≡ 500
  unfolding submit_transaction
  submit_transaction-status post rpc_url request e h = grind arith
