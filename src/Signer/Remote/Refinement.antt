-- ===== src/Signer/Remote/Refinement.antt =====
-- The remote signer, seen through the RPC, against the worker's dev signer.
use ai_wallet.Prelude.{
  String, false, ◌≡◌, Result, ok, err, map_err, arith, ◌⧺◌, Result-cases, inl, inr,
}
use ai_wallet.Crates.{Crates}
use ai_wallet.Crates.Laws.{HttpLaws}
use ai_wallet.Error.{AppError, status_code, signer_unavailable}
use ai_wallet.Model.{SignerRpcSignRequest, SignerRpcSignResponse}
use ai_wallet.Signer.{SignerEnvelope, LocalDevSigner, local_sign}
use ai_wallet.Signer.Remote.{
  RpcResponse, RemoteSignerClient, sign_url, to_request, remote_sign, worker_sign,
}

-- What axum makes of the worker's result: 200 with the body, or the error's status with a body
-- that is no `SignerRpcSignResponse`, so that reading it fails with the text `unread`.
abbrev pub reply : String → Result SignerRpcSignResponse AppError → RpcResponse
reply unread (ok r) = record { status = 200; json = ok r }
reply unread (err e) = record { status = status_code e; json = err unread }

module _ (K : Crates) where
  -- The client's connection ends at the worker: a POST at the client's address is answered by it.
  abbrev pub ReachesWorker : RemoteSignerClient K → LocalDevSigner K → String → Type 0
  ReachesWorker self signer unread =
      (request : SignerRpcSignRequest K)
      → self.client (sign_url self.base_url) request
        ≡ ok (reply unread (worker_sign K signer request))

  abbrev pub remote_error : AppError → AppError
  remote_error e = signer_unavailable ("signer RPC returned HTTP " ⧺ K.show_status (status_code e))

  error-not-success : HttpLaws K → (e : AppError) → K.is_success (status_code e) ≡ false
  error-not-success http (AppError.bad_request m) = http.success_iff 400
  error-not-success http (AppError.unauthorized m) = http.success_iff 401
  error-not-success http (AppError.policy_denied m) = http.success_iff 403
  error-not-success http (AppError.signer_unavailable m) = http.success_iff 503
  error-not-success http (AppError.internal m) = http.success_iff 500

  -- Through a connection that reaches the worker, the remote signer signs exactly what the worker's
  -- dev signer signs, with the same artifact; each of its errors becomes a 503 that names the
  -- worker's status.
  pub remote_sign-local_sign :
      (http : HttpLaws K) (self : RemoteSignerClient K) (signer : LocalDevSigner K)
      (unread : String) (env : SignerEnvelope K)
      → ReachesWorker self signer unread
      → remote_sign K self env ≡ map_err remote_error (local_sign K signer env)
  unfolding remote_sign worker_sign
  remote_sign-local_sign http self signer unread env reaches =
      elim (Result-cases (local_sign K signer env)) [
        | inl (a, e) ↦ rw (reaches (to_request K env)) (ground (arith, http.success_iff 200))
        | inr (x, e) ↦ rw (reaches (to_request K env)) (ground (arith, error-not-success http x))
      ]
