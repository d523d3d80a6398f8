-- ===== src/Signer/Remote.antt =====
-- src/signer_rpc.rs, the client of the remote signer and the handler of the signer worker. HTTP over
-- mutual TLS is a parameter: what `send` answers to a POST of a request at an address.
pub mod Refinement
use ai_wallet.Prelude.{
  ℕ, String, Result, ok, err, map_err, ◌>>=◌, ◌>>◌, ◌⧺◌, fail_if, not, trim_end_matches,
}
use ai_wallet.Crates.{Crates}
use ai_wallet.Error.{AppError, signer_unavailable}
use ai_wallet.Model.{SignedArtifact, SignerRpcSignRequest, SignerRpcSignResponse, isolated_signer}
use ai_wallet.Signer.{SignerEnvelope, SignerGateway, LocalDevSigner, local_sign}

-- A response of the worker: its status, and what reading its body as JSON gives.
pub record RpcResponse : Type 0 where
  pub status : ℕ
  pub json : Result SignerRpcSignResponse String

abbrev pub sign_path : String
sign_path = "/v1/signer/sign"

unfoldable pub sign_url : String → String
unfolding trim_end_matches
sign_url base_url = trim_end_matches b'/' base_url ⧺ sign_path

module _ (K : Crates) where
  -- `reqwest::Client`, with `post(url).json(&request).send()`.
  abbrev pub Send : Type 0
  Send = String → SignerRpcSignRequest K → Result RpcResponse String

  pub record RemoteSignerClient : Type 0 where
    pub base_url : String
    pub client : Send

  unfoldable pub request_signature :
      RemoteSignerClient → SignerRpcSignRequest K → Result SignedArtifact AppError
  request_signature self request = do
    response ←
        map_err (λ e. signer_unavailable ("signer RPC request failed: " ⧺ e))
          (self.client (sign_url self.base_url) request)
    fail_if (not (K.is_success response.status))
        (signer_unavailable ("signer RPC returned HTTP " ⧺ K.show_status response.status))
    payload ← map_err (λ e. signer_unavailable ("invalid signer RPC response: " ⧺ e)) response.json
    ok payload.signed_artifact

  unfoldable pub to_request : SignerEnvelope K → SignerRpcSignRequest K
  to_request envelope = record {
    request_id = envelope.request_id;
    tenant_id = envelope.tenant_id;
    wallet_id = envelope.wallet_id;
    chain_id = envelope.chain_id;
    from_address = envelope.from_address;
    payload = envelope.payload;
  }

  unfoldable pub remote_sign :
      RemoteSignerClient → SignerEnvelope K → Result SignedArtifact AppError
  unfolding request_signature to_request
  remote_sign self envelope = request_signature self (to_request envelope)

  abbrev pub remote_signer : RemoteSignerClient → SignerGateway K
  remote_signer self = record { sign = remote_sign self; execution_mode = isolated_signer }

  unfoldable pub to_envelope : SignerRpcSignRequest K → SignerEnvelope K
  to_envelope request = record {
    request_id = request.request_id;
    tenant_id = request.tenant_id;
    wallet_id = request.wallet_id;
    chain_id = request.chain_id;
    from_address = request.from_address;
    payload = request.payload;
  }

  -- The handler behind the worker's one route.
  unfoldable pub worker_sign :
      LocalDevSigner K → SignerRpcSignRequest K → Result SignerRpcSignResponse AppError
  unfolding to_envelope
  worker_sign signer request = do
    signed_artifact ← local_sign K signer (to_envelope request)
    ok (record { signed_artifact = signed_artifact })
