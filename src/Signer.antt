-- ===== src/Signer.antt =====
-- src/service.rs, the signer boundary: `SignerEnvelope`, `SignerGateway`, `MockSigner` and
-- `LocalDevSigner`. The client of the remote signer and its worker are in Signer/Remote.
pub mod Remote
pub mod Tls
pub mod RoundTrip
pub mod Scope
pub mod Worker
use ai_wallet.Prelude.{
  ℕ, String, Option, Result, ok, err, map_err, ok_or, ◌>>=◌, ◌>>◌, ◌⧺◌, as_bytes,
}
use ai_wallet.Number.{show_ℕ}
use ai_wallet.Crates.{Crates, Bytes}
use ai_wallet.Error.{AppError, bad_request, signer_unavailable}
use ai_wallet.Fields.{parse_address, parse_u256, parse_bytes_hex}
use ai_wallet.Model.{ExecutionMode, mock, isolated_signer, SignPayload, SignedArtifact}

module _ (K : Crates) where
  pub record SignerEnvelope : Type 0 where
    pub request_id : K.Uuid
    pub tenant_id : String
    pub wallet_id : String
    pub chain_id : ℕ
    pub from_address : String
    pub payload : SignPayload K

  -- The trait: what `sign` answers, a network's answer included, is a value.
  pub record SignerGateway : Type 0 where
    pub sign : SignerEnvelope → Result SignedArtifact AppError
    pub execution_mode : ExecutionMode

  abbrev pub hex_0x : Bytes → String
  hex_0x b = "0x" ⧺ K.hex_encode b

  unfoldable pub mock_digest : SignerEnvelope → String
  mock_digest envelope =
      "mock:"
      ⧺ K.show_uuid envelope.request_id
      ⧺ ":"
      ⧺ show_ℕ envelope.chain_id
      ⧺ ":"
      ⧺ envelope.wallet_id
      ⧺ ":"
      ⧺ envelope.from_address
      ⧺ ":"
      ⧺ envelope.tenant_id

  unfoldable pub mock_sign : SignerEnvelope → Result SignedArtifact AppError
  unfolding mock_digest
  mock_sign envelope = ok (record {
    signature_hex = hex_0x (as_bytes ("signed:" ⧺ mock_digest envelope));
    digest_hex = hex_0x (as_bytes (mock_digest envelope));
  })

  abbrev pub mock_signer : SignerGateway
  mock_signer = record { sign = mock_sign; execution_mode = mock }

  abbrev pub LocalDevSigner : Type 0
  LocalDevSigner = record { private_key : Option String }

  unfoldable pub wallet : LocalDevSigner → ℕ → Result K.LocalWallet AppError
  wallet self chain_id = do
    key ←
        ok_or (signer_unavailable "AI_WALLET_DEV_PRIVATE_KEY is required for local-dev signer mode")
          self.private_key
    w ← map_err (λ e. signer_unavailable ("invalid dev private key: " ⧺ e)) (K.wallet_from_str key)
    ok (K.with_chain_id w chain_id)

  abbrev artifact : K.Signature → Bytes → SignedArtifact
  artifact signature digest = record {
    signature_hex = K.show_signature signature;
    digest_hex = hex_0x digest;
  }

  -- The three arms of the match on the payload.
  unfoldable pub sign_payload :
      K.LocalWallet → ℕ → String → SignPayload K → Result SignedArtifact AppError
  unfolding parse_address parse_u256 parse_bytes_hex
  sign_payload w chain_id from_address (SignPayload.raw_message message) = do
    let digest = K.hash_message message
    signature ←
        map_err (λ e. signer_unavailable ("sign_message failed: " ⧺ e)) (K.sign_message w message)
    ok (artifact signature digest)
  sign_payload w chain_id from_address (SignPayload.typed_data value) = do
    typed_data ←
        map_err (λ e. bad_request ("invalid typed_data payload: " ⧺ e))
          (K.typed_data_from_value value)
    digest ←
        map_err (λ e. bad_request ("typed data digest failed: " ⧺ e)) (K.encode_eip712 typed_data)
    signature ←
        map_err (λ e. signer_unavailable ("sign_typed_data failed: " ⧺ e))
          (K.sign_typed_data w typed_data)
    ok (artifact signature digest)
  sign_payload w chain_id from_address
        (SignPayload.transaction to value_wei data_hex gas_limit max_fee max_priority_fee nonce) =
      do
        from_ ← parse_address K from_address
        to_ ← parse_address K to
        value ← parse_u256 K "value_wei" value_wei
        calldata ← parse_bytes_hex K "data_hex" data_hex
        max_fee_per_gas ← parse_u256 K "max_fee_per_gas_wei" max_fee
        max_priority_fee_per_gas ← parse_u256 K "max_priority_fee_per_gas_wei" max_priority_fee
        let tx =
            K.eip1559 from_ to_ (K.u256_from_u64 gas_limit) value calldata (K.u256_from_u64 nonce)
              max_fee_per_gas max_priority_fee_per_gas chain_id
        signature ←
            map_err (λ e. signer_unavailable ("sign_transaction failed: " ⧺ e))
              (K.sign_transaction w tx)
        ok (artifact signature (K.sighash tx))

  unfoldable pub local_sign : LocalDevSigner → SignerEnvelope → Result SignedArtifact AppError
  local_sign self envelope = do
    w ← wallet self envelope.chain_id
    sign_payload w envelope.chain_id envelope.from_address envelope.payload

  abbrev pub local_dev_signer : LocalDevSigner → SignerGateway
  local_dev_signer self = record { sign = local_sign self; execution_mode = isolated_signer }
