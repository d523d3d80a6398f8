-- ===== src/Verify.antt =====
-- src/service.rs, `verify_message` and `verify_typed_data`.
pub mod Laws
pub mod Typed
use ai_wallet.Prelude.{Result, ok, err, map_err, ◌>>=◌, ◌>>◌, ◌⧺◌, true, false}
use mathlib.Core.Logic.{ite}
use ai_wallet.Crates.{Crates}
use ai_wallet.Error.{AppError, bad_request}
use ai_wallet.Fields.{parse_address}
use ai_wallet.Model.{
  VerifyMessageRequest, VerifyMessageResponse, VerifyTypedDataRequest, VerifyTypedDataResponse,
  eip712,
}

module _ (K : Crates) where
  unfoldable pub verify_message : VerifyMessageRequest → Result VerifyMessageResponse AppError
  unfolding parse_address
  verify_message req = do
    signature ←
        map_err (λ e. bad_request ("invalid signature: " ⧺ e))
          (K.signature_from_str req.signature_hex)
    expected ← parse_address K req.expected_address
    let digest = K.hash_message req.message
    recovered ←
        map_err (λ e. bad_request ("failed to recover signer: " ⧺ e)) (K.recover signature digest)
    ok (record {
      valid = ite (K.address_eq recovered expected) true false;
      recovered_address = K.show_address recovered;
      chain_id = req.chain_id;
      encoding = req.encoding;
    })

  unfoldable pub verify_typed_data :
      VerifyTypedDataRequest K → Result VerifyTypedDataResponse AppError
  unfolding parse_address
  verify_typed_data req = do
    signature ←
        map_err (λ e. bad_request ("invalid signature: " ⧺ e))
          (K.signature_from_str req.signature_hex)
    expected ← parse_address K req.expected_address
    typed_data ←
        map_err (λ e. bad_request ("invalid typed_data payload: " ⧺ e))
          (K.typed_data_from_value req.typed_data)
    digest ←
        map_err (λ e. bad_request ("typed data digest failed: " ⧺ e)) (K.encode_eip712 typed_data)
    recovered ←
        map_err (λ e. bad_request ("failed to recover signer: " ⧺ e)) (K.recover signature digest)
    ok (record {
      valid = ite (K.address_eq recovered expected) true false;
      recovered_address = K.show_address recovered;
      chain_id = req.chain_id;
      encoding = eip712;
      digest_hex = "0x" ⧺ K.hex_encode digest;
    })
