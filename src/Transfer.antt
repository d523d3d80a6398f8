-- ===== src/Transfer.antt =====
-- src/service.rs, `prepare_transfer`.
pub mod Ready
pub mod Signed
pub mod Prepared
use ai_wallet.Prelude.{
  ℕ, String, List, [], ◌∷◌, ◌++◌, Result, ok, fail_if, ◌>>=◌, ◌>>◌, ◌==◌, ◌⧺◌, unwrap_or, take,
}
use ai_wallet.Crates.{Crates, Bytes}
use ai_wallet.Error.{AppError, bad_request}
use ai_wallet.Fields.{parse_address, parse_u256}
use ai_wallet.Model.{
  OperationKind, transfer_native, transfer_erc20, TransferAsset, native, erc20,
  PrepareTransferRequest, PreparedTransaction, PrepareTransferResponse,
}

-- The tuple that the match on the asset gives.
pub record Parts : Type 0 where
  pub operation : OperationKind
  pub to : String
  pub value_wei : String
  pub data_hex : String
  pub gas_limit : ℕ

abbrev pub native_gas : ℕ
native_gas = 21_000

abbrev pub erc20_gas : ℕ
erc20_gas = 65_000

module _ (K : Crates) where
  -- The selector of `transfer(address,uint256)` and its two encoded arguments.
  unfoldable pub calldata : K.Address → K.U256 → Bytes
  calldata recipient amount =
      take 4 (K.id "transfer(address,uint256)")
      ++ K.abi_encode (K.token_address recipient ∷ K.token_uint amount ∷ [])

  unfoldable pub transfer_parts : PrepareTransferRequest → TransferAsset → Result Parts AppError
  transfer_parts req native = do
    to ← parse_address K req.to_address
    _ ← parse_u256 K "amount" req.amount
    ok (record {
      operation = transfer_native;
      to = K.show_address to;
      value_wei = req.amount;
      data_hex = "0x";
      gas_limit = unwrap_or native_gas req.gas_limit;
    })
  transfer_parts req (erc20 token_address _) = do
    token ← parse_address K token_address
    recipient ← parse_address K req.to_address
    amount ← parse_u256 K "amount" req.amount
    ok (record {
      operation = transfer_erc20;
      to = K.show_address token;
      value_wei = "0";
      data_hex = "0x" ⧺ K.hex_encode (calldata recipient amount);
      gas_limit = unwrap_or erc20_gas req.gas_limit;
    })

  unfoldable pub prepare_transfer : PrepareTransferRequest → Result PrepareTransferResponse AppError
  prepare_transfer req = do
    fail_if (req.chain_id == 0) (bad_request "chain_id must be non-zero")
    _ ← parse_address K req.from_address
    parts ← transfer_parts req req.asset
    ok (record {
      operation = parts.operation;
      transaction = record {
        to = parts.to;
        value_wei = parts.value_wei;
        data_hex = parts.data_hex;
        gas_limit = parts.gas_limit;
        max_fee_per_gas_wei = unwrap_or "30000000000" req.max_fee_per_gas_wei;
        max_priority_fee_per_gas_wei = unwrap_or "1000000000" req.max_priority_fee_per_gas_wei;
        nonce = unwrap_or 0 req.nonce;
      };
    })
