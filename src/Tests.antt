-- ===== src/Tests.antt =====
-- The unit tests of the policy, the transfer and the simulator in src/service.rs, over any crates. A
-- test answers the Boolean that it asserts, and `expect` passes an error on.
mod Service
mod Signatures
mod Guard
mod Queue
use Prim.Native.Char.{code}
use ai_wallet.Prelude.{
  String, Bool, true, false, not, List, [], ◌∷◌, ◌&&◌, ◌||◌, ◌==◌, none, some, Result, ok, ◌>>=◌,
}
use ai_wallet.Crates.{Crates}
use ai_wallet.Error.{AppError}
use ai_wallet.Model.{
  OperationKind, transfer_native, transfer_erc20, PolicyDecision, requires_review, SimulationMode,
  static, erc20, SignPayload, SignIntentRequest, PrepareTransferRequest, SimulateTransactionRequest,
}
use ai_wallet.Policy.{evaluate}
use ai_wallet.Transfer.{prepare_transfer}
use ai_wallet.Simulator.{simulate}

abbrev is_requires_review : PolicyDecision → Bool
is_requires_review requires_review = true
is_requires_review _ = false

abbrev is_transfer_erc20 : OperationKind → Bool
is_transfer_erc20 transfer_erc20 = true
is_transfer_erc20 _ = false

abbrev is_static : SimulationMode → Bool
is_static static = true
is_static _ = false

abbrev is_nil {ℓ} : {A : Type ℓ} → List A → Bool
is_nil [] = true
is_nil (a ∷ l) = false

abbrev pub starts_with : String → String → Bool
starts_with String.[] s = true
starts_with (String.◌∷◌ c p) String.[] = false
starts_with (String.◌∷◌ c p) (String.◌∷◌ d s) = code c == code d && starts_with p s

abbrev pub erc20_transfer : PrepareTransferRequest
erc20_transfer = record {
  chain_id = 1;
  from_address = "0x8f3a20f605217d87DcC2f1F7c36c08f007550961";
  to_address = "0x1111111111111111111111111111111111111111";
  asset = erc20 "0x2222222222222222222222222222222222222222" 18;
  amount = "1000000000000000000";
  gas_limit = none;
  max_fee_per_gas_wei = none;
  max_priority_fee_per_gas_wei = none;
  nonce = some 9;
}

abbrev pub low_gas_call : SimulateTransactionRequest
low_gas_call = record {
  chain_id = 1;
  from_address = "0x8f3a20f605217d87DcC2f1F7c36c08f007550961";
  to = "0x1111111111111111111111111111111111111111";
  value_wei = "0";
  data_hex = "0x";
  gas_limit = 20_000;
}

module _ (K : Crates) where
  abbrev large_value : SignIntentRequest K
  large_value = record {
    tenant_id = "tenant-a";
    wallet_id = "wallet-1";
    chain_id = 1;
    from_address = "0x90f8bf6a479f320ead074411a4b0e7944ea8c9c1";
    operation = transfer_native;
    payload = SignPayload.raw_message "approve";
    policy_context = record {
      actor = "agent";
      purpose = "rebalance";
      source_ip = "127.0.0.1";
      idempotency_key = "abc";
      max_value_wei = "10000000000000001";
    };
  }

  unfoldable pub policy_requires_review_for_large_value : Result Bool AppError
  policy_requires_review_for_large_value = do
    decision ← evaluate K large_value
    ok (is_requires_review decision)

  unfoldable pub prepare_erc20_transfer_calldata : Result Bool AppError
  prepare_erc20_transfer_calldata = do
    result ← prepare_transfer K erc20_transfer
    ok (
        is_transfer_erc20 result.operation
        && starts_with "0xa9059cbb" result.transaction.data_hex
        && result.transaction.gas_limit == 65_000)

  unfoldable pub static_simulation_warns_on_low_gas : Result Bool AppError
  static_simulation_warns_on_low_gas = do
    result ← simulate K (record { rpc_url = none }) low_gas_call
    ok (not result.success && is_static result.mode && not (is_nil result.warnings))
