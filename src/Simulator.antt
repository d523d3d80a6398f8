-- ===== src/Simulator.antt =====
-- src/service.rs, `TransactionSimulator` and `StaticSimulator`.
pub mod Laws
use ai_wallet.Prelude.{
  ℕ, ◌+◌, ◌*◌, ◌%◌, String, Bool, true, false, not, ◌&&◌, List, [], ◌∷◌, ◌++◌, Option, none, some,
  Result, ok, ◌>>=◌, ◌>>◌, ltb, leb, if◌then◌else◌, length,
}
use ai_wallet.Number.{u64_bound}
use ai_wallet.Crates.{Crates, Bytes}
use ai_wallet.Error.{AppError}
use ai_wallet.Fields.{parse_address, parse_u256, parse_bytes_hex}
use ai_wallet.Model.{
  SimulationMode, static, rpc, SimulateTransactionRequest, SimulateTransactionResponse,
}

-- The trait.
pub record TransactionSimulator : Type 0 where
  pub simulate : SimulateTransactionRequest → Result SimulateTransactionResponse AppError

abbrev pub StaticSimulator : Type 0
StaticSimulator = record { rpc_url : Option String }

abbrev is_nil : Bytes → Bool
is_nil [] = true
is_nil (b ∷ bs) = false

abbrev is_some {ℓ} : {A : Type ℓ} → Option A → Bool
is_some none = false
is_some (some a) = true

-- Of `u64`: a byte costs 16, and the sum wraps.
unfoldable pub estimate_gas : Bytes → ℕ
estimate_gas bytes = if is_nil bytes then 21_000 else (21_000 + length bytes * 16) % u64_bound

abbrev pub low_gas : String
low_gas = "gas_limit is below the minimum for a basic EVM transfer"

abbrev pub low_call_gas : String
low_call_gas = "contract call has low gas_limit for non-empty calldata"

abbrev pub no_rpc_url : String
no_rpc_url = "AI_WALLET_RPC_URL is not set; using static simulation instead of live RPC"

abbrev push_if : Bool → String → List String
push_if b w = if b then w ∷ [] else []

unfoldable pub warnings_for : StaticSimulator → ℕ → Bytes → List String
warnings_for self gas_limit bytes =
    push_if (ltb gas_limit 21_000) low_gas
    ++ (push_if (not (is_nil bytes) && ltb gas_limit 50_000) low_call_gas
        ++ push_if (not (is_some self.rpc_url)) no_rpc_url)

module _ (K : Crates) where
  unfoldable pub simulate :
      StaticSimulator → SimulateTransactionRequest → Result SimulateTransactionResponse AppError
  simulate self req = do
    _ ← parse_address K req.from_address
    _ ← parse_address K req.to
    _ ← parse_u256 K "value_wei" req.value_wei
    bytes ← parse_bytes_hex K "data_hex" req.data_hex
    ok (record {
      mode = if is_some self.rpc_url then rpc else static;
      success = leb (estimate_gas bytes) req.gas_limit;
      estimated_gas = estimate_gas bytes;
      warnings = warnings_for self req.gas_limit bytes;
    })

  abbrev pub static_simulator : StaticSimulator → TransactionSimulator
  static_simulator self = record { simulate = simulate self }
