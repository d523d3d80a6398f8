-- ===== src/Simulator/Laws.antt =====
-- What the static simulator answers, prepared transfers included.
use ai_wallet.Prelude.{
  ℕ, ◌+◌, ◌*◌, [], ◌∷◌, ◌≡◌, ◌≢◌, ◌↔◌, ◌⊎◌, ◌<◌, ◌≤◌, none, true, ok, arith, refl, length,
  if◌then◌else◌, leb, leb→le, ap, ◌∙◌,
}
use ai_wallet.Number.{u64_bound}
use ai_wallet.Crates.{Crates, Bytes}
use ai_wallet.Crates.Laws.{EthersLaws, HexLaws}
use ai_wallet.Fields.{parse_bytes_hex}
use ai_wallet.Fields.Ok.{parse_u256-ok}
use ai_wallet.Model.{
  static, rpc, TransferAsset, native, erc20, SimulateTransactionRequest,
  SimulateTransactionResponse, PrepareTransferRequest, PrepareTransferResponse,
}
use ai_wallet.Transfer.{prepare_transfer}
use ai_wallet.Transfer.Ready.{IsReady, default_gas, calldata_size, prepare_transfer-IsReady}
use ai_wallet.Simulator.{StaticSimulator, no_rpc_url, is_some, estimate_gas, warnings_for, simulate}

-- 21000 for the transaction and 16 for each byte of calldata; the bound says that the sum is a u64.
pub estimate_gas_lem :
    (b : Bytes) → 21_000 + length b * 16 < u64_bound → estimate_gas b ≡ 21_000 + length b * 16
unfolding estimate_gas
estimate_gas_lem [] h = refl
estimate_gas_lem (x ∷ b) h = ground arith

warnings_nil_iff :
    (self : StaticSimulator) (gas : ℕ) (b : Bytes)
    → (warnings_for self gas b ≡ [])
      ↔ ((self.rpc_url ≢ none) × (21_000 ≤ gas) × ((b ≡ []) ⊎ (50_000 ≤ gas)))
unfolding warnings_for
warnings_nil_iff self gas b = ground arith

abbrev pub response : StaticSimulator → ℕ → Bytes → SimulateTransactionResponse
response self gas_limit b = record {
  mode = if is_some self.rpc_url then rpc else static;
  success = leb (estimate_gas b) gas_limit;
  estimated_gas = estimate_gas b;
  warnings = warnings_for self gas_limit b;
}

response-default :
    (self : StaticSimulator) (asset : TransferAsset) (b : Bytes)
    → length b ≡ calldata_size asset
    → response self (default_gas asset) b ≡ record {
      mode = if is_some self.rpc_url then rpc else static;
      success = true;
      estimated_gas = 21_000 + calldata_size asset * 16;
      warnings = if is_some self.rpc_url then [] else no_rpc_url ∷ [];
    }
unfolding warnings_for estimate_gas
response-default self native [] h = ground arith
response-default self native (x ∷ b) h = absurd (omega arith)
response-default self (erc20 t d) [] h = absurd (omega arith)
response-default self (erc20 t d) (x ∷ b) h = ground (arith, estimate_gas_lem (x ∷ b) (omega arith))

module _ (K : Crates) where
  -- A request whose fields can be read is answered.
  pub simulate_lem :
      (self : StaticSimulator) (req : SimulateTransactionRequest) (n : ℕ)
      (ready : IsReady K n req.from_address req.to req.value_wei req.data_hex)
      → simulate K self req ≡ ok (response self req.gas_limit ready.bytes.0)
  unfolding simulate
  simulate_lem self req n ready =
      let (from, e) = ready.sender in
      let (to, e') = ready.target in
      let (u, e'') = ready.amount in
      rw e (rw e' (rw (parse_u256-ok K "value_wei" req.value_wei e'') (rw ready.bytes.1)))

  simulate-eq-response :
      (self : StaticSimulator) (req : SimulateTransactionRequest) (r : SimulateTransactionResponse)
      (b : Bytes)
      → simulate K self req ≡ ok r
      → parse_bytes_hex K "data_hex" req.data_hex ≡ ok b
      → r ≡ response self req.gas_limit b
  unfolding simulate
  simulate-eq-response self req r b h read = ground arith

  -- The simulation of a call with bytes of calldata estimates 21000 and 16 for each byte, succeeds
  -- exactly when the gas limit covers the estimate, and warns of nothing exactly when a RPC is
  -- configured, the limit reaches 21000, and it reaches 50000 where there is calldata. The bound
  -- says that the estimate fits a u64.
  pub simulate_answer :
      (self : StaticSimulator) (req : SimulateTransactionRequest) (r : SimulateTransactionResponse)
      (b : Bytes)
      → simulate K self req ≡ ok r
      → parse_bytes_hex K "data_hex" req.data_hex ≡ ok b
      → 21_000 + length b * 16 < u64_bound
      → (r.estimated_gas ≡ 21_000 + length b * 16)
        × ((r.success ≡ true) ↔ (21_000 + length b * 16 ≤ req.gas_limit))
        × ((r.warnings ≡ []) ↔ (
            (self.rpc_url ≢ none)
            × (21_000 ≤ req.gas_limit)
            × ((b ≡ []) ⊎ (50_000 ≤ req.gas_limit))))
  simulate_answer self req r b h read fits =
      let same = simulate-eq-response self req r b h read in
      let cost = estimate_gas_lem b fits in
      rw same (
        rw cost
          (refl, ((λ e. leb→le _ _ e), λ e. ground arith), warnings_nil_iff self req.gas_limit b))

  -- A prepared transfer passes the simulation: whatever asset it moves, with the gas limit left to
  -- its default it succeeds, and the one warning that it can get is the one on the missing RPC.
  pub simulate-prepare_transfer :
      (ethers : EthersLaws K) (hex : HexLaws K) (self : StaticSimulator)
      (req : PrepareTransferRequest) (r : PrepareTransferResponse) (chain_id : ℕ)
      → prepare_transfer K req ≡ ok r
      → req.gas_limit ≡ none
      → simulate K self (record {
        chain_id = chain_id;
        from_address = req.from_address;
        to = r.transaction.to;
        value_wei = r.transaction.value_wei;
        data_hex = r.transaction.data_hex;
        gas_limit = r.transaction.gas_limit;
      })
        ≡ ok (record {
          mode = if is_some self.rpc_url then rpc else static;
          success = true;
          estimated_gas = 21_000 + calldata_size req.asset * 16;
          warnings = if is_some self.rpc_url then [] else no_rpc_url ∷ [];
        })
  simulate-prepare_transfer ethers hex self req r chain_id prepared default =
      let (ready, gas) = prepare_transfer-IsReady K ethers hex req r prepared in
      let gas_limit : r.transaction.gas_limit ≡ default_gas req.asset = rw default at gas in
      simulate_lem self _ (calldata_size req.asset) ready
      ∙ rw gas_limit (ap ok (response-default self req.asset ready.bytes.0 ready.bytes.2))
