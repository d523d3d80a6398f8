-- ===== src/Transfer/Signed.antt =====
-- A prepared transfer, given to the dev signer.
use ai_wallet.Prelude.{
  IsOk-eq, ℕ, String, ◌≡◌, none, ok, err, arith, refl, unwrap_or, Result-cases, inl, inr,
}
use ai_wallet.Number.{show_ℕ}
use ai_wallet.Crates.{Crates}
use ai_wallet.Crates.Laws.{EthersLaws, HexLaws}
use ai_wallet.Error.{AppError, status_code}
use ai_wallet.Fields.Ok.{parse_u256-ok}
use ai_wallet.Model.{SignPayload, PrepareTransferRequest, PrepareTransferResponse}
use ai_wallet.Signer.{SignerEnvelope, LocalDevSigner, wallet, sign_payload, local_sign}
use ai_wallet.Signer.Scope.{wallet-status}
use ai_wallet.Transfer.{prepare_transfer}
use ai_wallet.Transfer.Ready.{IsReady, calldata_size, prepare_transfer-IsReady}

show_max_fee : show_ℕ 30_000_000_000 ≡ "30000000000"
unfolding show_ℕ
show_max_fee = refl

show_priority_fee : show_ℕ 1_000_000_000 ≡ "1000000000"
unfolding show_ℕ
show_priority_fee = refl

module _ (K : Crates) where
  prepare_transfer-fees :
      (req : PrepareTransferRequest) (r : PrepareTransferResponse)
      → prepare_transfer K req ≡ ok r
      → (r.transaction.max_fee_per_gas_wei ≡ unwrap_or "30000000000" req.max_fee_per_gas_wei)
        × (r.transaction.max_priority_fee_per_gas_wei
            ≡ unwrap_or "1000000000" req.max_priority_fee_per_gas_wei)
  unfolding prepare_transfer
  prepare_transfer-fees req r h = ground arith

  sign_payload-ready :
      (w : K.LocalWallet) (chain_id n : ℕ) (from to value bytes fee tip : String) (gas nonce : ℕ)
      (u v : K.U256) (e : AppError)
      → IsReady K n from to value bytes
      → K.u256_from_dec_str fee ≡ ok u
      → K.u256_from_dec_str tip ≡ ok v
      → sign_payload K w chain_id from (SignPayload.transaction to value bytes gas fee tip nonce)
        ≡ err e
      → status_code e ≡ 503
  unfolding sign_payload
  sign_payload-ready w chain_id n from to value bytes fee tip gas nonce u v e ready p q h = ground (
    arith,
    ready.sender.1,
    ready.target.1,
    ready.bytes.1,
    parse_u256-ok K "value_wei" value ready.amount.1,
    parse_u256-ok K "max_fee_per_gas_wei" fee p,
    parse_u256-ok K "max_priority_fee_per_gas_wei" tip q,
  )

  -- The dev signer can read every field of a prepared transfer whose fees are left to their
  -- defaults: if it does not sign it, for any tenant, wallet and chain, the error is a 503 of the
  -- signer and never a 400 of the request.
  pub local_sign-prepare_transfer :
      (ethers : EthersLaws K) (hex : HexLaws K) (self : LocalDevSigner K) (env : SignerEnvelope K)
      (req : PrepareTransferRequest) (r : PrepareTransferResponse) (e : AppError)
      → prepare_transfer K req ≡ ok r
      → req.max_fee_per_gas_wei ≡ none
      → req.max_priority_fee_per_gas_wei ≡ none
      → local_sign K self (record env {
        from_address = req.from_address;
        payload =
            SignPayload.transaction r.transaction.to r.transaction.value_wei r.transaction.data_hex
              r.transaction.gas_limit r.transaction.max_fee_per_gas_wei
              r.transaction.max_priority_fee_per_gas_wei r.transaction.nonce;
      })
        ≡ err e
      → status_code e ≡ 503
  unfolding local_sign
  local_sign-prepare_transfer ethers hex self env req r e prepared no_fee no_tip h =
      let (ready, _) = prepare_transfer-IsReady K ethers hex req r prepared in
      let (fee, tip) = prepare_transfer-fees req r prepared in
      let (u, read_fee) = IsOk-eq _ (ethers.u256_of_decimal 30_000_000_000 (omega arith)) in
      let (v, read_tip) = IsOk-eq _ (ethers.u256_of_decimal 1_000_000_000 (omega arith)) in
      elim (Result-cases (wallet K self env.chain_id)) [
        | inr (x, no_key) ↦ ground (arith, wallet-status K self env.chain_id x no_key)
        | inl (w, key) ↦
            sign_payload-ready w env.chain_id (calldata_size req.asset) req.from_address
              r.transaction.to r.transaction.value_wei r.transaction.data_hex
              r.transaction.max_fee_per_gas_wei r.transaction.max_priority_fee_per_gas_wei
              r.transaction.gas_limit r.transaction.nonce u v e ready (ground (arith, show_max_fee))
              (ground (arith, show_priority_fee)) (ground arith)
      ]
