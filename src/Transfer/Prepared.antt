-- ===== src/Transfer/Prepared.antt =====
-- When a transfer can be prepared.
use ai_wallet.Prelude.{
  String, ◌≡◌, ◌≢◌, ◌↔◌, ◌==◌, Bool-cases, inl, inr, false, Result-cases, ok, arith, IsOk, IsOk-eq,
}
use ai_wallet.Crates.{Crates}
use ai_wallet.Fields.{parse_address, parse_u256}
use ai_wallet.Model.{TransferAsset, native, erc20, PrepareTransferRequest, PrepareTransferResponse}
use ai_wallet.Transfer.{Parts, transfer_parts, prepare_transfer}

module _ (K : Crates) where
  abbrev IsAddress : String → Type 0
  IsAddress s = (a : K.Address) × (K.address_from_str s ≡ ok a)

  -- A token is named by an address.
  abbrev NamesToken : TransferAsset → Type 0
  NamesToken native = Unit
  NamesToken (erc20 token_address _) = IsAddress token_address

  pub record IsPreparable (req : PrepareTransferRequest) : Type 0 where
    pub chain : req.chain_id ≢ 0
    pub sender : IsAddress req.from_address
    pub recipient : IsAddress req.to_address
    pub amount : (u : K.U256) × (K.u256_from_dec_str req.amount ≡ ok u)
    pub token : NamesToken req.asset

  parse_address-eq-ok :
      (s : String) {a : K.Address} → parse_address K s ≡ ok a → K.address_from_str s ≡ ok a
  unfolding parse_address
  parse_address-eq-ok s e = ground arith

  transfer_parts-inputs :
      (req : PrepareTransferRequest) (asset : TransferAsset) (parts : Parts)
      → transfer_parts K req asset ≡ ok parts
      → IsAddress req.to_address
        × ((u : K.U256) × (K.u256_from_dec_str req.amount ≡ ok u))
        × NamesToken asset
  unfolding transfer_parts parse_address parse_u256
  transfer_parts-inputs req native parts h =
      elim (Result-cases (K.address_from_str req.to_address)) [
        | inr (x, p) ↦ absurd (ground arith)
        | inl (to, p) ↦ elim (Result-cases (K.u256_from_dec_str req.amount)) [
          | inr (x, q) ↦ absurd (ground arith)
          | inl (u, q) ↦ ((to, p), (u, q), tt)
        ]
      ]
  transfer_parts-inputs req (erc20 token_address decimals) parts h =
      elim (Result-cases (K.address_from_str token_address)) [
        | inr (x, t) ↦ absurd (ground arith)
        | inl (token, t) ↦ elim (Result-cases (K.address_from_str req.to_address)) [
          | inr (x, p) ↦ absurd (ground arith)
          | inl (to, p) ↦ elim (Result-cases (K.u256_from_dec_str req.amount)) [
            | inr (x, q) ↦ absurd (ground arith)
            | inl (u, q) ↦ ((to, p), (u, q), (token, t))
          ]
        ]
      ]

  transfer_parts-total :
      (req : PrepareTransferRequest) (asset : TransferAsset)
      → IsAddress req.to_address
      → (u : K.U256) × (K.u256_from_dec_str req.amount ≡ ok u)
      → NamesToken asset
      → IsOk (transfer_parts K req asset)
  unfolding transfer_parts parse_address parse_u256
  transfer_parts-total req native (to, p) (u, q) _ = rw p (rw q tt)
  transfer_parts-total req (erc20 token_address decimals) (to, p) (u, q) (token, t) =
      rw t (rw p (rw q tt))

  preparable :
      (req : PrepareTransferRequest) (r : PrepareTransferResponse)
      → prepare_transfer K req ≡ ok r
      → IsPreparable req
  unfolding prepare_transfer
  preparable req r h = elim (Bool-cases (req.chain_id == 0)) [
    | inl zero_chain ↦ absurd (ground arith)
    | inr chain ↦ elim (Result-cases (parse_address K req.from_address)) [
      | inr (x, p) ↦ absurd (ground arith)
      | inl (sender, p) ↦ elim (Result-cases (transfer_parts K req req.asset)) [
        | inr (x, q) ↦ absurd (ground arith)
        | inl (parts, q) ↦
            let (recipient, amount, token) = transfer_parts-inputs req req.asset parts q in
            record {
              chain = ground arith;
              sender = (sender, parse_address-eq-ok req.from_address p);
              recipient = recipient;
              amount = amount;
              token = token;
            }
      ]
    ]
  ]

  prepares : (req : PrepareTransferRequest) → IsPreparable req → IsOk (prepare_transfer K req)
  unfolding prepare_transfer parse_address
  prepares req h =
      let (parts, q) =
        IsOk-eq (transfer_parts K req req.asset)
          (transfer_parts-total req req.asset h.recipient h.amount h.token) in
      let nonzero = h.chain in
      let chain : (req.chain_id == 0) ≡ false = ground arith in rw chain (rw h.sender.1 (rw q tt))

  -- A transfer is prepared exactly when the chain is not zero, the sender, the recipient and the
  -- token's address, if a token moves, are addresses, and the amount is a number.
  pub prepare_transfer-eq-ok_iff :
      (req : PrepareTransferRequest)
      → ((r : PrepareTransferResponse) × (prepare_transfer K req ≡ ok r)) ↔ IsPreparable req
  prepare_transfer-eq-ok_iff req =
      (λ (r, h). preparable req r h, λ h. IsOk-eq (prepare_transfer K req) (prepares req h))
