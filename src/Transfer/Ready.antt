-- ===== src/Transfer/Ready.antt =====
-- A prepared transfer, as the simulator and the signer read it.
use ai_wallet.Prelude.{
  IsOk-eq, ℕ, unwrap_or, ◌∙◌, zero, suc, String, List, [], ◌∷◌, ◌≡◌, inl, inr, ok, arith, refl,
  Result-cases, length, take, All, All-append, length-append, length-take,
}
use ai_wallet.Number.{show_ℕ}
use ai_wallet.Crates.{Crates, Bytes}
use ai_wallet.Crates.Laws.{EthersLaws, HexLaws, IsBytes}
use ai_wallet.Fields.{parse_address, parse_u256, parse_bytes_hex}
use ai_wallet.Fields.Ok.{parse_u256-eq-ok, parse_address-show}
use ai_wallet.Fields.Hex.{parse_bytes_hex-encode, parse_bytes_hex-empty}
use ai_wallet.Model.{TransferAsset, native, erc20, PrepareTransferRequest, PrepareTransferResponse}
use ai_wallet.Transfer.{native_gas, erc20_gas, Parts, calldata, transfer_parts, prepare_transfer}

-- Bytes of calldata: none, or a selector and two words.
abbrev pub calldata_size : TransferAsset → ℕ
calldata_size native = 0
calldata_size (erc20 _ _) = 68

abbrev pub default_gas : TransferAsset → ℕ
default_gas native = native_gas
default_gas (erc20 _ _) = erc20_gas

-- Every field of the transaction can be read, and its calldata has `n` bytes.
pub record IsReady (K : Crates) (n : ℕ) (from : String) (to value data_hex : String) : Type 0 where
  pub sender : (a : K.Address) × (parse_address K from ≡ ok a)
  pub target : (a : K.Address) × (parse_address K to ≡ ok a)
  pub amount : (u : K.U256) × (K.u256_from_dec_str value ≡ ok u)
  pub bytes : (b : Bytes) × (parse_bytes_hex K "data_hex" data_hex ≡ ok b) × (length b ≡ n)

All-take {ℓ κ} : {A : Type ℓ} (P : A → Type κ) (n : ℕ) (xs : List A) → All P xs → All P (take n xs)
All-take P zero xs h = tt
All-take P (suc n) [] h = tt
All-take P (suc n) (x ∷ xs) h = (h.0, All-take P n xs h.1)

show_zero : show_ℕ 0 ≡ "0"
unfolding show_ℕ
show_zero = refl

module _ (K : Crates) (ethers : EthersLaws K) (hex : HexLaws K) where
  calldata-IsBytes : (a : K.Address) (u : K.U256) → IsBytes (calldata K a u)
  unfolding calldata
  calldata-IsBytes a u = All-append _ _ _ (All-take _ 4 _ (ethers.id_bytes _)) (ethers.abi_bytes _)

  length-calldata : (a : K.Address) (u : K.U256) → length (calldata K a u) ≡ 68
  unfolding calldata
  length-calldata a u = omega (
    arith,
    length-append (take 4 (K.id "transfer(address,uint256)"))
        (K.abi_encode (K.token_address a ∷ K.token_uint u ∷ [])),
    length-take 4 (K.id "transfer(address,uint256)"),
    ethers.id_length "transfer(address,uint256)",
    ethers.abi_length a u,
  )

  transfer_parts-IsReady :
      (req : PrepareTransferRequest) (asset : TransferAsset) (p : Parts) {f : K.Address}
      → parse_address K req.from_address ≡ ok f
      → transfer_parts K req asset ≡ ok p
      → IsReady K (calldata_size asset) req.from_address p.to p.value_wei p.data_hex
  unfolding transfer_parts
  transfer_parts-IsReady req native p from h =
      elim (Result-cases (parse_address K req.to_address)) [
        | inr (x, e) ↦ absurd (ground arith)
        | inl (a, e) ↦ elim (Result-cases (parse_u256 K "amount" req.amount)) [
          | inr (x, e') ↦ absurd (ground arith)
          | inl (u, e') ↦ record {
            sender = (_, from);
            target = (a, ground (arith, parse_address-show K ethers a));
            amount = (u, ground (arith, parse_u256-eq-ok K "amount" req.amount e'));
            bytes = ([], ground (arith, parse_bytes_hex-empty K hex "data_hex"), refl);
          }
        ]
      ]
  transfer_parts-IsReady req (erc20 token d) p from h =
      elim (Result-cases (parse_address K token)) [
        | inr (x, e) ↦ absurd (ground arith)
        | inl (t, e) ↦ elim (Result-cases (parse_address K req.to_address)) [
          | inr (x, e') ↦ absurd (ground arith)
          | inl (a, e') ↦ elim (Result-cases (parse_u256 K "amount" req.amount)) [
            | inr (x, e'') ↦ absurd (ground arith)
            | inl (u, e'') ↦
                let (u0, read) = IsOk-eq _ (ethers.u256_of_decimal 0 (omega arith)) in
                record {
                  sender = (_, from);
                  target = (t, ground (arith, parse_address-show K ethers t));
                  amount = (u0, ground (arith, show_zero));
                  bytes = (
                    calldata K a u,
                    ground (
                      arith,
                      parse_bytes_hex-encode K hex "data_hex" (calldata K a u)
                          (calldata-IsBytes a u),
                    ),
                    length-calldata a u,
                  );
                }
          ]
        ]
      ]

  default_gas-transfer_parts :
      (req : PrepareTransferRequest) (asset : TransferAsset) (p : Parts)
      → transfer_parts K req asset ≡ ok p
      → p.gas_limit ≡ unwrap_or (default_gas asset) req.gas_limit
  unfolding transfer_parts
  default_gas-transfer_parts req native p h = ground arith
  default_gas-transfer_parts req (erc20 t d) p h = ground arith

  -- Inversion of a successful `prepare_transfer`.
  prepare_transfer-parts :
      (req : PrepareTransferRequest) (r : PrepareTransferResponse)
      → prepare_transfer K req ≡ ok r
      → (f : K.Address) × (p : Parts) × (parse_address K req.from_address ≡ ok f)
        × (transfer_parts K req req.asset ≡ ok p)
        × (r.transaction.to ≡ p.to)
        × (r.transaction.value_wei ≡ p.value_wei)
        × (r.transaction.data_hex ≡ p.data_hex)
        × (r.transaction.gas_limit ≡ p.gas_limit)
  unfolding prepare_transfer
  prepare_transfer-parts req r h = elim (Result-cases (parse_address K req.from_address)) [
    | inr (x, e) ↦ absurd (ground arith)
    | inl (f, e) ↦ elim (Result-cases (transfer_parts K req req.asset)) [
      | inr (x, e') ↦ absurd (ground arith)
      | inl (p, e') ↦ (f, p, e, e', ground arith, ground arith, ground arith, ground arith)
    ]
  ]

  -- Every field of a prepared transaction can be read back: the sender and the destination are
  -- addresses, the value is a number, and the calldata is hex of the length that the asset wants.
  -- The gas limit is the caller's, or else the asset's default.
  pub prepare_transfer-IsReady :
      (req : PrepareTransferRequest) (r : PrepareTransferResponse)
      → prepare_transfer K req ≡ ok r
      → IsReady K
          (calldata_size req.asset)
          req.from_address
          r.transaction.to
          r.transaction.value_wei
          r.transaction.data_hex
        × (r.transaction.gas_limit ≡ unwrap_or (default_gas req.asset) req.gas_limit)
  prepare_transfer-IsReady req r h =
      let (f, p, from, parts, to, value, bytes, gas) = prepare_transfer-parts req r h in
      (
        rw (to, value, bytes) (transfer_parts-IsReady req req.asset p from parts),
        gas ∙ default_gas-transfer_parts req req.asset p parts,
      )
