-- ===== src/Tests/Service.antt =====
-- The unit tests of src/service.rs pass in the model.
use Prim.Native.Char.{code}
use text.Mathlib.TextLemmas.{cons-append, append_assoc}
use ai_wallet.Prelude.{
  sym, ==_iff, ◌≡◌, refl, String, true, [], ◌∷◌, ◌++◌, ok, ◌⧺◌, take, trim, strip_0x,
}
use ai_wallet.Number.{parse_u128}
use ai_wallet.Crates.{Crates, Bytes}
use ai_wallet.Fields.{parse_address, parse_u256, parse_bytes_hex}
use ai_wallet.Policy.{evaluate, check_payload, classify}
use ai_wallet.Transfer.{prepare_transfer, transfer_parts, calldata}
use ai_wallet.Simulator.{simulate, estimate_gas, warnings_for}
use ai_wallet.Tests.{
  starts_with, policy_requires_review_for_large_value, prepare_erc20_transfer_calldata,
  static_simulation_warns_on_low_gas,
}

starts_with-append : (p s : String) → starts_with p (p ⧺ s) ≡ true
starts_with-append String.[] s = refl
starts_with-append (String.◌∷◌ c p) s =
    rw (cons-append c p s) (rw ((==_iff (code c) (code c)).1 refl) (starts_with-append p s))

module _ (K : Crates) where
  -- The policy wants review of one wei more than its limit.
  policy_requires_review_for_large_value_lem : policy_requires_review_for_large_value K ≡ ok true
  unfolding policy_requires_review_for_large_value evaluate check_payload classify parse_u128 trim
  policy_requires_review_for_large_value_lem = refl

  module _ (sender recipient : K.Address)
      (sender_read : K.address_from_str "0x8f3a20f605217d87DcC2f1F7c36c08f007550961" ≡ ok sender)
      (recipient_read : K.address_from_str "0x1111111111111111111111111111111111111111"
        ≡ ok recipient) where
    -- A simulation on too little gas fails with a warning, if the crates read its fields.
    static_simulation_warns_on_low_gas_lem :
        {zero : K.U256}
        → K.u256_from_dec_str "0" ≡ ok zero
        → K.hex_decode "" ≡ ok []
        → static_simulation_warns_on_low_gas K ≡ ok true
    unfolding static_simulation_warns_on_low_gas simulate parse_address parse_u256 parse_bytes_hex
        strip_0x estimate_gas warnings_for
    static_simulation_warns_on_low_gas_lem value_read data_read =
        rw sender_read (rw recipient_read (rw value_read (rw data_read refl)))

    -- The calldata of a token transfer begins with the selector, if the crates read the fields and
    -- the hash of the function's signature begins with it.
    prepare_erc20_transfer_calldata_lem :
        {token : K.Address} {amount : K.U256}
        → K.address_from_str "0x2222222222222222222222222222222222222222" ≡ ok token
        → K.u256_from_dec_str "1000000000000000000" ≡ ok amount
        → ((arguments : Bytes)
            → (s : String) × (K.hex_encode (take 4 (K.id "transfer(address,uint256)") ++ arguments)
                ≡ "a9059cbb" ⧺ s))
        → prepare_erc20_transfer_calldata K ≡ ok true
    unfolding prepare_erc20_transfer_calldata prepare_transfer transfer_parts calldata parse_address
        parse_u256
    prepare_erc20_transfer_calldata_lem {amount = amount} token_read amount_read selector =
        let (s, shown) =
          selector (K.abi_encode (K.token_address recipient ∷ K.token_uint amount ∷ [])) in
        rw sender_read (
          rw token_read (
            rw recipient_read (
              rw amount_read (
                rw shown (
                  rw (sym (append_assoc "0x" "a9059cbb" s))
                    (rw (starts_with-append "0xa9059cbb" s) refl))))))
