-- ===== src/Tests/Signatures.antt =====
-- The two tests of signatures in src/service.rs, over any crates. The typed data that one of them
-- writes with `json!` is an argument.
use mathlib.Core.Logic.{if_pos}
use ai_wallet.Prelude.{arith, ◌≡◌, refl, String, Bool, true, false, Result, ok, map_err, ◌>>=◌, ap}
use ai_wallet.Crates.{Crates, Bytes}
use ai_wallet.Crates.Laws.{WalletLaws}
use ai_wallet.Error.{AppError, to_string}
use ai_wallet.Model.{VerifyMessageRequest, VerifyTypedDataRequest, eip191}
use ai_wallet.Verify.{verify_message, verify_typed_data}
use ai_wallet.Verify.Laws.{verify_message_lem, verify_typed_data_lem}

abbrev known_address : String
known_address = "0x8f3a20f605217d87DcC2f1F7c36c08f007550961"

abbrev known_signature : String
known_signature =
    "0xc4827b54c87c595f4395e8dba581616b12fb5f49b191d87cd4d00a616361bcbe46e7108c0828a661571a74fedd0faec8ae09ee7cbbd5e2015cb5e21e2a63d4831b"

abbrev known_key : String
known_key = "0x4f3edf983ac636a65a842ce7c78d9aa706d3b113bce036f4f5f1b1b09a2f5b5d"

abbrev hello : VerifyMessageRequest
hello = record {
  chain_id = 1;
  expected_address = known_address;
  message = "hello ai-wallet";
  signature_hex = known_signature;
  encoding = eip191;
}

module _ (K : Crates) where
  unfoldable verify_known_eip191_signature : Result Bool AppError
  verify_known_eip191_signature = do result ← verify_message K hello; ok result.valid

  abbrev mail : K.Value → K.Signature → VerifyTypedDataRequest K
  mail typed_data signature = record {
    chain_id = 1;
    expected_address = known_address;
    typed_data = typed_data;
    signature_hex = K.show_signature signature;
  }

  unfoldable verify_known_eip712_signature : K.Value → Result Bool String
  unfolding to_string
  verify_known_eip712_signature typed_data = do
    wallet ← K.wallet_from_str known_key
    typed ← K.typed_data_from_value typed_data
    signature ← K.sign_typed_data wallet typed
    result ← map_err to_string (verify_typed_data K (mail typed_data signature))
    ok result.valid

  -- The known signature is valid, if the crates read it and the address and recover the one from the
  -- other.
  verify_known_eip191_signature_lem :
      {s : K.Signature} {a : K.Address}
      → K.signature_from_str known_signature ≡ ok s
      → K.address_from_str known_address ≡ ok a
      → K.recover s (K.hash_message "hello ai-wallet") ≡ ok a
      → verify_known_eip191_signature ≡ ok true
  unfolding verify_known_eip191_signature
  verify_known_eip191_signature_lem {a = a} p q r =
      rw (verify_message_lem K hello p q r) (ap ok (if_pos (K.address_eq a a) refl true false))

  -- A signature that a wallet of the known address makes of typed data is valid.
  verify_known_eip712_signature_lem :
      (laws : WalletLaws K) (v : K.Value) {w : K.LocalWallet} {t : K.TypedData} {d : Bytes}
      {s : K.Signature}
      → K.wallet_from_str known_key ≡ ok w
      → K.address_from_str known_address ≡ ok (K.wallet_address w)
      → K.typed_data_from_value v ≡ ok t
      → K.encode_eip712 t ≡ ok d
      → K.sign_typed_data w t ≡ ok s
      → verify_known_eip712_signature v ≡ ok true
  unfolding verify_known_eip712_signature
  verify_known_eip712_signature_lem laws v {w} {t} {d} {s} key address read encoded made =
      let checked =
        verify_typed_data_lem K (mail v s)
          (laws.signature_of_show s (omega (arith, laws.v_typed_data w t s made))) address read
          encoded (laws.recover_typed_data w t d s encoded made) in
      rw key (
        rw read (
          rw made (
            rw checked (
              ap ok (
                if_pos (K.address_eq (K.wallet_address w) (K.wallet_address w)) refl true false)))))
