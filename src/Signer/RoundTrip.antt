-- ===== src/Signer/RoundTrip.antt =====
-- `LocalDevSigner` against `verify_message` and `verify_typed_data`.
use mathlib.Core.Logic.{if_pos}
use ai_wallet.Prelude.{ℕ, String, ◌≡◌, some, true, false, ok, arith, refl, Result-cases, inl, inr}
use ai_wallet.Crates.{Crates, Bytes}
use ai_wallet.Crates.Laws.{WalletLaws, EthersLaws}
use ai_wallet.Model.{
  SignPayload, SignedArtifact, MessageEncoding, VerifyMessageRequest, VerifyTypedDataRequest,
  eip712,
}
use ai_wallet.Signer.{SignerEnvelope, LocalDevSigner, hex_0x, wallet, sign_payload, local_sign}
use ai_wallet.Verify.{verify_message, verify_typed_data}
use ai_wallet.Verify.Laws.{verify_message_lem, verify_typed_data_lem}

module _ (K : Crates) where
  -- Inversion of a successful signature.
  sign_payload-message :
      (w : K.LocalWallet) (c : ℕ) (from m : String) (art : SignedArtifact)
      → sign_payload K w c from (SignPayload.raw_message m) ≡ ok art
      → (s : K.Signature) × (K.sign_message w m ≡ ok s) × (art.signature_hex ≡ K.show_signature s)
  unfolding sign_payload
  sign_payload-message w c from m art h = elim (Result-cases (K.sign_message w m)) [
    | inl (s, e) ↦ (s, e, ground arith)
    | inr (x, e) ↦ absurd (ground arith)
  ]

  sign_payload-typed_data :
      (w : K.LocalWallet) (c : ℕ) (from : String) (v : K.Value) (art : SignedArtifact)
      → sign_payload K w c from (SignPayload.typed_data v) ≡ ok art
      → (t : K.TypedData) × (d : Bytes) × (s : K.Signature) × (K.typed_data_from_value v ≡ ok t)
        × (K.encode_eip712 t ≡ ok d)
        × (K.sign_typed_data w t ≡ ok s)
        × (art ≡ record { signature_hex = K.show_signature s; digest_hex = hex_0x K d })
  unfolding sign_payload
  sign_payload-typed_data w c from v art h = elim (Result-cases (K.typed_data_from_value v)) [
    | inr (x, e) ↦ absurd (ground arith)
    | inl (t, e) ↦ elim (Result-cases (K.encode_eip712 t)) [
      | inr (x, f) ↦ absurd (ground arith)
      | inl (d, f) ↦ elim (Result-cases (K.sign_typed_data w t)) [
        | inr (x, g) ↦ absurd (ground arith)
        | inl (s, g) ↦ (t, d, s, e, f, g, ground arith)
      ]
    ]
  ]

  local_sign_lem :
      (self : LocalDevSigner K) (env : SignerEnvelope K) {key : String} {w : K.LocalWallet}
      → self.private_key ≡ some key
      → K.wallet_from_str key ≡ ok w
      → local_sign K self env
        ≡ sign_payload K (K.with_chain_id w env.chain_id) env.chain_id env.from_address env.payload
  unfolding local_sign wallet
  local_sign_lem self env known parsed = rw known (rw parsed)

module _ (K : Crates) (ethers : EthersLaws K) (laws : WalletLaws K) where
  verify_message-local_sign :
      (self : LocalDevSigner K) (key : String) (w : K.LocalWallet) (env : SignerEnvelope K)
      (m : String) (art : SignedArtifact) (chain_id : ℕ) (encoding : MessageEncoding)
      → self.private_key ≡ some key
      → K.wallet_from_str key ≡ ok w
      → local_sign K self (record env { payload = SignPayload.raw_message m }) ≡ ok art
      → verify_message K (record {
        chain_id = chain_id;
        expected_address = K.show_address (K.wallet_address w);
        message = m;
        signature_hex = art.signature_hex;
        encoding = encoding;
      })
        ≡ ok (record {
          valid = true;
          recovered_address = K.show_address (K.wallet_address w);
          chain_id = chain_id;
          encoding = encoding;
        })
  verify_message-local_sign self key w env m art chain_id encoding known parsed signed =
      let (s, made, text) =
        sign_payload-message K (K.with_chain_id w env.chain_id) env.chain_id env.from_address m art
          (rw
            (local_sign_lem K self (record env { payload = SignPayload.raw_message m }) known
              parsed)
            at signed) in
      let recovered = laws.recover_message _ m s made in
      let req : VerifyMessageRequest = record {
        chain_id = chain_id;
        expected_address = K.show_address (K.wallet_address w);
        message = m;
        signature_hex = art.signature_hex;
        encoding = encoding;
      } in
      rw
        (verify_message_lem K req
          (rw text (laws.signature_of_show s (omega (arith, laws.v_message _ m s made))))
          (ethers.address_of_show (K.wallet_address w)) (rw laws.chain_address at recovered))
        (rw (if_pos (K.address_eq (K.wallet_address w) (K.wallet_address w)) refl true false))

  verify_typed_data-local_sign :
      (self : LocalDevSigner K) (key : String) (w : K.LocalWallet) (env : SignerEnvelope K)
      (v : K.Value) (art : SignedArtifact) (chain_id : ℕ)
      → self.private_key ≡ some key
      → K.wallet_from_str key ≡ ok w
      → local_sign K self (record env { payload = SignPayload.typed_data v }) ≡ ok art
      → verify_typed_data K (record {
        chain_id = chain_id;
        expected_address = K.show_address (K.wallet_address w);
        typed_data = v;
        signature_hex = art.signature_hex;
      })
        ≡ ok (record {
          valid = true;
          recovered_address = K.show_address (K.wallet_address w);
          chain_id = chain_id;
          encoding = eip712;
          digest_hex = art.digest_hex;
        })
  verify_typed_data-local_sign self key w env v art chain_id known parsed signed =
      let (t, d, s, read, encoded, made, same) =
        sign_payload-typed_data K (K.with_chain_id w env.chain_id) env.chain_id env.from_address v
          art
          (rw
            (local_sign_lem K self (record env { payload = SignPayload.typed_data v }) known parsed)
            at signed) in
      let recovered = laws.recover_typed_data _ t d s encoded made in
      let req : VerifyTypedDataRequest K = record {
        chain_id = chain_id;
        expected_address = K.show_address (K.wallet_address w);
        typed_data = v;
        signature_hex = K.show_signature s;
      } in
      rw same (
        rw
          (verify_typed_data_lem K req
            (laws.signature_of_show s (omega (arith, laws.v_typed_data _ t s made)))
            (ethers.address_of_show (K.wallet_address w)) read encoded
            (rw laws.chain_address at recovered))
          (rw (if_pos (K.address_eq (K.wallet_address w) (K.wallet_address w)) refl true false)))

  -- What the dev signer signs is verified against the address of its key, whatever chain, encoding,
  -- tenant, wallet or sender the requests name: a message by the one endpoint, and typed data by the
  -- other, which names the same digest as the signer.
  pub verify-local_sign :
      (self : LocalDevSigner K) (key : String) (w : K.LocalWallet) (env : SignerEnvelope K)
      (m : String) (v : K.Value) (art art' : SignedArtifact) (chain_id : ℕ)
      (encoding : MessageEncoding)
      → self.private_key ≡ some key
      → K.wallet_from_str key ≡ ok w
      → local_sign K self (record env { payload = SignPayload.raw_message m }) ≡ ok art
      → local_sign K self (record env { payload = SignPayload.typed_data v }) ≡ ok art'
      → (verify_message K (record {
        chain_id = chain_id;
        expected_address = K.show_address (K.wallet_address w);
        message = m;
        signature_hex = art.signature_hex;
        encoding = encoding;
      })
          ≡ ok (record {
            valid = true;
            recovered_address = K.show_address (K.wallet_address w);
            chain_id = chain_id;
            encoding = encoding;
          }))
        × (verify_typed_data K (record {
          chain_id = chain_id;
          expected_address = K.show_address (K.wallet_address w);
          typed_data = v;
          signature_hex = art'.signature_hex;
        })
            ≡ ok (record {
              valid = true;
              recovered_address = K.show_address (K.wallet_address w);
              chain_id = chain_id;
              encoding = eip712;
              digest_hex = art'.digest_hex;
            }))
  verify-local_sign self key w env m v art art' chain_id encoding known parsed signed signed' = (
    verify_message-local_sign self key w env m art chain_id encoding known parsed signed,
    verify_typed_data-local_sign self key w env v art' chain_id known parsed signed',
  )
