-- ===== src/Verify/Laws.antt =====
-- What the two verification endpoints answer.
use mathlib.Core.Logic.{ite, if_pos}
use ai_wallet.Prelude.{◌≡◌, ◌↔◌, true, false, ok, arith, refl, Result-cases, inl, inr, ◌⧺◌}
use ai_wallet.Crates.{Crates, Bytes}
use ai_wallet.Model.{
  VerifyMessageRequest, VerifyMessageResponse, VerifyTypedDataRequest, VerifyTypedDataResponse,
  eip712,
}
use ai_wallet.Verify.{verify_message, verify_typed_data}

module _ (K : Crates) where
  abbrev pub message_response : VerifyMessageRequest → K.Address → K.Address → VerifyMessageResponse
  message_response req recovered expected = record {
    valid = ite (K.address_eq recovered expected) true false;
    recovered_address = K.show_address recovered;
    chain_id = req.chain_id;
    encoding = req.encoding;
  }

  pub verify_message_lem :
      (req : VerifyMessageRequest) {s : K.Signature} {a b : K.Address}
      → K.signature_from_str req.signature_hex ≡ ok s
      → K.address_from_str req.expected_address ≡ ok a
      → K.recover s (K.hash_message req.message) ≡ ok b
      → verify_message K req ≡ ok (message_response req b a)
  unfolding verify_message
  verify_message_lem req p q r = rw p (rw q (rw r))

  abbrev pub typed_data_response :
      VerifyTypedDataRequest K → K.Address → K.Address → Bytes → VerifyTypedDataResponse
  typed_data_response req recovered expected digest = record {
    valid = ite (K.address_eq recovered expected) true false;
    recovered_address = K.show_address recovered;
    chain_id = req.chain_id;
    encoding = eip712;
    digest_hex = "0x" ⧺ K.hex_encode digest;
  }

  pub verify_typed_data_lem :
      (req : VerifyTypedDataRequest K) {s : K.Signature} {a b : K.Address} {t : K.TypedData}
      {d : Bytes}
      → K.signature_from_str req.signature_hex ≡ ok s
      → K.address_from_str req.expected_address ≡ ok a
      → K.typed_data_from_value req.typed_data ≡ ok t
      → K.encode_eip712 t ≡ ok d
      → K.recover s d ≡ ok b
      → verify_typed_data K req ≡ ok (typed_data_response req b a d)
  unfolding verify_typed_data
  verify_typed_data_lem req p q t d r = rw p (rw q (rw t (rw d (rw r))))

  pub verify_message_parts :
      (req : VerifyMessageRequest) (r : VerifyMessageResponse)
      → verify_message K req ≡ ok r
      → (s : K.Signature) × (a : K.Address) × (b : K.Address) × (K.signature_from_str
            req.signature_hex
          ≡ ok s)
        × (K.address_from_str req.expected_address ≡ ok a)
        × (K.recover s (K.hash_message req.message) ≡ ok b)
        × (r ≡ message_response req b a)
  unfolding verify_message
  verify_message_parts req r h = elim (Result-cases (K.signature_from_str req.signature_hex)) [
    | inr (x, p) ↦ absurd (ground arith)
    | inl (s, p) ↦ elim (Result-cases (K.address_from_str req.expected_address)) [
      | inr (x, q) ↦ absurd (ground arith)
      | inl (a, q) ↦ elim (Result-cases (K.recover s (K.hash_message req.message))) [
        | inr (x, e) ↦ absurd (ground arith)
        | inl (b, e) ↦ (s, a, b, p, q, e, ground (arith, verify_message_lem req p q e))
      ]
    ]
  ]

  pub ite-true : (b a : K.Address) → ite (K.address_eq b a) true false ≡ true → b ≡ a
  ite-true b a h =
      elim (K.address_eq b a) as (λ d. ite d true false ≡ true → b ≡ a) [
        | yes e ↦ λ _. e
        | no n ↦ λ f. cc
      ]
        h

  -- The answer is `valid` exactly when the signature parses, the expected address parses, and the
  -- address recovered from the message's digest is that address.
  pub verify_message_valid_iff :
      (req : VerifyMessageRequest)
      → ((r : VerifyMessageResponse) × (verify_message K req ≡ ok r) × (r.valid ≡ true)) ↔ (
          (s : K.Signature) × (a : K.Address) × (K.signature_from_str req.signature_hex ≡ ok s)
          × (K.address_from_str req.expected_address ≡ ok a)
          × (K.recover s (K.hash_message req.message) ≡ ok a))
  verify_message_valid_iff req = (
    λ (r, h, valid).
        let (s, a, b, p, q, e, same) = verify_message_parts req r h in
        let agree = ite-true b a (ground arith) in (s, a, p, q, ground arith),
    λ (s, a, p, q, r).
        (message_response req a a, verify_message_lem req p q r, if_pos _ refl true false),
  )
