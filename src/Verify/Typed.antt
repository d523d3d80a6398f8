-- ===== src/Verify/Typed.antt =====
-- When the two verification endpoints answer `valid`.
use mathlib.Core.Logic.{if_pos}
use ai_wallet.Prelude.{◌≡◌, ◌↔◌, String, true, false, ok, arith, refl, Result-cases, inl, inr}
use ai_wallet.Crates.{Crates, Bytes}
use ai_wallet.Model.{
  VerifyMessageRequest, VerifyMessageResponse, VerifyTypedDataRequest, VerifyTypedDataResponse,
}
use ai_wallet.Verify.{verify_message, verify_typed_data}
use ai_wallet.Verify.Laws.{
  ite-true, typed_data_response, verify_typed_data_lem, verify_message_valid_iff,
}

module _ (K : Crates) where
  -- The signature and the address can be read, and of the digest the first gives the second.
  abbrev pub Signs : String → String → Bytes → Type 0
  Signs signature_hex expected_address digest =
      (s : K.Signature) × (a : K.Address) × (K.signature_from_str signature_hex ≡ ok s)
      × (K.address_from_str expected_address ≡ ok a)
      × (K.recover s digest ≡ ok a)

  verify_typed_data-parts :
      (req : VerifyTypedDataRequest K) (r : VerifyTypedDataResponse)
      → verify_typed_data K req ≡ ok r
      → r.valid ≡ true
      → (t : K.TypedData) × (d : Bytes) × (K.typed_data_from_value req.typed_data ≡ ok t)
        × (K.encode_eip712 t ≡ ok d)
        × Signs req.signature_hex req.expected_address d
  unfolding verify_typed_data
  verify_typed_data-parts req r h valid =
      elim (Result-cases (K.signature_from_str req.signature_hex)) [
        | inr (x, p) ↦ absurd (ground arith)
        | inl (s, p) ↦ elim (Result-cases (K.address_from_str req.expected_address)) [
          | inr (x, q) ↦ absurd (ground arith)
          | inl (a, q) ↦ elim (Result-cases (K.typed_data_from_value req.typed_data)) [
            | inr (x, e) ↦ absurd (ground arith)
            | inl (t, e) ↦ elim (Result-cases (K.encode_eip712 t)) [
              | inr (x, f) ↦ absurd (ground arith)
              | inl (d, f) ↦ elim (Result-cases (K.recover s d)) [
                | inr (x, g) ↦ absurd (ground arith)
                | inl (b, g) ↦
                    let agree : b ≡ a = ite-true K b a (ground arith) in
                    (t, d, e, f, (s, a, p, q, rw agree at g))
              ]
            ]
          ]
        ]
      ]

  -- Both endpoints answer `valid` exactly when the signature and the expected address can be read and
  -- the signature gives that address of the digest: of the message's, or of the one that the typed
  -- data has, which can be read.
  pub verify_valid_iff :
      (m : VerifyMessageRequest) (v : VerifyTypedDataRequest K)
      → (((r : VerifyMessageResponse) × (verify_message K m ≡ ok r) × (r.valid ≡ true))
          ↔ Signs m.signature_hex m.expected_address (K.hash_message m.message))
        × (((r : VerifyTypedDataResponse) × (verify_typed_data K v ≡ ok r) × (r.valid ≡ true)) ↔ (
            (t : K.TypedData) × (d : Bytes) × (K.typed_data_from_value v.typed_data ≡ ok t)
            × (K.encode_eip712 t ≡ ok d)
            × Signs v.signature_hex v.expected_address d))
  verify_valid_iff m v = (
    verify_message_valid_iff K m,
    (
      λ (r, h, valid). verify_typed_data-parts v r h valid,
      λ (t, d, read, encoded, (s, a, p, q, recovered)). (
        typed_data_response K v a a d,
        verify_typed_data_lem K v p q read encoded recovered,
        if_pos (K.address_eq a a) refl true false,
      ),
    ),
  )
