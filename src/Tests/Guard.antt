-- ===== src/Tests/Guard.antt =====
-- The test of src/auth.rs, at the time that its clock shows.
use ai_wallet.Prelude.{
  ℕ, ◌+◌, ◌<◌, ◌≡◌, refl, String, Result, ok, map_err, ◌>>=◌, as_bytes, ℤ, pos, arith,
}
use ai_wallet.Number.{i64_bound}
use ai_wallet.Crates.{Crates, Bytes}
use ai_wallet.Error.{to_string}
use ai_wallet.Auth.{HmacAuthVerifier, verify}
use ai_wallet.Auth.Client.{Headers, HeaderLaws, signed_headers, verify-signed_headers}

abbrev test_verifier : HmacAuthVerifier
test_verifier = record {
  api_key = "test-key";
  api_secret = "test-secret";
  max_skew_seconds = pos 300;
}

abbrev test_body : Bytes
test_body = as_bytes "{\"a\":1}"

module _ (K : Crates) (headers : Headers K) where
  unfoldable hmac_verifier_accepts_valid_signature : ℤ → Result (Unit {0}) String
  unfolding to_string
  hmac_verifier_accepts_valid_signature now = do
    sent ← signed_headers K headers test_verifier now "POST" "/v1/evm/sign-intent" test_body
    map_err to_string (verify K test_verifier now sent "POST" "/v1/evm/sign-intent" test_body)

  -- Headers that could be made are accepted, at any time for which the sum with the skew is an i64.
  hmac_verifier_accepts_valid_signature_lem :
      (laws : HeaderLaws K headers) (now : ℕ) {sent : K.HeaderMap}
      → now + 300 < i64_bound
      → signed_headers K headers test_verifier (pos now) "POST" "/v1/evm/sign-intent" test_body
        ≡ ok sent
      → hmac_verifier_accepts_valid_signature (pos now) ≡ ok tt
  unfolding hmac_verifier_accepts_valid_signature
  hmac_verifier_accepts_valid_signature_lem laws now {sent} sum made =
      let accepted =
        verify-signed_headers K headers laws test_verifier "POST" "/v1/evm/sign-intent" test_body
          now 300 (pos now) sent refl sum (omega arith) (omega arith) made in
      rw made (rw accepted refl)
