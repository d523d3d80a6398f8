-- ===== src/Auth/Client.antt =====
-- The other end of the check of src/auth.rs: the client that its test plays, for any request.
use ai_wallet.Prelude.{
  ℕ, ◌+◌, ◌<◌, ◌≡◌, ◌≢◌, inl, inr, refl, subst, ◌∙◌, String, false, some, Result, Result-cases, ok,
  ◌>>=◌, ◌⧺◌, as_bytes, ℤ, pos, arith,
}
use ai_wallet.Number.{i64_bound, show_ℤ}
use ai_wallet.Number.Signed.{IsI64, parse_i64-show_ℤ}
use ai_wallet.Crates.{Crates, Bytes}
use ai_wallet.Auth.{HmacAuthVerifier, is_stale, get_header, canonical, expected_signature, verify}
use ai_wallet.Auth.Freshness.{IsWithin, fresh_iff}
use ai_wallet.Auth.Guard.{IsAuthentic, verify_iff}

-- The three names of headers that the check reads.
pub data Name : Type 0 where
  key timestamp signature : Name

abbrev pub header_name : Name → String
header_name key = "x-ai-wallet-key"
header_name timestamp = "x-ai-wallet-timestamp"
header_name signature = "x-ai-wallet-signature"

module _ (K : Crates) where
  -- http's `HeaderMap::new`, `insert` and `HeaderValue::from_str`.
  pub record Headers : Type 0 where
    pub empty : K.HeaderMap
    pub insert : K.HeaderMap → String → K.HeaderValue → K.HeaderMap
    pub from_str : String → Result K.HeaderValue String

  -- What http says of them: an inserted header is found under its name, those of the other names stay,
  -- and a value that was made of a text reads as that text.
  pub record HeaderLaws (headers : Headers) : Type 0 where
    pub get_inserted :
        (m : K.HeaderMap) (name : String) (value : K.HeaderValue)
        → K.header_get (headers.insert m name value) name ≡ some value
    pub get_other :
        (m : K.HeaderMap) (n n' : Name) (value : K.HeaderValue)
        → n ≢ n'
        → K.header_get (headers.insert m (header_name n) value) (header_name n')
          ≡ K.header_get m (header_name n')
    pub to_str_from :
        (text : String) (value : K.HeaderValue)
        → headers.from_str text ≡ ok value
        → K.header_to_str value ≡ ok text

  module _ (headers : Headers) where
    -- The headers that a client sends with a request at a time.
    unfoldable pub signed_headers :
        HmacAuthVerifier → ℤ → String → String → Bytes → Result K.HeaderMap String
    signed_headers self time method path body = do
      let text = show_ℤ time ⧺ "\n" ⧺ method ⧺ "\n" ⧺ path ⧺ "\n" ⧺ K.base64_encode body
      mac ← K.mac_new_from_slice (as_bytes self.api_secret)
      let signed = "sha256=" ⧺ K.hex_encode (K.mac_finalize (K.mac_update mac (as_bytes text)))
      key_value ← headers.from_str self.api_key
      time_value ← headers.from_str (show_ℤ time)
      signed_value ← headers.from_str signed
      ok (
          headers.insert
            (headers.insert (headers.insert headers.empty "x-ai-wallet-key" key_value)
              "x-ai-wallet-timestamp" time_value)
            "x-ai-wallet-signature" signed_value)

    module _ (laws : HeaderLaws headers) where
      abbrev sent_headers : K.HeaderValue → K.HeaderValue → K.HeaderValue → K.HeaderMap
      sent_headers v1 v2 v3 =
          headers.insert
            (headers.insert (headers.insert headers.empty (header_name key) v1)
              (header_name timestamp) v2)
            (header_name signature) v3

      get_header-from :
          (m : K.HeaderMap) (name text : String) (value : K.HeaderValue)
          → K.header_get m name ≡ some value
          → headers.from_str text ≡ ok value
          → get_header K m name ≡ ok text
      unfolding get_header
      get_header-from m name text value found made =
          let readable = laws.to_str_from text value made in
          rw (found, get_header) (rw readable refl)

      sent-key :
          (v1 v2 v3 : K.HeaderValue)
          → K.header_get (sent_headers v1 v2 v3) (header_name key) ≡ some v1
      sent-key v1 v2 v3 =
          laws.get_other _ signature key v3 (λ e. cc e)
          ∙ laws.get_other _ timestamp key v2 (λ e. cc e)
          ∙ laws.get_inserted headers.empty (header_name key) v1

      sent-timestamp :
          (v1 v2 v3 : K.HeaderValue)
          → K.header_get (sent_headers v1 v2 v3) (header_name timestamp) ≡ some v2
      sent-timestamp v1 v2 v3 =
          laws.get_other _ signature timestamp v3 (λ e. cc e)
          ∙ laws.get_inserted _ (header_name timestamp) v2

      module _ (self : HmacAuthVerifier) (method path : String) (body : Bytes) where
        signed_headers-IsAuthentic :
            (now time : ℤ) (sent : K.HeaderMap)
            → IsI64 time
            → is_stale now time self.max_skew_seconds ≡ false
            → signed_headers self time method path body ≡ ok sent
            → IsAuthentic K self now sent method path body
        unfolding signed_headers expected_signature canonical
        signed_headers-IsAuthentic now time sent small fresh h =
            elim (Result-cases (K.mac_new_from_slice (as_bytes self.api_secret))) [
              | inr (x, e0) ↦ absurd (ground arith)
              | inl (mac, e0) ↦
                  let signed =
                    "sha256="
                    ⧺ K.hex_encode (
                        K.mac_finalize
                          (K.mac_update mac (as_bytes (canonical K time method path body)))) in
                  elim (Result-cases (headers.from_str self.api_key)) [
                    | inr (x, e1) ↦ absurd (ground arith)
                    | inl (v1, e1) ↦ elim (Result-cases (headers.from_str (show_ℤ time))) [
                      | inr (x, e2) ↦ absurd (ground arith)
                      | inl (v2, e2) ↦ elim (Result-cases (headers.from_str signed)) [
                        | inr (x, e3) ↦ absurd (ground arith)
                        | inl (v3, e3) ↦
                            let same : sent_headers v1 v2 v3 ≡ sent = ground arith in
                            subst (λ m. IsAuthentic K self now m method path body) same
                              (record {
                                key = get_header-from _ _ _ v1 (sent-key v1 v2 v3) e1;
                                text = show_ℤ time;
                                timestamp = time;
                                signature = signed;
                                dated = get_header-from _ _ _ v2 (sent-timestamp v1 v2 v3) e2;
                                read = parse_i64-show_ℤ time small;
                                fresh = fresh;
                                signed =
                                    get_header-from _ _ _ v3
                                      (laws.get_inserted _ (header_name signature) v3) e3;
                                expected = rw e0 refl;
                              })
                      ]
                    ]
                  ]
            ]

        -- A client that sends the key, the time and the HMAC of its request under the shared secret is
        -- let through, whatever the method, the path and the body are, as long as its clock is within
        -- the allowed skew of the server's. Its headers can be made of these texts, and the server's
        -- clock is not negative, with an i64 as its sum with the skew.
        pub verify-signed_headers :
            (now skew : ℕ) (time : ℤ) (sent : K.HeaderMap)
            → self.max_skew_seconds ≡ pos skew
            → now + skew < i64_bound
            → IsI64 time
            → IsWithin now time skew
            → signed_headers self time method path body ≡ ok sent
            → verify K self (pos now) sent method path body ≡ ok tt
        verify-signed_headers now skew time sent max sum small near h =
            let fresh : is_stale (pos now) time self.max_skew_seconds ≡ false =
              rw max ((fresh_iff now skew time sum small).1 (inl near)) in
            (verify_iff K self (pos now) sent method path body).1
              (signed_headers-IsAuthentic (pos now) time sent small fresh h)
