-- ===== src/Auth/Guard.antt =====
-- Whom the HMAC check lets through, and what the middleware does with a request.
use ai_wallet.Prelude.{
  ◌≡◌, ◌↔◌, ◌⊎◌, inl, inr, false, some, Option-cases, Result-cases, ok, err, arith, refl, String, ℤ,
  eq_iff, eq_refl, ◌⧺◌,
}
use ai_wallet.Number.{parse_i64}
use ai_wallet.Crates.{Crates, Bytes}
use ai_wallet.Error.{AppError, bad_request, status_code}
use ai_wallet.Auth.{
  HmacAuthVerifier, ApiAuth, is_stale, get_header, canonical, expected_signature, verify,
  HttpRequest, body_limit, auth_middleware,
}

module _ (K : Crates) where
  -- The request bears the key, a timestamp that is fresh, and the HMAC of its timestamp, method, path
  -- and body under the secret.
  pub record IsAuthentic (self : HmacAuthVerifier) (now : ℤ) (headers : K.HeaderMap)
      (method path : String) (body : Bytes) : Type 0 where
    pub key : get_header K headers "x-ai-wallet-key" ≡ ok self.api_key
    pub text : String
    pub timestamp : ℤ
    pub signature : String
    pub dated : get_header K headers "x-ai-wallet-timestamp" ≡ ok text
    pub read : parse_i64 text ≡ some timestamp
    pub fresh : is_stale now timestamp self.max_skew_seconds ≡ false
    pub signed : get_header K headers "x-ai-wallet-signature" ≡ ok signature
    pub expected :
        expected_signature K self.api_secret (canonical K timestamp method path body) ≡ ok signature

  module _ (self : HmacAuthVerifier) (now : ℤ) (headers : K.HeaderMap) (method path : String)
      (body : Bytes) where
    verify-IsAuthentic :
        verify K self now headers method path body ≡ ok tt
        → IsAuthentic self now headers method path body
    unfolding verify
    verify-IsAuthentic h = elim (Result-cases (get_header K headers "x-ai-wallet-key")) [
      | inr (x, e1) ↦ absurd (ground arith)
      | inl (key, e1) ↦ elim (Result-cases (get_header K headers "x-ai-wallet-timestamp")) [
        | inr (x, e2) ↦ absurd (ground arith)
        | inl (text, e2) ↦ elim (Option-cases (parse_i64 text)) [
          | inl e3 ↦ absurd (ground arith)
          | inr (t, e3) ↦ elim (Result-cases (get_header K headers "x-ai-wallet-signature")) [
            | inr (x, e4) ↦ absurd (ground arith)
            | inl (sig, e4) ↦
                elim (Result-cases
                  (expected_signature K self.api_secret (canonical K t method path body))) [
                    | inr (x, e5) ↦ absurd (ground arith)
                    | inl (want, e5) ↦ record {
                      key = ground (arith, eq_iff key self.api_key);
                      text = text;
                      timestamp = t;
                      signature = sig;
                      dated = e2;
                      read = e3;
                      fresh = ground arith;
                      signed = e4;
                      expected = ground (arith, eq_iff sig want);
                    }
                  ]
          ]
        ]
      ]
    ]

    verify-of_IsAuthentic :
        IsAuthentic self now headers method path body
        → verify K self now headers method path body ≡ ok tt
    unfolding verify
    verify-of_IsAuthentic a = ground (
      arith,
      a.key,
      a.dated,
      a.read,
      a.fresh,
      a.signed,
      a.expected,
      eq_refl self.api_key,
      eq_refl a.signature,
    )

    get_header-status :
        (name : String) (e : AppError) → get_header K headers name ≡ err e → status_code e ≡ 401
    unfolding get_header
    get_header-status name e h = ground arith

    -- A refusal is a 401, or a 500 where no HMAC can be built of the secret.
    verify-status :
        (e : AppError)
        → verify K self now headers method path body ≡ err e
        → (status_code e ≡ 401) ⊎ (status_code e ≡ 500)
    unfolding verify expected_signature
    verify-status e h = ground (
      arith,
      get_header-status "x-ai-wallet-key" e,
      get_header-status "x-ai-wallet-timestamp" e,
      get_header-status "x-ai-wallet-signature" e,
    )

    -- `verify` lets a request through exactly when it is authentic.
    pub verify_iff :
        (verify K self now headers method path body ≡ ok tt)
        ↔ IsAuthentic self now headers method path body
    verify_iff = (verify-IsAuthentic, verify-of_IsAuthentic)

  -- The body is read within the limit and the request is authentic.
  abbrev pub Passes : HmacAuthVerifier → ℤ → HttpRequest K → Type 0
  Passes self now request =
      (bytes : Bytes) × (request.to_bytes body_limit ≡ ok bytes)
      × IsAuthentic self now request.headers request.method request.path bytes

  module _ {S R : Type 0} (self : HmacAuthVerifier) (now : ℤ) (next : HttpRequest K → S → R × S)
      (request : HttpRequest K) (s : S) where
    -- With HMAC authentication the handler runs exactly on the requests that pass, with the body that
    -- was checked. Any other request is answered with a 400, 401 or 500, and nothing has happened to
    -- the state.
    pub auth_middleware_cases :
        (Passes self now request
          × ((bytes : Bytes)
              → request.to_bytes body_limit ≡ ok bytes
              → auth_middleware K (ApiAuth.hmac self) now next request s ≡ (
                ok (next (record request { to_bytes = λ _. ok bytes }) s).0,
                (next (record request { to_bytes = λ _. ok bytes }) s).1,
              )))
        ⊎ ((¬ Passes self now request)
            × ((e : AppError) × (auth_middleware K (ApiAuth.hmac self) now next request s
                  ≡ (err e, s))
                × ((status_code e ≡ 400) ⊎ (status_code e ≡ 401) ⊎ (status_code e ≡ 500))))
    unfolding auth_middleware
    auth_middleware_cases = elim (Result-cases (request.to_bytes body_limit)) [
      | inr (x, e) ↦ inr (
        (λ (b, h, a). cc),
        (bad_request ("failed to read request body: " ⧺ x), ground arith, inl refl),
      )
      | inl (bytes, e) ↦
          elim (Result-cases
            (verify K self now request.headers request.method request.path bytes)) [
              | inl (u, v) ↦ inl (
                (
                  bytes,
                  e,
                  verify-IsAuthentic self now request.headers request.method request.path bytes v,
                ),
                λ b h. ground arith,
              )
              | inr (x, v) ↦ inr (
                (λ (b, h, a).
                    let passed =
                      verify-of_IsAuthentic self now request.headers request.method request.path b
                        a in
                    ground arith),
                (
                  x,
                  ground arith,
                  inr (
                      verify-status self now request.headers request.method request.path bytes x v),
                ),
              )
            ]
    ]
