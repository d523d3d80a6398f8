-- ===== src/Api/Admits.antt =====
-- Requests of a client that signs them, as src/api.rs serves them.
use ai_wallet.Prelude.{ℕ, ◌+◌, ◌<◌, ◌≡◌, true, ok, ℤ, pos}
use ai_wallet.Number.{i64_bound}
use ai_wallet.Number.Signed.{IsI64}
use ai_wallet.Crates.{Crates, Bytes}
use ai_wallet.Auth.{HmacAuthVerifier, ApiAuth, HttpRequest, body_limit}
use ai_wallet.Auth.Freshness.{IsWithin}
use ai_wallet.Auth.Guard.{verify_iff}
use ai_wallet.Auth.Client.{Headers, HeaderLaws, signed_headers, verify-signed_headers}
use ai_wallet.Api.Types.{Endpoint, is_authenticated, Draws, AppState, Store, Extract}
use ai_wallet.Api.{run_handler, serve}
use ai_wallet.Api.Access.{serve-Passes}

module _ (K : Crates) (headers : Headers K) (laws : HeaderLaws K headers) {S : Type 0}
    (app : AppState K S) (extract : Extract K) (draws : Draws K) (s : Store K S) where
  -- A client that knows the key and the secret is served: with HMAC authentication, a request at a
  -- route under the layer that bears the key, the time and the HMAC of that time and of its own
  -- method, path and body is answered by the route's handler, run on that body, as long as the
  -- client's clock is within the allowed skew of the server's. The body is within the limit, the
  -- client's headers can be made of these texts, and the server's clock is not negative, with an i64 as
  -- its sum with the skew.
  pub serve-signed_headers :
      (verifier : HmacAuthVerifier) (endpoint : Endpoint) (request : HttpRequest K) (body : Bytes)
      (now skew : ℕ) (time : ℤ)
      → app.api_auth ≡ ApiAuth.hmac verifier
      → verifier.max_skew_seconds ≡ pos skew
      → now + skew < i64_bound
      → IsI64 time
      → IsWithin now time skew
      → is_authenticated endpoint ≡ true
      → request.to_bytes body_limit ≡ ok body
      → signed_headers K headers verifier time request.method request.path body ≡ ok request.headers
      → serve K app extract (pos now) draws endpoint request s
        ≡ run_handler K app extract draws endpoint (record request { to_bytes = λ _. ok body }) s
  serve-signed_headers verifier endpoint request body now skew time auth max sum small near layered
        read signed =
      let verified =
        verify-signed_headers K headers laws verifier request.method request.path body now skew time
          request.headers max sum small near signed in
      let authentic =
        (verify_iff K verifier (pos now) request.headers request.method request.path body).0
          verified in
      serve-Passes K app extract (pos now) draws request s verifier endpoint body auth layered read
        (body, read, authentic)
