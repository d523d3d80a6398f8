-- ===== src/Api/Access.antt =====
-- Which requests reach a handler.
use ai_wallet.Prelude.{◌≡◌, ◌⊎◌, inl, inr, true, ok, err, ℤ}
use ai_wallet.Crates.{Crates, Bytes}
use ai_wallet.Error.{AppError, status_code}
use ai_wallet.Auth.{HmacAuthVerifier, ApiAuth, HttpRequest, body_limit}
use ai_wallet.Auth.Guard.{Passes, auth_middleware_cases}
use ai_wallet.Api.Types.{Endpoint, is_authenticated, Draws, AppState, Store, answered, Extract}
use ai_wallet.Api.{run_handler, serve}

module _ (K : Crates) {S : Type 0} (app : AppState K S) (extract : Extract K) (now : ℤ)
    (draws : Draws K) (request : HttpRequest K) (s : Store K S) where
  -- With HMAC authentication, a request that does not pass the check changes nothing at a route
  -- under the layer: its answer is a 400, 401 or 500, and the audit, the broadcast service and the
  -- spawned tasks are as before.
  pub serve_refuses :
      (verifier : HmacAuthVerifier) (endpoint : Endpoint)
      → app.api_auth ≡ ApiAuth.hmac verifier
      → is_authenticated endpoint ≡ true
      → ¬ Passes K verifier now request
      → (e : AppError) × (serve K app extract now draws endpoint request s ≡ (answered (err e), s))
        × ((status_code e ≡ 400) ⊎ (status_code e ≡ 401) ⊎ (status_code e ≡ 500))
  unfolding serve
  serve_refuses verifier endpoint auth layered bad =
      elim (auth_middleware_cases K verifier now (run_handler K app extract draws endpoint) request
        s) [
          | inl (passes, _) ↦ absurd (bad passes)
          | inr (_, (e, stopped, code)) ↦ (e, rw layered (simp auth (rw stopped)), code)
        ]

  -- A request that passes is answered by the route's handler, run on the body that was checked.
  pub serve-Passes :
      (verifier : HmacAuthVerifier) (endpoint : Endpoint) (bytes : Bytes)
      → app.api_auth ≡ ApiAuth.hmac verifier
      → is_authenticated endpoint ≡ true
      → request.to_bytes body_limit ≡ ok bytes
      → Passes K verifier now request
      → serve K app extract now draws endpoint request s
        ≡ run_handler K app extract draws endpoint (record request { to_bytes = λ _. ok bytes }) s
  unfolding serve
  serve-Passes verifier endpoint bytes auth layered read passes =
      elim (auth_middleware_cases K verifier now (run_handler K app extract draws endpoint) request
        s) [
          | inl (_, run) ↦ rw layered (simp auth (rw (run bytes read)))
          | inr (bad, _) ↦ absurd (bad passes)
        ]
