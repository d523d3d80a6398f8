-- ===== src/Api/Closed.antt =====
-- What a request can do to the service without authentication.
use mathlib.Core.List.{Memᴰ}
use ai_wallet.Prelude.{
  String, true, false, List, Result-cases, ok, err, ℤ, All, All-mem, ◌≡◌, ◌⊎◌, inl, inr, refl, ap,
  ◌∙◌, ℕ, as_bytes, Bool, [], ◌∷◌, ◌==◌, ◌||◌,
}
use ai_wallet.Crates.{Crates}
use ai_wallet.Auth.{HmacAuthVerifier, ApiAuth, HttpRequest}
use ai_wallet.Auth.Guard.{Passes}
use ai_wallet.Api.Types.{
  Endpoint, is_authenticated, Call, Draws, AppState, Store, Outcome, answered, rejected,
}
use ai_wallet.Api.{handle, run_handler, serve}
use ai_wallet.Api.Access.{serve_refuses}
use ai_wallet.Api.Front.{endpoint_of, Routes}
use ai_wallet.Api.Router.{Route, routes, Axum, router, router-serve, router-missed}

abbrev has_brace : List ℕ → Bool
has_brace [] = false
has_brace (byte ∷ bytes) = let rest = has_brace bytes in (byte == b'{') || rest

-- No brace opens a parameter in the pattern.
abbrev pub IsLiteral : String → Type 0
IsLiteral pattern = has_brace (as_bytes pattern) ≡ false

abbrev IsOpen : Route → Type 0
IsOpen route =
    (is_authenticated route.endpoint ≡ false)
    × ((route.pattern ≡ "/healthz") ⊎ (route.pattern ≡ "/v1/info"))
    × IsLiteral route.pattern

abbrev Guarded : Route → Type 0
Guarded route = (is_authenticated route.endpoint ≡ true) ⊎ IsOpen route

routes-Guarded : All Guarded routes
unfolding as_bytes
routes-Guarded = (
  inr (refl, inl refl, refl),
  (
    inr (refl, inr refl, refl),
    (
      inl refl,
      (inl refl, (inl refl, (inl refl, (inl refl, (inl refl, (inl refl, (inl refl, tt))))))),
    ),
  ),
)

module _ (K : Crates) where
  -- A handler's reply, not an error nor a response of axum.
  abbrev pub IsReply : Outcome K → Type 0
  IsReply (answered (ok reply)) = Unit
  IsReply (answered (err e)) = ⊥
  IsReply (rejected code) = ⊥

  -- What axum does: the route that it finds is of the table and its pattern fits the path, where a
  -- pattern without parameters fits one path only; a request without a route gets no reply of a
  -- handler; and a handler gets arguments of its own route.
  pub record AxumLaws (axum : Axum K) : Type 1 where
    pub Fits : String → String → Type 0
    pub found :
        (table : List Route) (request : HttpRequest K) (route : Route)
        → axum.find table request ≡ ok route
        → Memᴰ route table × Fits route.pattern request.path
    pub literal : (pattern path : String) → IsLiteral pattern → Fits pattern path → path ≡ pattern
    pub missed :
        (table : List Route) (request : HttpRequest K) (outcome : Outcome K)
        → axum.find table request ≡ err outcome
        → ¬ IsReply outcome
    pub own : Routes K axum.extract

  -- What a request gets that does not pass the HMAC check: the store is as before, and a handler's
  -- reply only at the two open paths.
  abbrev pub IsClosed : {S : Type 0} → HttpRequest K → Store K S → Outcome K × Store K S → Type 0
  IsClosed request s (outcome, s') =
      (s' ≡ s) × (IsReply outcome → (request.path ≡ "/healthz") ⊎ (request.path ≡ "/v1/info"))

  module _ (axum : Axum K) (laws : AxumLaws axum) {S : Type 0} (app : AppState K S) (now : ℤ)
      (draws : Draws K) (request : HttpRequest K) (s : Store K S) where
    -- The two handlers outside the layer change nothing.
    quiet :
        (call : Call K)
        → is_authenticated (endpoint_of K call) ≡ false
        → (handle K app draws call s).1 ≡ s
    unfolding handle
    quiet Call.healthz h = refl
    quiet Call.info h = refl
    quiet call h = cc h

    run_quiet :
        (endpoint : Endpoint)
        → is_authenticated endpoint ≡ false
        → (run_handler K app axum.extract draws endpoint request s).1 ≡ s
    unfolding run_handler
    run_quiet endpoint open_ = elim (Result-cases (axum.extract endpoint request)) [
      | inr (code, bad) ↦ rw (bad, run_handler) refl
      | inl (call, good) ↦
          let same = ap is_authenticated (laws.own endpoint request call good) in
          rw (good, run_handler) (quiet call (same ∙ open_))
    ]

    serve_quiet :
        (endpoint : Endpoint)
        → is_authenticated endpoint ≡ false
        → (serve K app axum.extract now draws endpoint request s).1 ≡ s
    unfolding serve
    serve_quiet endpoint open_ = rw open_ (run_quiet endpoint open_)

    pub router-IsClosed :
        (verifier : HmacAuthVerifier)
        → app.api_auth ≡ ApiAuth.hmac verifier
        → ¬ Passes K verifier now request
        → IsClosed request s (router K axum app now draws request s)
    router-IsClosed verifier auth bad = elim (Result-cases (axum.find routes request)) [
      | inr (outcome, none_) ↦
          rw (router-missed K axum app now draws request s outcome none_)
            (refl, λ reply. absurd (laws.missed routes request outcome none_ reply))
      | inl (route, found) ↦
          let (row, fits) = laws.found routes request route found in
          let served = router-serve K axum app now draws request s route found row in
          elim (All-mem Guarded route routes routes-Guarded row) [
            | inl layered ↦
                let (e, same, code) =
                  serve_refuses K app axum.extract now draws request s verifier route.endpoint auth
                    layered bad in
                rw (served, same) (refl, λ reply. absurd reply)
            | inr (open_, name, plain) ↦
                let path = laws.literal route.pattern request.path plain fits in
                (
                  ap (λ (r : Outcome K × Store K S). r.1) served ∙ serve_quiet route.endpoint open_,
                  λ reply. elim name [
                    | inl health ↦ inl (path ∙ health)
                    | inr info ↦ inr (path ∙ info)
                  ],
                )
          ]
    ]
