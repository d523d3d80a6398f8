-- ===== src/Api/Router.antt =====
-- src/api.rs, `router`: the table of routes, and the layer of the middleware on a part of it. Which
-- route fits a request is axum's to say.
use mathlib.Core.List.{Memᴰ}
use ai_wallet.Prelude.{
  String, Bool, true, false, List, [], ◌∷◌, Result, ok, err, ℤ, if◌then◌else◌, All, ◌≡◌, refl,
  All-mem,
}
use ai_wallet.Crates.{Crates}
use ai_wallet.Auth.{HttpRequest, auth_middleware}
use ai_wallet.Api.Types.{
  Endpoint, is_authenticated, Draws, AppState, Store, Outcome, Extract, flatten,
}
use ai_wallet.Api.{run_handler, serve}

-- `get` and `post` of axum's `routing`.
pub data Method : Type 0 where
  get post : Method

-- One call of `route`; `layered` where the layer of `auth_middleware` is put on it.
pub record Route : Type 0 where
  pub pattern : String
  pub method : Method
  pub endpoint : Endpoint
  pub layered : Bool

abbrev guarded : String → Method → Endpoint → Route
guarded pattern method endpoint = record {
  pattern = pattern;
  method = method;
  endpoint = endpoint;
  layered = true;
}

abbrev pub authenticated_routes : List Route
authenticated_routes =
    guarded "/v1/evm/verify-message" post Endpoint.verify_message
    ∷ guarded "/v1/evm/verify-typed-data" post Endpoint.verify_typed_data
    ∷ guarded "/v1/evm/prepare-transfer" post Endpoint.prepare_transfer
    ∷ guarded "/v1/evm/simulate-transaction" post Endpoint.simulate_transaction
    ∷ guarded "/v1/evm/sign-intent" post Endpoint.sign_intent
    ∷ guarded "/v1/evm/broadcast-transaction" post Endpoint.broadcast_transaction
    ∷ guarded "/v1/evm/broadcast-status/{broadcast_id}" get Endpoint.broadcast_status
    ∷ guarded "/v1/audit-events" get Endpoint.audit_events
    ∷ []

abbrev pub routes : List Route
routes =
    record { pattern = "/healthz"; method = get; endpoint = Endpoint.healthz; layered = false }
    ∷ record { pattern = "/v1/info"; method = get; endpoint = Endpoint.info; layered = false }
    ∷ authenticated_routes

abbrev Agrees : Route → Type 0
Agrees route = route.layered ≡ is_authenticated route.endpoint

routes-Agrees : All Agrees routes
routes-Agrees = (refl, (refl, (refl, (refl, (refl, (refl, (refl, (refl, (refl, (refl, tt))))))))))

module _ (K : Crates) where
  -- axum: the route of a table that fits a request, or the response where none does, and the
  -- arguments of a route's handler.
  pub record Axum : Type 0 where
    pub find : List Route → HttpRequest K → Result Route (Outcome K)
    pub extract : Extract K

  module _ (axum : Axum) {S : Type 0} (app : AppState K S) where
    unfoldable pub router : ℤ → Draws K → HttpRequest K → Store K S → Outcome K × Store K S
    unfolding run_handler
    router now draws request s = elim (axum.find routes request) [
      | err outcome ↦ (outcome, s)
      | ok route ↦
          if route.layered
          then (let (r, s') =
                auth_middleware K app.api_auth now
                  (run_handler K app axum.extract draws route.endpoint) request s in
              (flatten K r, s'))
          else run_handler K app axum.extract draws route.endpoint request s
    ]

    -- The router serves the route that axum finds.
    pub router-serve :
        (now : ℤ) (draws : Draws K) (request : HttpRequest K) (s : Store K S) (route : Route)
        → axum.find routes request ≡ ok route
        → Memᴰ route routes
        → router now draws request s ≡ serve K app axum.extract now draws route.endpoint request s
    unfolding router serve
    router-serve now draws request s route found row =
        let agrees = All-mem Agrees route routes routes-Agrees row in
        rw (found, router) (rw agrees refl)

    pub router-missed :
        (now : ℤ) (draws : Draws K) (request : HttpRequest K) (s : Store K S) (outcome : Outcome K)
        → axum.find routes request ≡ err outcome
        → router now draws request s ≡ (outcome, s)
    unfolding router
    router-missed now draws request s outcome missed = rw (missed, router) refl
