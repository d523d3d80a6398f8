-- ===== src/System/Requests.antt =====
-- A request at the router of src/api.rs as steps of the running server.
use ai_wallet.Prelude.{
  ◌≡◌, ◌⊎◌, refl, sym, ◌∙◌, ap, List, ◌∷◌, ok, err, inl, inr, ℤ, Bool-cases, Result, Result-cases,
}
use ai_wallet.Crates.{Crates, Bytes}
use ai_wallet.Error.{AppError}
use ai_wallet.Auth.{body_limit, ApiAuth, HttpRequest, auth_middleware}
use ai_wallet.Auth.Guard.{auth_middleware_cases}
use ai_wallet.Api.Types.{
  Endpoint, is_authenticated, Call, Reply, Draws, AppState, Store, Outcome, answered, rejected,
  Extract,
}
use ai_wallet.Api.{handle, run_handler, serve}
use ai_wallet.Api.Front.{endpoint_of, Routes}
use ai_wallet.Api.Closed.{IsReply, AxumLaws}
use ai_wallet.Api.Router.{Route, Axum, routes, router, router-serve, router-missed}
use ai_wallet.System.{IsBroadcast, Happened, Server, Run, here, remember}
use ai_wallet.System.Prompt.{IsPrompt, handle-Run}

module _ (K : Crates) where
  -- What the layer of authentication hands on of a request: the request, or it with the body as read.
  abbrev pub IsReadAs : HttpRequest K → HttpRequest K → Type 0
  IsReadAs request seen =
      (seen ≡ request)
      ⊎ ((bytes : Bytes) × (request.to_bytes body_limit ≡ ok bytes)
          × (seen ≡ record request { to_bytes = λ _. ok bytes }))

  -- The request is routed to a handler and the call has its arguments, as extracted from it.
  abbrev pub Carries : Axum K → HttpRequest K → Call K → Type 0
  Carries axum request call =
      (route : Route) × (axum.find routes request ≡ ok route)
      × (seen : HttpRequest K) × IsReadAs request seen
      × (axum.extract route.endpoint seen ≡ ok call)

module _ (K : Crates) {S : Type 0} (app : AppState K S) where
  remember-told :
      (call : Call K) (r : Result (Reply K) AppError) (reply : Reply K)
      (history : List (Happened K))
      → answered r ≡ answered (ok reply)
      → remember K call r history ≡ Happened.answered call reply ∷ history
  remember-told call (ok given) reply history e =
      let same : given ≡ reply = cc in ap (λ x. Happened.answered call x ∷ history) same
  remember-told call (err x) reply history e = cc

  remember-quiet :
      (call : Call K) (r : Result (Reply K) AppError) (history : List (Happened K))
      → ¬ IsReply K (answered r)
      → remember K call r history ≡ history
  remember-quiet call (ok given) history n = absurd (n tt)
  remember-quiet call (err x) history n = refl

  -- A response to a request, with the store after it, as the server sees them: some steps lead to that
  -- store, and if a reply is given, what has happened is that it was given to such a call, and nothing if none is.
  pub record IsServed (Own : Call K → Type 0) (w : Server K app) (outcome : Outcome K)
      (s : Store K S) : Type 0 where
    pub history : List (Happened K)
    pub run : Run K app w (record w { store = s; history = history })
    pub told :
        (reply : Reply K)
        → outcome ≡ answered (ok reply)
        → (call : Call K) × Own call × (history ≡ Happened.answered call reply ∷ w.history)
    pub quiet : ¬ IsReply K outcome → history ≡ w.history

  pub unanswered :
      {Own : Call K → Type 0} (w : Server K app) (outcome : Outcome K)
      → ¬ IsReply K outcome
      → IsServed Own w outcome w.store
  unanswered w outcome silent = record {
    history = w.history;
    run = here;
    told = λ reply h. absurd (silent (rw h tt));
    quiet = λ n. refl;
  }

  -- The middleware stops a request, or hands it on to what comes next.
  middleware-cases :
      {T R : Type 0} (auth : ApiAuth) (now : ℤ) (handler : HttpRequest K → T → R × T)
      (request : HttpRequest K) (s : T)
      → ((e : AppError) × (auth_middleware K auth now handler request s ≡ (err e, s)))
        ⊎ ((request' : HttpRequest K) × IsReadAs K request request'
            × (auth_middleware K auth now handler request s
                ≡ (ok (handler request' s).0, (handler request' s).1)))
  unfolding auth_middleware
  middleware-cases ApiAuth.disabled now handler request s = inr (request, inl refl, refl)
  middleware-cases (ApiAuth.hmac verifier) now handler request s =
      elim (auth_middleware_cases K verifier now handler request s) [
        | inl ((bytes, read, authentic), handed) ↦ inr (
          record request { to_bytes = λ _. ok bytes },
          inr (bytes, read, refl),
          handed bytes read,
        )
        | inr (_, (e, stopped, _)) ↦ inl (e, stopped)
      ]

  IsBroadcast-endpoint :
      (call : Call K) → IsBroadcast K call → endpoint_of K call ≡ Endpoint.broadcast_transaction
  IsBroadcast-endpoint (Call.broadcast_transaction request) b = refl
  IsBroadcast-endpoint call b = absurd b

  -- What is asked of a request's draws: a broadcast draws a new id and finds a place at once.
  abbrev pub IsPromptAt : Endpoint → Draws K → Store K S → Type 0
  IsPromptAt endpoint draws s = endpoint ≡ Endpoint.broadcast_transaction → IsPrompt K app draws s

  module _ (extract : Extract K) (own : Routes K extract) (draws : Draws K) (endpoint : Endpoint)
      (Own : Call K → Type 0) where
    run_handler-IsServed :
        (request : HttpRequest K) (w : Server K app)
        → ((call : Call K) → extract endpoint request ≡ ok call → Own call)
        → IsPromptAt endpoint draws w.store
        → IsServed Own w
            (run_handler K app extract draws endpoint request w.store).0
            (run_handler K app extract draws endpoint request w.store).1
    unfolding run_handler
    run_handler-IsServed request w its h = elim (Result-cases (extract endpoint request)) [
      | inr (code, bad) ↦ rw (bad, run_handler) (unanswered w (rejected code) (λ b. b))
      | inl (call, good) ↦
          rw (good, run_handler)
            (record {
              history = remember K call (handle K app draws call w.store).0 w.history;
              run =
                  handle-Run K app draws call w
                    (λ b. h (sym (own endpoint request call good) ∙ IsBroadcast-endpoint call b));
              told = λ reply e. (
                call,
                its call good,
                remember-told call (handle K app draws call w.store).0 reply w.history e,
              );
              quiet = remember-quiet call (handle K app draws call w.store).0 w.history;
            })
    ]

    serve-IsServed :
        (now : ℤ) (request : HttpRequest K) (w : Server K app)
        → ((seen : HttpRequest K) (call : Call K)
            → IsReadAs K request seen
            → extract endpoint seen ≡ ok call
            → Own call)
        → IsPromptAt endpoint draws w.store
        → IsServed Own w
            (serve K app extract now draws endpoint request w.store).0
            (serve K app extract now draws endpoint request w.store).1
    unfolding serve
    serve-IsServed now request w its h = elim (Bool-cases (is_authenticated endpoint)) [
      | inr open_ ↦
          rw open_ (run_handler-IsServed request w (λ call. its request call (inl refl)) h)
      | inl layered ↦
          elim (middleware-cases app.api_auth now (run_handler K app extract draws endpoint) request
            w.store) [
              | inl (e, stopped) ↦
                  rw layered (rw stopped (unanswered w (answered (err e)) (λ b. b)))
              | inr (request', same, handed) ↦
                  rw layered
                    (rw handed (run_handler-IsServed request' w (λ call. its request' call same) h))
            ]
    ]

  pub router-IsServed :
      (axum : Axum K) (laws : AxumLaws K axum) (now : ℤ) (draws : Draws K) (request : HttpRequest K)
      (w : Server K app)
      → ((route : Route)
          → axum.find routes request ≡ ok route
          → IsPromptAt route.endpoint draws w.store)
      → IsServed
          (Carries K axum request)
          w
          (router K axum app now draws request w.store).0
          (router K axum app now draws request w.store).1
  router-IsServed axum laws now draws request w h = elim (Result-cases (axum.find routes request)) [
    | inr (outcome, none_) ↦
        rw (router-missed K axum app now draws request w.store outcome none_)
          (unanswered w outcome (laws.missed routes request outcome none_))
    | inl (route, found) ↦
        rw
          (router-serve K axum app now draws request w.store route found
            (laws.found routes request route found).0)
          (serve-IsServed axum.extract laws.own draws route.endpoint (Carries K axum request) now
            request w (λ seen call same good. (route, found, seen, same, good)) (h route found))
  ]
