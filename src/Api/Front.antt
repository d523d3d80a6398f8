-- ===== src/Api/Front.antt =====
-- From an HTTP request to a signature: the router, the authentication layer and the handler of sign
-- intents of src/api.rs in one.
use ai_wallet.Prelude.{
  ◌≡◌, ◌≢◌, refl, ap, false, Bool-cases, [], ◌∷◌, ◌++◌, Option, none, some, Result, ok, err, arith,
  Result-cases, inl, inr, ℤ, ◌>>=◌,
}
use ai_wallet.Crates.{Crates, Bytes}
use ai_wallet.Error.{AppError}
use ai_wallet.Auth.{HmacAuthVerifier, ApiAuth, HttpRequest, body_limit}
use ai_wallet.Auth.Guard.{Passes, auth_middleware_cases}
use ai_wallet.Model.{
  approved, denied, requires_review, PolicyDecision, SignedArtifact, SignIntentRequest,
  SignIntentResponse,
}
use ai_wallet.Policy.{evaluate}
use ai_wallet.Signer.{SignerGateway}
use ai_wallet.Intent.{handle_sign_intent, envelope_of, intent_event}
use ai_wallet.Intent.Approval.{Signed, handle_sign_intent_ok, handle_sign_intent-event}
use ai_wallet.Api.Types.{
  Endpoint, is_authenticated, Call, Reply, answered, Draws, AppState, Store, Extract,
}
use ai_wallet.Api.{handle, sign_intent_handler, run_handler, serve}
use ai_wallet.Api.Access.{serve_refuses, serve-Passes}

module _ (K : Crates) where
  -- The route of a call.
  abbrev pub endpoint_of : Call K → Endpoint
  endpoint_of (Call.verify_message _) = Endpoint.verify_message
  endpoint_of (Call.verify_typed_data _) = Endpoint.verify_typed_data
  endpoint_of (Call.prepare_transfer _) = Endpoint.prepare_transfer
  endpoint_of (Call.simulate_transaction _) = Endpoint.simulate_transaction
  endpoint_of (Call.sign_intent _) = Endpoint.sign_intent
  endpoint_of (Call.broadcast_transaction _) = Endpoint.broadcast_transaction
  endpoint_of (Call.broadcast_status _) = Endpoint.broadcast_status
  endpoint_of (Call.audit_events _) = Endpoint.audit_events
  endpoint_of Call.healthz = Endpoint.healthz
  endpoint_of Call.info = Endpoint.info

  -- What axum's extraction does: the arguments are those of the route's own handler.
  abbrev pub Routes : Extract K → Type 0
  Routes extract =
      (endpoint : Endpoint) (request : HttpRequest K) (call : Call K)
      → extract endpoint request ≡ ok call
      → endpoint_of call ≡ endpoint

  abbrev pub IsIntent : Call K → Type 0
  IsIntent (Call.sign_intent _) = Unit
  IsIntent _ = ⊥

  pub IsIntent-eq :
      (call : Call K) → IsIntent call → (req : SignIntentRequest K) × (call ≡ Call.sign_intent req)
  IsIntent-eq (Call.sign_intent req) h = (req, refl)
  IsIntent-eq call h = absurd h

  abbrev pub IsSigned : Result (Reply K) AppError → Type 0
  IsSigned (ok (Reply.signed _)) = Unit
  IsSigned _ = ⊥

  pub replied-IsSigned :
      {A : Type 0} (f : A → Reply K) (r : Result A AppError)
      → ((a : A) → ¬ IsSigned (ok (f a)))
      → ¬ IsSigned (r >>= λ a. ok (f a))
  replied-IsSigned f (ok a) other h = other a h
  replied-IsSigned f (err e) other h = h

  signed_artifact-Signed :
      (signer : SignerGateway K) (id : K.Uuid) (now : K.DateTime) (req : SignIntentRequest K)
      (d : PolicyDecision) (artifact : Option SignedArtifact)
      → Signed K signer id now req d artifact
      → artifact ≢ none
      → (d ≡ approved)
        × ((a : SignedArtifact) × (signer.sign (envelope_of K id req) ≡ ok a) × (artifact ≡ some a))
  unfolding envelope_of
  signed_artifact-Signed signer id now req approved artifact s some_ = (refl, s)
  signed_artifact-Signed signer id now req denied artifact s some_ = absurd (some_ s)
  signed_artifact-Signed signer id now req requires_review artifact s some_ = absurd (some_ s)

  module _ {S : Type 0} (app : AppState K S) (draws : Draws K) (s : Store K S) where
    pub handle-IsIntent : (call : Call K) → IsSigned (handle K app draws call s).0 → IsIntent call
    unfolding handle
    handle-IsIntent (Call.verify_message req) h = replied-IsSigned Reply.verified _ (λ a n. n) h
    handle-IsIntent (Call.verify_typed_data req) h =
        replied-IsSigned Reply.verified_typed_data _ (λ a n. n) h
    handle-IsIntent (Call.prepare_transfer req) h = replied-IsSigned Reply.prepared _ (λ a n. n) h
    handle-IsIntent (Call.simulate_transaction req) h =
        replied-IsSigned Reply.simulated _ (λ a n. n) h
    handle-IsIntent (Call.sign_intent req) h = tt
    handle-IsIntent (Call.broadcast_transaction req) h =
        replied-IsSigned Reply.broadcast _ (λ a n. n) h
    handle-IsIntent (Call.broadcast_status id) h = replied-IsSigned Reply.status _ (λ a n. n) h
    handle-IsIntent (Call.audit_events query) h = replied-IsSigned Reply.events _ (λ a n. n) h
    handle-IsIntent Call.healthz h = h
    handle-IsIntent Call.info h = h

    -- What an answer with a signature says of its intent, and of the store after it.
    abbrev pub Vouched : SignIntentRequest K → SignIntentResponse K → Store K S → Type 0
    Vouched req response s' =
        (evaluate K req ≡ ok approved)
        × ((a : SignedArtifact) × (app.signer.sign (envelope_of K draws.id req) ≡ ok a)
            × (response.signed_artifact ≡ some a))
        × (s' ≡ record s { spawned = s.spawned ++ intent_event K req response ∷ [] })

    intent-Vouched :
        (req : SignIntentRequest K) (response : SignIntentResponse K)
        → (handle K app draws (Call.sign_intent req) s).0 ≡ ok (Reply.signed response)
        → response.signed_artifact ≢ none
        → Vouched req response (handle K app draws (Call.sign_intent req) s).1
    unfolding handle sign_intent_handler
    intent-Vouched req response e some_ =
        elim (Result-cases (handle_sign_intent K app.signer draws.id draws.now req)) [
          | inr (x, failed) ↦ absurd (ground arith)
          | inl ((r, event), made) ↦
              let same : r ≡ response = ground arith in
              let made' = rw same at made in
              let facts =
                handle_sign_intent_ok K app.signer draws.id draws.now req response event made' in
              let logged =
                handle_sign_intent-event K app.signer draws.id draws.now req response event made' in
              let (d, s) =
                signed_artifact-Signed app.signer draws.id draws.now req response.decision
                  response.signed_artifact facts.1 some_ in
              (rw d at facts.0, s, rw (made', sign_intent_handler, logged) refl)
        ]

  -- The request as the handler sees it, with the body that was read and checked.
  abbrev pub with_body : HttpRequest K → Bytes → HttpRequest K
  with_body request bytes = record request { to_bytes = λ _. ok bytes }

  module _ {S : Type 0} (app : AppState K S) (extract : Extract K) (draws : Draws K)
      (s : Store K S) where
    run_handler-Vouched :
        (endpoint : Endpoint) (request : HttpRequest K) (response : SignIntentResponse K)
        → (run_handler K app extract draws endpoint request s).0
          ≡ answered (ok (Reply.signed response))
        → response.signed_artifact ≢ none
        → (req : SignIntentRequest K) × (extract endpoint request ≡ ok (Call.sign_intent req))
          × Vouched app draws s req response (run_handler K app extract draws endpoint request s).1
    unfolding run_handler
    run_handler-Vouched endpoint request response h some_ =
        elim (Result-cases (extract endpoint request)) [
          | inr (code, bad) ↦ absurd (ground arith)
          | inl (call, good) ↦
              let h' : (handle K app draws call s).0 ≡ ok (Reply.signed response) = ground arith in
              let signs : IsSigned (handle K app draws call s).0 = rw h' tt in
              let (req, intent) = IsIntent-eq call (handle-IsIntent app draws s call signs) in
              let h'' = rw intent at h' in
              let own : extract endpoint request ≡ ok (Call.sign_intent req) = rw intent at good in
              (req, own, rw (own, run_handler) (intent-Vouched app draws s req response h'' some_))
        ]

    module _ (now : ℤ) (verifier : HmacAuthVerifier) (endpoint : Endpoint) (request : HttpRequest K)
        (response : SignIntentResponse K) where
      open_-unsigned :
          Routes extract
          → is_authenticated endpoint ≡ false
          → (serve K app extract now draws endpoint request s).0
            ≡ answered (ok (Reply.signed response))
          → ¬ (response.signed_artifact ≢ none)
      unfolding serve
      open_-unsigned routes open_ h some_ =
          let (req, own, vouched) =
            run_handler-Vouched endpoint request response (rw open_ at h) some_ in
          let layered = ap is_authenticated (routes endpoint request (Call.sign_intent req) own) in
          cc (layered, open_)

      -- With HMAC authentication, whatever a request asks for and at whichever route: if it is answered
      -- with a signature, then it passes the HMAC check, its body, as it was checked, is a sign intent
      -- that the policy approves, the signature is what the signer answers for that intent, and of the
      -- store exactly the audit task of that answer is new. Extraction gives a route's handler
      -- arguments of its own.
      pub signed-Passes :
          Routes extract
          → app.api_auth ≡ ApiAuth.hmac verifier
          → (serve K app extract now draws endpoint request s).0
            ≡ answered (ok (Reply.signed response))
          → response.signed_artifact ≢ none
          → Passes K verifier now request
            × (bytes : Bytes) × (request.to_bytes body_limit ≡ ok bytes)
            × (req : SignIntentRequest K) × (extract endpoint (with_body request bytes)
                ≡ ok (Call.sign_intent req))
            × Vouched app draws s req response (serve K app extract now draws endpoint request s).1
      signed-Passes routes auth h some_ = elim (Bool-cases (is_authenticated endpoint)) [
        | inr open_ ↦ absurd (open_-unsigned routes open_ h some_)
        | inl layered ↦
            elim (auth_middleware_cases K verifier now (run_handler K app extract draws endpoint)
              request s) [
                | inr (bad, _) ↦
                    let (e, same, code) =
                      serve_refuses K app extract now draws request s verifier endpoint auth layered
                        bad in
                    absurd (cc (rw same at h))
                | inl ((bytes, read, authentic), _) ↦
                    let passes : Passes K verifier now request = (bytes, read, authentic) in
                    let run =
                      serve-Passes K app extract now draws request s verifier endpoint bytes auth
                        layered read passes in
                    let (req, own, vouched) =
                      run_handler-Vouched endpoint (with_body request bytes) response (rw run at h)
                        some_ in
                    (passes, bytes, read, req, own, rw run vouched)
              ]
      ]
