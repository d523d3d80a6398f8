-- ===== src/Intent/Approval.antt =====
-- Sign intents against the decision of the policy.
use ai_wallet.Prelude.{
  ◌≡◌, ◌↔◌, ◌⊎◌, inl, inr, none, some, Option, Result-cases, ok, err, arith, refl,
}
use ai_wallet.Crates.{Crates}
use ai_wallet.Error.{AppError}
use ai_wallet.Model.{
  PolicyDecision, approved, denied, requires_review, SignedArtifact, SignIntentRequest,
  SignIntentResponse, AuditEventInput,
}
use ai_wallet.Policy.{evaluate}
use ai_wallet.Signer.{SignerGateway}
use ai_wallet.Intent.{
  envelope_of, artifact_for, response_of, intent_event, decision_text, handle_sign_intent,
}

module _ (K : Crates) (signer : SignerGateway K) (request_id : K.Uuid) (now : K.DateTime)
    (req : SignIntentRequest K) where
  -- The signature in the answer: the signer's to this very request, with its payload, chain and sender,
  -- where it was approved, else none.
  abbrev pub Signed : PolicyDecision → Option SignedArtifact → Type 0
  Signed approved artifact =
      (a : SignedArtifact) × (signer.sign (record {
        request_id = request_id;
        tenant_id = req.tenant_id;
        wallet_id = req.wallet_id;
        chain_id = req.chain_id;
        from_address = req.from_address;
        payload = req.payload;
      })
        ≡ ok a)
      × (artifact ≡ some a)
  Signed denied artifact = artifact ≡ none
  Signed requires_review artifact = artifact ≡ none

  artifact_for-Signed :
      (d : PolicyDecision) (o : Option SignedArtifact)
      → artifact_for K signer request_id req d ≡ ok o
      → Signed d o
  unfolding artifact_for envelope_of
  artifact_for-Signed approved o h =
      elim (Result-cases (signer.sign (envelope_of K request_id req))) [
        | inr (x, e) ↦ absurd (ground arith)
        | inl (a, e) ↦ (a, e, ground arith)
      ]
  artifact_for-Signed denied o h = ground arith
  artifact_for-Signed requires_review o h = ground arith

  handle_sign_intent-parts :
      (response : SignIntentResponse K) (event : AuditEventInput K)
      → handle_sign_intent K signer request_id now req ≡ ok (response, event)
      → (d : PolicyDecision) × (o : Option SignedArtifact) × (evaluate K req ≡ ok d)
        × (artifact_for K signer request_id req d ≡ ok o)
        × (response ≡ response_of K signer request_id now d o)
        × (event ≡ intent_event K req (response_of K signer request_id now d o))
  unfolding handle_sign_intent
  handle_sign_intent-parts response event h = elim (Result-cases (evaluate K req)) [
    | inr (x, e) ↦ absurd (ground arith)
    | inl (d, e) ↦ elim (Result-cases (artifact_for K signer request_id req d)) [
      | inr (x, e') ↦ absurd (ground arith)
      | inl (o, e') ↦ (d, o, e, e', ground arith, ground arith)
    ]
  ]

  -- The event is the one of the answer.
  pub handle_sign_intent-event :
      (response : SignIntentResponse K) (event : AuditEventInput K)
      → handle_sign_intent K signer request_id now req ≡ ok (response, event)
      → event ≡ intent_event K req response
  handle_sign_intent-event response event h =
      let (d, o, decided, made, same, logged) = handle_sign_intent-parts response event h in
      rw same logged

  -- An answered intent carries the policy's decision and the request's own id, and its event names
  -- both with the tenant, wallet and actor. It carries a signature exactly when the decision is
  -- approval, and then it is the signer's signature of the request's own payload, chain and sender.
  pub handle_sign_intent_ok :
      (response : SignIntentResponse K) (event : AuditEventInput K)
      → handle_sign_intent K signer request_id now req ≡ ok (response, event)
      → (evaluate K req ≡ ok response.decision)
        × Signed response.decision response.signed_artifact
        × (response.request_id ≡ request_id)
        × (event.request_id ≡ some request_id)
        × (event.status ≡ decision_text response.decision)
        × (event.tenant_id ≡ some req.tenant_id)
        × (event.wallet_id ≡ some req.wallet_id)
        × (event.actor ≡ some req.policy_context.actor)
  unfolding response_of intent_event
  handle_sign_intent_ok response event h =
      let (d, o, decided, made, same, logged) = handle_sign_intent-parts response event h in
      rw (same, logged) (decided, artifact_for-Signed d o made, refl, refl, refl, refl, refl, refl)

  -- The intent fails exactly when the policy cannot evaluate it, or approves it and the signer fails;
  -- the error is theirs. No event is recorded then.
  pub handle_sign_intent-eq-err_iff :
      (e : AppError)
      → (handle_sign_intent K signer request_id now req ≡ err e) ↔ (
          (evaluate K req ≡ err e)
          ⊎ ((evaluate K req ≡ ok approved) × (signer.sign (envelope_of K request_id req) ≡ err e)))
  unfolding handle_sign_intent artifact_for
  handle_sign_intent-eq-err_iff e = (
    λ h. elim (Result-cases (evaluate K req)) [
      | inr (x, bad) ↦ inl (ground arith)
      | inl (approved, good) ↦ elim (Result-cases (signer.sign (envelope_of K request_id req))) [
        | inr (x, refused) ↦ inr (good, ground arith)
        | inl (a, made) ↦ absurd (ground arith)
      ]
      | inl (denied, good) ↦ absurd (ground arith)
      | inl (requires_review, good) ↦ absurd (ground arith)
    ],
    λ h. ground arith,
  )
