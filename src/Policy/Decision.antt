-- ===== src/Policy/Decision.antt =====
-- What `PolicyEngine::evaluate` decides, against an independent description of the policy.
use ai_wallet.Prelude.{
  ℕ, String, ◌≡◌, ◌≢◌, ◌↔◌, ◌⊎◌, ◌<◌, ◌≤◌, inl, inr, none, some, ok, err, arith, refl, IsBlank,
  IsBlank-of_trim, trim-of_IsBlank, Option-cases, Result-cases,
}
use ai_wallet.Number.{parse_u128}
use ai_wallet.Crates.{Crates}
use ai_wallet.Error.{AppError, status_code}
use ai_wallet.Fields.{parse_address}
use ai_wallet.Model.{
  OperationKind, contract_call, PolicyDecision, approved, denied, requires_review, SignPayload,
  SignIntentRequest,
}
use ai_wallet.Policy.{review_limit, classify, check_payload, evaluate}

-- The policy: a large declared value wants review, a contract call wants a purpose.
abbrev pub Decides : ℕ → OperationKind → String → PolicyDecision → Type 0
Decides value operation purpose requires_review = review_limit < value
Decides value operation purpose denied =
    (value ≤ review_limit) × (operation ≡ contract_call) × IsBlank purpose
Decides value operation purpose approved =
    (value ≤ review_limit) × ((operation ≢ contract_call) ⊎ (¬ IsBlank purpose))

classify-Decides :
    (value : ℕ) (o : OperationKind) (purpose : String)
    → Decides value o purpose (classify value o purpose)
unfolding classify
classify-Decides value o purpose = ground (arith, IsBlank-of_trim purpose, trim-of_IsBlank purpose)

Decides-unique :
    (value : ℕ) (o : OperationKind) (purpose : String) (d e : PolicyDecision)
    → Decides value o purpose d
    → Decides value o purpose e
    → d ≡ e
Decides-unique value o purpose d e h k = grind arith

module _ (K : Crates) where
  -- What the payload has to be: typed data that parses and names a chain, or a transaction whose
  -- destination is an address.
  abbrev pub AcceptsPayload : SignPayload K → Type 0
  AcceptsPayload (SignPayload.raw_message _) = Unit
  AcceptsPayload (SignPayload.typed_data value) =
      (t : K.TypedData) × (K.typed_data_from_value value ≡ ok t) × (K.domain_chain_id t ≢ none)
  AcceptsPayload (SignPayload.transaction to _ _ _ _ _ _) =
      (a : K.Address) × (K.address_from_str to ≡ ok a)

  pub record IsWellFormed (req : SignIntentRequest K) (value : ℕ) : Type 0 where
    pub amount : parse_u128 req.policy_context.max_value_wei ≡ some value
    pub chain : req.chain_id ≢ 0
    pub from : ¬ IsBlank req.from_address
    pub wallet : ¬ IsBlank req.wallet_id
    pub payload : AcceptsPayload req.payload

  check_payload_iff : (p : SignPayload K) → (check_payload K p ≡ ok tt) ↔ AcceptsPayload p
  unfolding check_payload parse_address
  check_payload_iff (SignPayload.raw_message m) = (λ _. tt, λ _. refl)
  check_payload_iff (SignPayload.typed_data value) = (
    λ h. elim (Result-cases (K.typed_data_from_value value)) [
      | inl (t, e) ↦ (t, e, ground arith)
      | inr (x, e) ↦ absurd (ground arith)
    ],
    λ h. ground arith,
  )
  check_payload_iff (SignPayload.transaction to v d g m n o) = (
    λ h. elim (Result-cases (K.address_from_str to)) [
      | inl (a, e) ↦ (a, e)
      | inr (x, e) ↦ absurd (ground arith)
    ],
    λ h. ground arith,
  )

  -- `evaluate` answers `d` exactly when the request is well formed and the policy decides `d`.
  pub evaluate-eq-ok_iff :
      (req : SignIntentRequest K) (d : PolicyDecision)
      → (evaluate K req ≡ ok d) ↔ (
          (value : ℕ) × IsWellFormed req value
          × Decides value req.operation req.policy_context.purpose d)
  unfolding evaluate
  evaluate-eq-ok_iff req d = (
    λ h. elim (Option-cases (parse_u128 req.policy_context.max_value_wei)) [
      | inl bad ↦ absurd (ground arith)
      | inr (value, read) ↦ (
        value,
        record {
          amount = read;
          chain = ground arith;
          from = ground (arith, trim-of_IsBlank req.from_address);
          wallet = ground (arith, trim-of_IsBlank req.wallet_id);
          payload = (check_payload_iff req.payload).0 (ground arith);
        },
        ground (arith, classify-Decides value req.operation req.policy_context.purpose),
      )
    ],
    λ (value, w, h). ground (
      arith,
      (check_payload_iff req.payload).1 w.payload,
      w.amount,
      w.chain,
      IsBlank-of_trim req.from_address,
      IsBlank-of_trim req.wallet_id,
      w.from,
      w.wallet,
      classify-Decides value req.operation req.policy_context.purpose,
      Decides-unique value req.operation req.policy_context.purpose d
          (classify value req.operation req.policy_context.purpose) h,
    ),
  )

  -- Every refusal of `evaluate` is a 400.
  pub evaluate-status :
      (req : SignIntentRequest K) (e : AppError) → evaluate K req ≡ err e → status_code e ≡ 400
  unfolding evaluate check_payload parse_address
  evaluate-status req e h = grind arith
