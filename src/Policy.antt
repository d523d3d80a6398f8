-- ===== src/Policy.antt =====
-- src/service.rs, `PolicyEngine::evaluate`.
pub mod Decision
pub mod Blind
use ai_wallet.Prelude.{
  ℕ, String, Bool, true, false, ◌&&◌, ◌||◌, none, some, Option, Result, ok, err, map_err, ok_or,
  fail_if, ◌>>=◌, ◌>>◌, ltb, ◌==◌, if◌then◌else◌, is_empty, trim, ◌⧺◌,
}
use ai_wallet.Number.{parse_u128}
use ai_wallet.Crates.{Crates}
use ai_wallet.Error.{AppError, bad_request}
use ai_wallet.Fields.{parse_address}
use ai_wallet.Model.{
  OperationKind, contract_call, PolicyDecision, approved, denied, requires_review, SignPayload,
  SignIntentRequest,
}

-- 0.01 ether.
abbrev pub review_limit : ℕ
review_limit = 10_000_000_000_000_000

abbrev pub is_contract_call : OperationKind → Bool
is_contract_call contract_call = true
is_contract_call _ = false

-- `is_none().then(err)`
abbrev require_some {ℓ} : {A : Type ℓ} → Option A → AppError → Result (Unit {0}) AppError
require_some none e = err e
require_some (some a) e = ok tt

-- The end of `evaluate`, once the request is known to be well formed.
unfoldable pub classify : ℕ → OperationKind → String → PolicyDecision
classify value operation purpose =
    if ltb review_limit value
    then requires_review
    else if is_contract_call operation && is_empty (trim purpose)
    then denied
    else approved

module _ (K : Crates) where
  unfoldable pub check_payload : SignPayload K → Result (Unit {0}) AppError
  unfolding parse_address
  check_payload (SignPayload.typed_data value) = do
    parsed ←
        map_err (λ e. bad_request ("invalid typed_data payload: " ⧺ e))
          (K.typed_data_from_value value)
    require_some (K.domain_chain_id parsed) (bad_request "typed_data.domain.chainId is required")
  check_payload (SignPayload.transaction to _ _ _ _ _ _) = do _ ← parse_address K to; ok tt
  check_payload (SignPayload.raw_message _) = ok tt

  unfoldable pub evaluate : SignIntentRequest K → Result PolicyDecision AppError
  evaluate req = do
    value ←
        ok_or (bad_request "policy_context.max_value_wei must be a base-10 integer")
          (parse_u128 req.policy_context.max_value_wei)
    fail_if (req.chain_id == 0) (bad_request "chain_id must be non-zero")
    fail_if (is_empty (trim req.from_address) || is_empty (trim req.wallet_id))
        (bad_request "wallet_id and from_address are required")
    check_payload req.payload
    ok (classify value req.operation req.policy_context.purpose)
