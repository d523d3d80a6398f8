-- ===== src/Policy/Blind.antt =====
-- What `PolicyEngine::evaluate` does not look at.
use ai_wallet.Prelude.{ℕ, String, ◌≡◌, refl}
use ai_wallet.Crates.{Crates}
use ai_wallet.Model.{SignPayload, SignIntentRequest}
use ai_wallet.Policy.{check_payload, evaluate}

module _ (K : Crates) where
  pub evaluate_ignores_value :
      (req : SignIntentRequest K) (to value value' calldata calldata' : String) (gas gas' : ℕ)
      (fee fee' tip tip' : String) (nonce nonce' : ℕ)
      → evaluate K
          (record req { payload = SignPayload.transaction to value calldata gas fee tip nonce })
        ≡ evaluate K (record req {
          payload = SignPayload.transaction to value' calldata' gas' fee' tip' nonce';
        })
  unfolding evaluate check_payload
  evaluate_ignores_value req to value value' calldata calldata' gas gas' fee fee' tip tip' nonce
        nonce' =
      refl
