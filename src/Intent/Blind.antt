-- ===== src/Intent/Blind.antt =====
-- What the handling of a sign intent does not look at.
use ai_wallet.Prelude.{ℕ, String, ◌≡◌, refl}
use ai_wallet.Crates.{Crates}
use ai_wallet.Model.{SignPayload, SignIntentRequest}
use ai_wallet.Policy.{evaluate}
use ai_wallet.Policy.Blind.{evaluate_ignores_value}
use ai_wallet.Signer.{SignerGateway}
use ai_wallet.Intent.{handle_sign_intent, artifact_for, envelope_of, intent_event}

module _ (K : Crates) where
  -- Neither the idempotency key nor the source address of an intent matters: two intents that differ
  -- in them get the same answer and leave the same audit event, so a repeated key is signed again. And
  -- the decision on a transaction depends on its destination alone: two transactions to one address get
  -- the same decision whatever their value, calldata, gas, fees and nonce, so the limit on the value is
  -- held against `max_value_wei`, which the caller declares, and never against `value_wei`.
  pub handle_sign_intent_ignores :
      (signer : SignerGateway K) (id : K.Uuid) (now : K.DateTime) (req : SignIntentRequest K)
      (idempotency_key source_ip : String) (to value value' calldata calldata' : String)
      (gas gas' : ℕ) (fee fee' tip tip' : String) (nonce nonce' : ℕ)
      → (handle_sign_intent K signer id now (record req {
        policy_context = record req.policy_context {
          idempotency_key = idempotency_key;
          source_ip = source_ip;
        };
      })
          ≡ handle_sign_intent K signer id now req)
        × (evaluate K
              (record req { payload = SignPayload.transaction to value calldata gas fee tip nonce })
            ≡ evaluate K (record req {
              payload = SignPayload.transaction to value' calldata' gas' fee' tip' nonce';
            }))
  unfolding handle_sign_intent evaluate artifact_for envelope_of intent_event
  handle_sign_intent_ignores signer id now req idempotency_key source_ip to value value' calldata
        calldata' gas gas' fee fee' tip tip' nonce nonce' =
      (
        refl,
        evaluate_ignores_value K req to value value' calldata calldata' gas gas' fee fee' tip tip'
            nonce nonce',
      )
