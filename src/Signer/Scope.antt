-- ===== src/Signer/Scope.antt =====
-- What the dev signer needs and what it does not look at.
use ai_wallet.Prelude.{ℕ, String, ◌≡◌, ◌⊎◌, ok, err, arith, refl, inl, inr, Result-cases}
use ai_wallet.Crates.{Crates}
use ai_wallet.Error.{AppError, status_code}
use ai_wallet.Model.{SignPayload}
use ai_wallet.Signer.{SignerEnvelope, LocalDevSigner, wallet, sign_payload, local_sign}

module _ (K : Crates) where
  pub wallet-status :
      (self : LocalDevSigner K) (c : ℕ) (e : AppError)
      → wallet K self c ≡ err e
      → status_code e ≡ 503
  unfolding wallet
  wallet-status self c e h = ground arith

  sign_payload-status :
      (w : K.LocalWallet) (c : ℕ) (from : String) (p : SignPayload K) (e : AppError)
      → sign_payload K w c from p ≡ err e
      → (status_code e ≡ 400) ⊎ (status_code e ≡ 503)
  unfolding sign_payload
  sign_payload-status w c from p e h = ground arith

  -- A refusal of the dev signer is a 400, for a payload that cannot be read, or a 503; without a
  -- usable key it is a 503 for every payload.
  pub local_sign-status :
      (self : LocalDevSigner K) (env : SignerEnvelope K) (e : AppError)
      → local_sign K self env ≡ err e
      → ((status_code e ≡ 400) × ((w : K.LocalWallet) × (wallet K self env.chain_id ≡ ok w)))
        ⊎ (status_code e ≡ 503)
  unfolding local_sign
  local_sign-status self env e h = elim (Result-cases (wallet K self env.chain_id)) [
    | inr (x, no_key) ↦ inr (ground (arith, wallet-status self env.chain_id x no_key))
    | inl (w, key) ↦
        elim (sign_payload-status w env.chain_id env.from_address env.payload e (ground arith)) [
          | inl bad ↦ inl (bad, (w, key))
          | inr unavailable ↦ inr unavailable
        ]
  ]

  -- Of the payloads, only a transaction names its sender.
  abbrev pub NamesSender : SignPayload K → Type 0
  NamesSender (SignPayload.transaction _ _ _ _ _ _ _) = Unit
  NamesSender _ = ⊥

  sign_payload_ignores :
      (w : K.LocalWallet) (c : ℕ) (from from' : String) (p : SignPayload K)
      → (NamesSender p → from ≡ from')
      → sign_payload K w c from p ≡ sign_payload K w c from' p
  unfolding sign_payload
  sign_payload_ignores w c from from' (SignPayload.raw_message m) h = refl
  sign_payload_ignores w c from from' (SignPayload.typed_data v) h = refl
  sign_payload_ignores w c from from' (SignPayload.transaction _ _ _ _ _ _ _) h = rw (h tt)

  -- The dev signer's answer depends on the chain and the payload, and on the sender only where the
  -- payload is a transaction: two envelopes that agree on these get the same answer, whatever their
  -- tenant, wallet and request id.
  pub local_sign_ignores :
      (self : LocalDevSigner K) (env env' : SignerEnvelope K)
      → env.chain_id ≡ env'.chain_id
      → env.payload ≡ env'.payload
      → (NamesSender env.payload → env.from_address ≡ env'.from_address)
      → local_sign K self env ≡ local_sign K self env'
  unfolding local_sign
  local_sign_ignores self env env' c p f = elim (Result-cases (wallet K self env.chain_id)) [
    | inr (x, e) ↦ ground arith
    | inl (w, e) ↦ ground (
      arith,
      sign_payload_ignores w env.chain_id env.from_address env'.from_address env.payload f,
    )
  ]
