-- ===== src/Boot/Chosen.antt =====
-- What the variables of the environment choose: the authentication and the signer of a state.
use ai_wallet.Prelude.{
  Bool, ◌||◌, ◌⊎◌, List, [], ◌∷◌, String, if◌then◌else◌, Option-cases, ◌≡◌, ◌↔◌, Option, none, some,
  Result-cases, ok, arith, refl, true, false, unwrap_or, inl, inr,
}
use ai_wallet.Crates.{Crates}
use ai_wallet.Config.{
  AppConfig, AuthMode, SignerMode, Env, lower_is, read_auth_mode, read_signer_mode, from_env,
}
use ai_wallet.Audit.{Postgres}
use ai_wallet.Auth.{ApiAuth, from_config}
use ai_wallet.Signer.{SignerGateway, mock_signer, local_dev_signer}
use ai_wallet.Signer.Remote.{RemoteSignerClient, remote_signer}
use ai_wallet.Signer.Tls.{Host, new_client}
use ai_wallet.Boot.{build_signer, Built, build_state}
use ai_wallet.Boot.Secured.{build_state-parts}

from_config-disabled_iff :
    (mode : AuthMode) (key secret : Option String) (skew : _) (auth : ApiAuth)
    → from_config mode key secret skew ≡ ok auth
    → (auth ≡ ApiAuth.disabled) ↔ (mode ≡ AuthMode.disabled)
unfolding from_config
from_config-disabled_iff AuthMode.disabled key secret skew auth h = (λ _. refl, λ _. cc)
from_config-disabled_iff AuthMode.hmac none secret skew auth h = cc
from_config-disabled_iff AuthMode.hmac (some k) none skew auth h = cc
from_config-disabled_iff AuthMode.hmac (some k) (some s) skew auth h = (λ e. cc, λ e. cc)

read_auth_mode-disabled_iff :
    (word : String) → (read_auth_mode word ≡ AuthMode.disabled) ↔ (lower_is word "hmac" ≡ false)
unfolding read_auth_mode
read_auth_mode-disabled_iff word =
    elim (lower_is word "hmac")
      as (λ b.
        ((if b then AuthMode.hmac else AuthMode.disabled) ≡ AuthMode.disabled) ↔ (b ≡ false)) [
          | true ↦ (λ e. cc, λ e. cc)
          | false ↦ (λ _. refl, λ _. refl)
        ]

-- The word is one of these, in letters of any case.
abbrev pub Named : String → List String → Type 0
Named word [] = ⊥
Named word (name ∷ names) = (lower_is word name ≡ true) ⊎ Named word names

-- The mode of the three words for the dev signer and the three for the remote one.
mode_of_tests :
    (a b c d e f : Bool)
    → (((a ≡ true) ⊎ ((b ≡ true) ⊎ ((c ≡ true) ⊎ ⊥)))
        × ((if a || b || c
              then SignerMode.local_dev
              else if d || e || f
              then SignerMode.remote_mtls
              else SignerMode.mock)
            ≡ SignerMode.local_dev))
      ⊎ ((((d ≡ true) ⊎ ((e ≡ true) ⊎ ((f ≡ true) ⊎ ⊥)))
            × ((if a || b || c
                  then SignerMode.local_dev
                  else if d || e || f
                  then SignerMode.remote_mtls
                  else SignerMode.mock)
                ≡ SignerMode.remote_mtls))
          ⊎ (¬ ((a ≡ true) ⊎ ((b ≡ true) ⊎ ((c ≡ true) ⊎ ⊥)))
              × ¬ ((d ≡ true) ⊎ ((e ≡ true) ⊎ ((f ≡ true) ⊎ ⊥)))
              × ((if a || b || c
                    then SignerMode.local_dev
                    else if d || e || f
                    then SignerMode.remote_mtls
                    else SignerMode.mock)
                  ≡ SignerMode.mock)))
mode_of_tests true b c d e f = inl (inl refl, refl)
mode_of_tests false true c d e f = inl (inr (inl refl), refl)
mode_of_tests false false true d e f = inl (inr (inr (inl refl)), refl)
mode_of_tests false false false true e f = inr (inl (inl refl, refl))
mode_of_tests false false false false true f = inr (inl (inr (inl refl), refl))
mode_of_tests false false false false false true = inr (inl (inr (inr (inl refl)), refl))
mode_of_tests false false false false false false =
    inr (inr (λ h. ground arith, λ h. ground arith, refl))

-- A word is read as the mode that it names.
read_signer_mode-Named :
    (word : String)
    → (Named word ("local" ∷ "local-dev" ∷ "local_dev" ∷ [])
        × (read_signer_mode word ≡ SignerMode.local_dev))
      ⊎ ((Named word ("remote-mtls" ∷ "remote_mtls" ∷ "remote" ∷ [])
            × (read_signer_mode word ≡ SignerMode.remote_mtls))
          ⊎ (¬ Named word ("local" ∷ "local-dev" ∷ "local_dev" ∷ [])
              × ¬ Named word ("remote-mtls" ∷ "remote_mtls" ∷ "remote" ∷ [])
              × (read_signer_mode word ≡ SignerMode.mock)))
unfolding read_signer_mode
read_signer_mode-Named word =
    mode_of_tests (lower_is word "local") (lower_is word "local-dev") (lower_is word "local_dev")
      (lower_is word "remote-mtls") (lower_is word "remote_mtls") (lower_is word "remote")

module _ (K : Crates) (H : Host K) where
  -- The signer that a mode stands for.
  abbrev pub Chosen : AppConfig → SignerMode → SignerGateway K → Type 0
  Chosen config SignerMode.mock signer = signer ≡ mock_signer K
  Chosen config SignerMode.local_dev signer =
      signer ≡ local_dev_signer K (record { private_key = config.dev_private_key })
  Chosen config SignerMode.remote_mtls signer =
      (url : String) × (cert : String) × (key : String) × (ca : String)
      × (client : RemoteSignerClient K) × (config.signer_url ≡ some url)
      × (config.signer_client_cert_path ≡ some cert)
      × (config.signer_client_key_path ≡ some key)
      × (config.signer_ca_cert_path ≡ some ca)
      × (new_client K H url cert key ca ≡ ok client)
      × (signer ≡ remote_signer K client)

  -- The signer that a word stands for, in letters of any case.
  abbrev pub ChosenBy : AppConfig → String → SignerGateway K → Type 0
  ChosenBy config word signer =
      (Named word ("local" ∷ "local-dev" ∷ "local_dev" ∷ [])
        × (signer ≡ local_dev_signer K (record { private_key = config.dev_private_key })))
      ⊎ ((Named word ("remote-mtls" ∷ "remote_mtls" ∷ "remote" ∷ [])
            × Chosen config SignerMode.remote_mtls signer)
          ⊎ (¬ Named word ("local" ∷ "local-dev" ∷ "local_dev" ∷ [])
              × ¬ Named word ("remote-mtls" ∷ "remote_mtls" ∷ "remote" ∷ [])
              × (signer ≡ mock_signer K)))

  module _ (P : Postgres K) where
    pub build_signer-Chosen :
        (config : AppConfig) (mode : SignerMode) (signer : SignerGateway K)
        → build_signer K H P config mode ≡ ok signer
        → Chosen config mode signer
    unfolding build_signer
    build_signer-Chosen config SignerMode.mock signer h = cc
    build_signer-Chosen config SignerMode.local_dev signer h = cc
    build_signer-Chosen config SignerMode.remote_mtls signer h =
        elim (Option-cases config.signer_url) [
          | inl e1 ↦ absurd (ground arith)
          | inr (url, e1) ↦ elim (Option-cases config.signer_client_cert_path) [
            | inl e2 ↦ absurd (ground arith)
            | inr (cert, e2) ↦ elim (Option-cases config.signer_client_key_path) [
              | inl e3 ↦ absurd (ground arith)
              | inr (key, e3) ↦ elim (Option-cases config.signer_ca_cert_path) [
                | inl e4 ↦ absurd (ground arith)
                | inr (ca, e4) ↦ elim (Result-cases (new_client K H url cert key ca)) [
                  | inr (x, e5) ↦ absurd (ground arith)
                  | inl (client, e5) ↦
                      (url, cert, key, ca, client, e1, e2, e3, e4, e5, ground arith)
                ]
              ]
            ]
          ]
        ]

    Chosen-ChosenBy :
        (config : AppConfig) (word : String) (signer : SignerGateway K)
        → Chosen config (read_signer_mode word) signer
        → ChosenBy config word signer
    Chosen-ChosenBy config word signer c = elim (read_signer_mode-Named word) [
      | inl (named, e) ↦ inl (named, rw e at c)
      | inr (inl (named, e)) ↦ inr (inl (named, rw e at c))
      | inr (inr (no_local, no_remote, e)) ↦ inr (inr (no_local, no_remote, rw e at c))
    ]

    -- A state that was built from the environment checks no request exactly when the word of
    -- `AI_WALLET_AUTH_MODE`, which is `disabled` if the variable is not set, is not `hmac` in letters of
    -- any case. Its signer is chosen by `AI_WALLET_SIGNER_MODE`, which is `mock` if the variable is
    -- not set, in letters of any case: the dev signer with the configured key for `local`, `local-dev`
    -- and `local_dev`; the remote signer for `remote-mtls`, `remote_mtls` and `remote`, and then the URL
    -- and the three files are set and the client is the one they give; and the mock for any other word.
    pub build_state-Chosen :
        (env : Env) (built : Built K H P)
        → build_state K H P (from_env env) ≡ ok built
        → ((built.app.api_auth ≡ ApiAuth.disabled)
            ↔ (lower_is (unwrap_or "disabled" (env "AI_WALLET_AUTH_MODE")) "hmac" ≡ false))
          × ChosenBy
              (from_env env)
              (unwrap_or "mock" (env "AI_WALLET_SIGNER_MODE"))
              built.app.signer
    unfolding from_env
    build_state-Chosen env built h =
        let (signer, auth) = build_state-parts K H P (from_env env) built h in
        let (to, from) =
          from_config-disabled_iff (from_env env).auth_mode (from_env env).api_key
            (from_env env).api_secret (from_env env).auth_max_skew_seconds built.app.api_auth
            auth in
        let (word_of, mode_of) =
          read_auth_mode-disabled_iff (unwrap_or "disabled" (env "AI_WALLET_AUTH_MODE")) in
        (
          (λ e. word_of (to e), λ e. from (mode_of e)),
          Chosen-ChosenBy (from_env env) (unwrap_or "mock" (env "AI_WALLET_SIGNER_MODE"))
              built.app.signer
              (build_signer-Chosen (from_env env) (from_env env).signer_mode built.app.signer
                signer),
        )
