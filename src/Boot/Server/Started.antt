-- ===== src/Boot/Server/Started.antt =====
-- What the server process needs before it serves.
use ai_wallet.Prelude.{
  ◌≡◌, refl, ap, String, Bool, true, some, Result, ok, err, Result-cases, inl, inr, unwrap_or,
  ◌>>=◌, ◌>>◌,
}
use ai_wallet.Crates.{Crates}
use ai_wallet.Error.{AppError}
use ai_wallet.Config.{Env, from_env, lower_is}
use ai_wallet.Audit.{Postgres}
use ai_wallet.Auth.{ApiAuth}
use ai_wallet.Signer.Tls.{Host}
use ai_wallet.Boot.{Built, build_state}
use ai_wallet.Boot.App.{App, Web, build_app}
use ai_wallet.Boot.Secured.{build_state-hmac}
use ai_wallet.Boot.Server.{Network, finished, expect, start, main}

abbrev paired {ℓ} : {A : Type ℓ} {L : Type 0} → L → A → Result (L × A) String
paired l a = ok (l, a)

-- Inversion of three steps that make a pair of what the first two answer.
pair-eq-ok {ℓ κ} :
    {B : Type ℓ} {A : Type κ} {L : Type 0} (b : Result B AppError) (f : B → A) (l : Result L String)
    (m n : String) (u : L → Result (Unit {0}) String) {listener : L} {app : A}
    → (expect m b >>= λ b. expect n l >>= λ l. u l >> paired l (f b)) ≡ paired listener app
    → (built : B) × (b ≡ ok built) × (f built ≡ app) × (l ≡ ok listener)
pair-eq-ok (err e) f l m n u h = absurd (cc h)
pair-eq-ok (ok b) f (err e) m n u h = absurd (cc h)
pair-eq-ok {A = A} {L = L} (ok b) f (ok l) m n u {listener} {app} h = elim (Result-cases (u l)) [
  | inr (x, e) ↦ absurd (cc (rw e at h))
  | inl (t, e) ↦
      let same : paired l (f b) ≡ paired listener app = rw e at h in
      let pair = ap part same in
      (b, refl, ap (λ (p : L × A). p.1) pair, ap ok (ap (λ (p : L × A). p.0) pair))
]
  where
    part : Result (L × A) String → L × A
    part (ok p) = p
    part (err e) = (l, f b)

module _ (K : Crates) (H : Host K) (P : Postgres K) (web : Web K) (net : Network K H P web)
    (info_enabled : Bool) where
  start-eq-ok :
      (var : Env) (listener : net.Listener) (app : App K)
      → start K H P web net info_enabled var ≡ ok (listener, app)
      → (built : Built K H P) × (build_state K H P (from_env var) ≡ ok built)
        × (build_app K H P web built ≡ app)
        × (net.bind (from_env var).bind_addr ≡ ok listener)
  unfolding start
  start-eq-ok var listener app h =
      pair-eq-ok (build_state K H P (from_env var)) (build_app K H P web)
        (net.bind (from_env var).bind_addr) _ _ _ h

  -- A server process that ends without a panic has served, at the address of `AI_WALLET_BIND`, or else
  -- 127.0.0.1:8080, the app of a state that `build_state` has built of the environment; and if
  -- `AI_WALLET_AUTH_MODE` is `hmac`, in letters of any case, the key and the secret are set and that
  -- state checks requests against them.
  pub main-finished :
      (var : Env)
      → main K H P web net info_enabled var ≡ finished
      → (listener : net.Listener) × (built : Built K H P) × (net.bind
            (unwrap_or "127.0.0.1:8080" (var "AI_WALLET_BIND"))
          ≡ ok listener)
        × (build_state K H P (from_env var) ≡ ok built)
        × (net.serve listener (build_app K H P web built) ≡ ok tt)
        × (lower_is (unwrap_or "disabled" (var "AI_WALLET_AUTH_MODE")) "hmac" ≡ true
            → (key : String) × (secret : String) × (var "AI_WALLET_API_KEY" ≡ some key)
              × (var "AI_WALLET_API_SECRET" ≡ some secret)
              × (built.app.api_auth
                  ≡ ApiAuth.hmac (record {
                    api_key = key;
                    api_secret = secret;
                    max_skew_seconds = (from_env var).auth_max_skew_seconds;
                  })))
  unfolding main from_env
  main-finished var h = elim (Result-cases (start K H P web net info_enabled var)) [
    | inr (x, e) ↦ cc (rw e at h)
    | inl ((listener, app), e) ↦
        let (built, made, same, bound) = start-eq-ok var listener app e in
        elim (Result-cases (net.serve listener app)) [
          | inr (x, f) ↦ cc (rw f at (rw e at h))
          | inl (u, f) ↦ (
            listener,
            built,
            bound,
            made,
            rw same f,
            λ mode. build_state-hmac K H P var built mode made,
          )
        ]
  ]
