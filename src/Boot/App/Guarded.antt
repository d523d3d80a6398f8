-- ===== src/Boot/App/Guarded.antt =====
-- What the whole service does with a request that has no authentication.
use ai_wallet.Prelude.{◌≡◌, ◌⊎◌, inl, inr, refl, ℤ}
use ai_wallet.Crates.{Crates}
use ai_wallet.Audit.{Postgres}
use ai_wallet.Auth.{HmacAuthVerifier, ApiAuth, HttpRequest}
use ai_wallet.Auth.Guard.{Passes}
use ai_wallet.Signer.Tls.{Host}
use ai_wallet.Api.Types.{Draws, Store, Outcome}
use ai_wallet.Api.Closed.{IsReply, AxumLaws, IsClosed, router-IsClosed}
use ai_wallet.Boot.{Built}
use ai_wallet.Boot.App.{Handler, Web, build_app}

module _ (K : Crates) where
  -- A layer hands the request on as it is, or answers it by itself, with no reply of a handler, and
  -- leaves the state alone.
  abbrev pub Forwards : ((S : Type 0) → Handler K S → Handler K S) → Type 1
  Forwards layer =
      (S : Type 0) (inner : Handler K S) (request : HttpRequest K) (s : Store K S)
      → (layer S inner request s ≡ inner request s)
        ⊎ ((outcome : Outcome K) × (layer S inner request s ≡ (outcome, s)) × (¬ IsReply K outcome))

  -- What the layers of tower-http and axum do.
  pub record WebLaws (web : Web K) : Type 1 where
    pub axum_laws : AxumLaws K web.axum
    pub cors : Forwards web.permissive_cors
    pub trace : Forwards web.http_trace

  module _ {S : Type 0} (request : HttpRequest K) (s : Store K S) where
    layer-IsClosed :
        (layer : (S : Type 0) → Handler K S → Handler K S) (inner : Handler K S)
        → Forwards layer
        → IsClosed K request s (inner request s)
        → IsClosed K request s (layer S inner request s)
    layer-IsClosed layer inner forwards closed = elim (forwards S inner request s) [
      | inl same ↦ rw same closed
      | inr (outcome, same, silent) ↦ rw same (refl, λ reply. absurd (silent reply))
    ]

  module _ (H : Host K) (P : Postgres K) (web : Web K) (laws : WebLaws web) where
    -- With HMAC authentication a service that was built is closed to a request that does not pass the
    -- check, whatever its method, path and body: nothing has happened to the audit, the broadcast
    -- service and the spawned tasks, and a handler's reply is given at `/healthz` and `/v1/info` only.
    pub build_app-IsClosed :
        (built : Built K H P) (verifier : HmacAuthVerifier) (now : ℤ) (draws : Draws K)
        (request : HttpRequest K) (s : Store K built.Journal)
        → built.app.api_auth ≡ ApiAuth.hmac verifier
        → ¬ Passes K verifier now request
        → IsClosed K request s ((build_app K H P web built).respond now draws request s)
    build_app-IsClosed built verifier now draws request s auth bad =
        layer-IsClosed request s web.http_trace _ laws.trace (
          layer-IsClosed request s web.permissive_cors _ laws.cors (
            router-IsClosed K web.axum laws.axum_laws built.app now draws request s verifier auth
              bad))
