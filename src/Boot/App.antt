-- ===== src/Boot/App.antt =====
-- src/lib.rs, `build_app`: the router under the CORS and the trace layer of tower-http.
pub mod Guarded
pub mod Life
pub mod Vouched
use ai_wallet.Prelude.{ℤ}
use ai_wallet.Crates.{Crates}
use ai_wallet.Audit.{Postgres}
use ai_wallet.Auth.{HttpRequest}
use ai_wallet.Signer.Tls.{Host}
use ai_wallet.Api.Types.{Draws, Store, Outcome}
use ai_wallet.Api.Router.{Axum, router}
use ai_wallet.Boot.{Built}

module _ (K : Crates) where
  -- A service over a state.
  abbrev pub Handler : Type 0 → Type 0
  Handler S = HttpRequest K → Store K S → Outcome K × Store K S

  -- axum, with `CorsLayer::permissive` and `TraceLayer::new_for_http` of tower-http.
  pub record Web : Type 1 where
    pub axum : Axum K
    pub permissive_cors : (S : Type 0) → Handler S → Handler S
    pub http_trace : (S : Type 0) → Handler S → Handler S

  -- What is served: the state at the start, and the answer to a request at a time, with what its call
  -- draws.
  pub record App : Type 1 where
    pub Journal : Type 0
    pub initial : Store K Journal
    pub respond : ℤ → Draws K → Handler Journal

  module _ (H : Host K) (P : Postgres K) (web : Web) where
    abbrev pub build_app : Built K H P → App
    build_app built = record {
      Journal = built.Journal;
      initial = built.store;
      respond = λ now draws.
          web.http_trace built.Journal
            (web.permissive_cors built.Journal (router K web.axum built.app now draws));
    }
