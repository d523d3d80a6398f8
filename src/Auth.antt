-- ===== src/Auth.antt =====
-- src/auth.rs: the HMAC check of a request and the middleware.
pub mod Freshness
pub mod Guard
pub mod Canonical
pub mod Client
use ai_wallet.Prelude.{
  ℕ, ◌+◌, ◌-◌, ◌%◌, ◌^◌, String, Bool, not, Option, none, some, Result, ok, err, map_err, ok_or,
  to_option, fail_if, ◌>>=◌, ◌>>◌, ◌⧺◌, str_eq, as_bytes, ℤ, pos, negsuc, ltb, leb, ltb_ℤ, ◌-ℤ◌,
  if◌then◌else◌,
}
use ai_wallet.Number.{parse_i64, show_ℤ, i64_bound, u64_bound, ◌>>=◌ as bind}
use ai_wallet.Crates.{Crates, Bytes}
use ai_wallet.Config.{AuthMode}
use ai_wallet.Error.{AppError, bad_request, unauthorized, internal}

pub record HmacAuthVerifier : Type 0 where
  pub api_key : String
  pub api_secret : String
  pub max_skew_seconds : ℤ

pub data ApiAuth : Type 0 where
  disabled : ApiAuth
  hmac : HmacAuthVerifier → ApiAuth

unfoldable pub mode_name : ApiAuth → String
mode_name ApiAuth.disabled = "disabled"
mode_name (ApiAuth.hmac _) = "hmac"

unfoldable pub from_config : AuthMode → Option String → Option String → ℤ → Result ApiAuth AppError
from_config AuthMode.disabled api_key api_secret max_skew_seconds = ok ApiAuth.disabled
from_config AuthMode.hmac api_key api_secret max_skew_seconds = do
  key ← ok_or (internal "AI_WALLET_API_KEY is required for hmac auth") api_key
  secret ← ok_or (internal "AI_WALLET_API_SECRET is required for hmac auth") api_secret
  ok (
      ApiAuth.hmac
        (record { api_key = key; api_secret = secret; max_skew_seconds = max_skew_seconds }))

-- Two's complement: the i64 that an integer wraps around to.
unfoldable pub wrap_i64 : ℤ → ℤ
wrap_i64 (pos n) =
    let m = n % u64_bound in if ltb m i64_bound then pos m else negsuc (u64_bound - m - 1)
wrap_i64 (negsuc n) =
    let m = n % u64_bound in if ltb m i64_bound then negsuc m else pos (u64_bound - m - 1)

-- `i64::abs`; the least i64 is its own.
unfoldable pub abs_i64 : ℤ → ℤ
unfolding wrap_i64
abs_i64 (pos n) = pos n
abs_i64 (negsuc n) = wrap_i64 (pos (n + 1))

-- `(now - timestamp).abs() > max_skew_seconds`, with the arithmetic of a release build, which wraps.
unfoldable pub is_stale : ℤ → ℤ → ℤ → Bool
is_stale now timestamp max_skew_seconds =
    ltb_ℤ max_skew_seconds (abs_i64 (wrap_i64 (now -ℤ timestamp)))

abbrev pub body_limit : ℕ
body_limit = 1_048_576

module _ (K : Crates) where
  open K use {HeaderMap, DateTime}

  unfoldable pub get_header : HeaderMap → String → Result String AppError
  get_header headers name = ok_or (unauthorized ("missing header " ⧺ name)) value
    where
      value : Option String
      value = bind (K.header_get headers name) (λ v. to_option (K.header_to_str v))

  unfoldable pub canonical : ℤ → String → String → Bytes → String
  canonical timestamp method path body =
      show_ℤ timestamp ⧺ "\n" ⧺ method ⧺ "\n" ⧺ path ⧺ "\n" ⧺ K.base64_encode body

  -- The signature that a request has to bear.
  unfoldable pub expected_signature : String → String → Result String AppError
  expected_signature api_secret text = do
    mac ←
        map_err (λ e. internal ("failed to build hmac verifier: " ⧺ e))
          (K.mac_new_from_slice (as_bytes api_secret))
    ok ("sha256=" ⧺ K.hex_encode (K.mac_finalize (K.mac_update mac (as_bytes text))))

  unfoldable pub verify :
      HmacAuthVerifier → ℤ → HeaderMap → String → String → Bytes → Result (Unit {0}) AppError
  verify self now headers method path body = do
    api_key ← get_header headers "x-ai-wallet-key"
    fail_if (not (str_eq api_key self.api_key)) (unauthorized "invalid api key")
    text ← get_header headers "x-ai-wallet-timestamp"
    timestamp ← ok_or (unauthorized "invalid auth timestamp") (parse_i64 text)
    signature ← get_header headers "x-ai-wallet-signature"
    fail_if (is_stale now timestamp self.max_skew_seconds) (unauthorized "stale request timestamp")
    expected ← expected_signature self.api_secret (canonical timestamp method path body)
    fail_if (not (str_eq signature expected)) (unauthorized "invalid request signature")
    ok tt

  -- An HTTP request before its body is read; `to_bytes` is axum's, with the limit that it is given.
  pub record HttpRequest : Type 0 where
    pub headers : HeaderMap
    pub method : String
    pub path : String
    pub query : Option String
    pub to_bytes : ℕ → Result Bytes String

  -- `next` takes the request with its body, which the HMAC branch has read, and runs on a state.
  unfoldable pub auth_middleware :
      {S R : Type 0}
      → ApiAuth
      → ℤ
      → (HttpRequest → S → R × S)
      → HttpRequest
      → S
      → Result R AppError × S
  auth_middleware ApiAuth.disabled now next request s = let (r, s') = next request s in (ok r, s')
  auth_middleware (ApiAuth.hmac verifier) now next request s = elim checked [
    | err e ↦ (err e, s)
    | ok bytes ↦ let (r, s') = next (record request { to_bytes = λ _. ok bytes }) s in (ok r, s')
  ]
    where
      checked : Result Bytes AppError
      checked = do
        bytes ←
            map_err (λ e. bad_request ("failed to read request body: " ⧺ e))
              (request.to_bytes body_limit)
        verify verifier now request.headers request.method request.path bytes
        ok bytes
