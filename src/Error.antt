-- ===== src/Error.antt =====
-- src/error.rs: the program's errors, their text and their HTTP status.
use ai_wallet.Prelude.{ℕ, String, ◌⧺◌}

pub data AppError : Type 0 where
  bad_request unauthorized policy_denied signer_unavailable internal : String → AppError

-- The `Display` that `thiserror` derives from the attributes.
unfoldable pub to_string : AppError → String
to_string (bad_request m) = "bad request: " ⧺ m
to_string (unauthorized m) = "unauthorized: " ⧺ m
to_string (policy_denied m) = "policy denied: " ⧺ m
to_string (signer_unavailable m) = "signer unavailable: " ⧺ m
to_string (internal m) = "internal error: " ⧺ m

abbrev pub status_code : AppError → ℕ
status_code (bad_request _) = 400
status_code (unauthorized _) = 401
status_code (policy_denied _) = 403
status_code (signer_unavailable _) = 503
status_code (internal _) = 500

pub record ErrorBody : Type 0 where
  pub error : String

unfoldable pub into_response : AppError → ℕ × ErrorBody
unfolding to_string
into_response e = (status_code e, record { error = to_string e })
