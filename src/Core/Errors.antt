-- ===== src/Core/Errors.antt =====
-- backend/app/core/errors.py: the errors that the application raises, and what they become.
use keel_be.Prelude.{ℕ, String, Option, none, some, str_eq, if◌then◌else◌}

-- One constructor for each subclass of `AppError`.
pub data Kind : Type 0 where
  bad_request invalid_file_type unauthenticated forbidden not_found conflict : Kind
  unprocessable last_admin rate_limited upstream_ai : Kind

unfoldable pub status_code : Kind → ℕ
status_code Kind.bad_request = 400
status_code Kind.invalid_file_type = 400
status_code Kind.unauthenticated = 401
status_code Kind.forbidden = 403
status_code Kind.not_found = 404
status_code Kind.conflict = 409
status_code Kind.unprocessable = 422
status_code Kind.last_admin = 422
status_code Kind.rate_limited = 429
status_code Kind.upstream_ai = 502

unfoldable pub default_code : Kind → String
default_code Kind.bad_request = "BAD_REQUEST"
default_code Kind.invalid_file_type = "INVALID_FILE_TYPE"
default_code Kind.unauthenticated = "UNAUTHENTICATED"
default_code Kind.forbidden = "FORBIDDEN"
default_code Kind.not_found = "NOT_FOUND"
default_code Kind.conflict = "CONFLICT"
default_code Kind.unprocessable = "UNPROCESSABLE"
default_code Kind.last_admin = "LAST_ADMIN"
default_code Kind.rate_limited = "RATE_LIMITED"
default_code Kind.upstream_ai = "UPSTREAM_AI_ERROR"

-- An instance of an error class. `retry_after` is set for `RateLimitError` only.
pub record AppError : Type 0 where
  pub kind : Kind
  pub message : String
  pub error_code : String
  pub retry_after : Option ℕ

-- `Kind(message)`
abbrev pub app_error : Kind → String → AppError
unfolding default_code
app_error k m = record { kind = k; message = m; error_code = default_code k; retry_after = none }

-- `Kind(message, error_code=code)`: an empty code leaves the default of the class.
abbrev pub app_error_with : Kind → String → String → AppError
unfolding default_code
app_error_with k m code = record {
  kind = k;
  message = m;
  error_code = if str_eq code "" then default_code k else code;
  retry_after = none;
}

-- `RateLimitError(message, retry_after=seconds)`
abbrev pub rate_limit_error : String → ℕ → AppError
rate_limit_error m seconds = record {
  kind = Kind.rate_limited;
  message = m;
  error_code = "RATE_LIMITED";
  retry_after = some seconds;
}

-- The exceptions that cross a function's boundary: those of the application, and those of the
-- libraries that the code catches or lets pass.
pub data Exc : Type 0 where
  app : AppError → Exc
  multiple_rows : Exc
  stale_data : Exc
  parse_error : String → Exc
  other : String → String → Exc
