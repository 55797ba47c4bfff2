-- ===== src/Api/Errors.antt =====
-- The exception handlers: src/core/exceptions/handler.py, as src/core/bootstrap/exception.py
-- registers them.
use python_codebase.Prelude.{ℕ, String, Bool, true, is_some, Option, none, some}
use python_codebase.Result.{
  Error, Result, ok, err, user_already_exists, invalid_credentials, invalid_refresh_token,
  todo_not_found, unauthorized_todo_access, http_error,
}

-- What a client gets: a status with a body, or the status, code and message of `ErrorResponse`.
pub data Reply (A : Type 0) : Type 0 where
  success : ℕ → A → Reply A
  failure : ℕ → String → String → Reply A

-- `DOMAIN_EXCEPTION_MAP`
unfoldable pub domain_exception : Error → Option (ℕ × String)
domain_exception user_already_exists = some (400, "USER_ALREADY_EXISTS")
domain_exception (invalid_credentials m) = some (401, "INVALID_CREDENTIALS")
domain_exception (invalid_refresh_token m) = some (401, "INVALID_REFRESH_TOKEN")
domain_exception todo_not_found = some (404, "TODO_NOT_FOUND")
domain_exception unauthorized_todo_access = some (403, "UNAUTHORIZED_TODO_ACCESS")
domain_exception _ = none

-- What one of the handlers takes but `global_exception_handler`, which Starlette puts around the
-- middleware, so that what it takes goes out through them.
abbrev pub is_handled : Error → Bool
is_handled (http_error status detail) = true
is_handled e = is_some (domain_exception e)

-- `message` is `str` of an exception.
module _ {A : Type 0} (message : Error → String) where
  -- `domain_exception_handler`, and `global_exception_handler` for what the map does not hold
  abbrev by_domain : Error → Option (ℕ × String) → Reply A
  by_domain e (some (status, code)) = failure status code (message e)
  by_domain e none =
      failure 500 "INTERNAL_SERVER_ERROR" "An unexpected error occurred. Please try again later."

  -- `http_exception_handler` and the others, by the type of the exception
  unfoldable pub handle_exception : Error → Reply A
  handle_exception (http_error status detail) = failure status "HTTP_ERROR" detail
  handle_exception e = by_domain e (domain_exception e)

  -- The reply of a route that answers with this status where it returns.
  unfoldable pub answer : ℕ → Result A → Reply A
  answer status (ok a) = success status a
  answer status (err e) = handle_exception e
