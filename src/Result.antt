-- ===== src/Result.antt =====
-- The exceptions that the handlers raise (src/shared/exceptions, src/modules/*/domain/exceptions and the
-- built-in ones), and the result of a call that may raise.
use python_codebase.Prelude.{ℕ, String, Option, none, some, List, [], ◌∷◌}

pub data Error : Type 0 where
  value_error : String → Error
  type_error : Error
  key_error : Error
  attribute_error : Error
  invalid_credentials : String → Error
  invalid_refresh_token : String → Error
  todo_not_found : Error
  unauthorized_todo_access : Error
  user_not_found : Error
  user_already_exists : Error
  -- SQLAlchemy's MultipleResultsFound
  multiple_results : Error
  -- SQLAlchemy's NoResultFound
  no_result_found : Error
  -- SQLAlchemy's DBAPIError, where a value does not fit its column
  data_error : Error
  -- SQLAlchemy's IntegrityError
  integrity_error : Error
  -- pydantic's ValidationError, raised where a handler builds its answer
  validation_error : Error
  -- FastAPI's HTTPException: status and detail
  http_error : ℕ → String → Error

pub data Result {ℓ} (A : Type ℓ) : Type ℓ where
  ok : A → Result A
  err : Error → Result A

-- `result.scalar_one_or_none()`: no row, the one row, or an exception where there are more
unfoldable pub scalar_one_or_none {ℓ} : {A : Type ℓ} → List A → Result (Option A)
scalar_one_or_none [] = ok none
scalar_one_or_none (x ∷ []) = ok (some x)
scalar_one_or_none (x ∷ y ∷ rest) = err multiple_results
