-- ===== src/Middleware/Limits.antt =====
-- `LimitRequestSizeMiddleware` (src/core/middleware/request_size.py). `to_int` is Python's
-- `int` of a text, none where it raises.
use python_codebase.Prelude.{
  ℕ, String, Bool, Option, none, some, [], ◌∷◌, ltb, is_one_of, if◌then◌else◌,
}
use python_codebase.Result.{Result, ok, err, value_error}
use python_codebase.TwoFactor.{present}
use python_codebase.Middleware.{Request, Response, CallNext}

abbrev pub too_large : Response
too_large = record {
  status_code = 413;
  body = "{\"detail\":\"Request payload exceeds maximum allowed size.\"}";
  media_type = some "application/json";
  headers = [];
}

abbrev pub length_required : Response
length_required = record {
  status_code = 411;
  body = "{\"detail\":\"Content-Length header is required.\"}";
  media_type = some "application/json";
  headers = [];
}

abbrev pub has_body : Request → Bool
has_body request = is_one_of ("POST" ∷ "PUT" ∷ "PATCH" ∷ []) request.method

module _ {S : Type 0} (to_int : String → Option ℕ) (max_upload_size : ℕ)
    (call_next : CallNext S) where
  abbrev by_number : Request → S → Option ℕ → Result Response × S
  by_number request s none = (err (value_error "invalid literal for int() with base 10"), s)
  by_number request s (some n) =
      if ltb max_upload_size n then (ok too_large, s) else call_next request s

  abbrev by_length : Request → S → Option String → Result Response × S
  by_length request s none = (ok length_required, s)
  by_length request s (some text) = by_number request s (to_int text)

  -- `dispatch`
  unfoldable pub limit_size : Request → S → Result Response × S
  limit_size request s =
      if has_body request
      then by_length request s (present request.content_length)
      else call_next request s
