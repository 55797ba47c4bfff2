-- ===== src/Middleware/Rate.antt =====
-- The rate limit of every route: src/core/dependency/rate_limit.py. The limiter of fastapi_limiter is
-- a parameter: times, seconds and an identifier, over a state of its own.
use Prim.Native.String.{◌++◌ as append}
use python_codebase.Prelude.{
  ℕ, String, Bool, Option, none, some, List, [], ◌∷◌, is_one_of, is_some, split_on, first_part,
  strip, after_prefix, if◌then◌else◌, ◌||◌,
}
use python_codebase.Result.{ok, err, value_error, http_error}
use python_codebase.State.{State, pure, or_raise, ◌>>=◌}
use python_codebase.Middleware.{Request}

-- `EXEMPT_PATHS`
abbrev pub exempt_paths : List String
exempt_paths = "/health" ∷ "/docs" ∷ "/docs/" ∷ "/redoc" ∷ "/redoc/" ∷ "/openapi.json" ∷ []

abbrev truthy_text : Option String → Option String
truthy_text none = none
truthy_text (some String.[]) = none
truthy_text (some (String.◌∷◌ c s)) = some (String.◌∷◌ c s)

abbrev by_host : Option String → String
by_host none = "unknown"
by_host (some host) = append "ip:" host

abbrev by_forwarded : Option String → Option String → String
by_forwarded none host = by_host host
by_forwarded (some text) host = append "ip:" (strip (first_part 44 text))

abbrev by_user : Option String → Option String → Option String → String
by_user none forwarded host = by_forwarded forwarded host
by_user (some user_id) forwarded host = append "user:" user_id

-- `custom_identifier`
unfoldable pub custom_identifier : Request → String
custom_identifier request =
    by_user (truthy_text request.user_id) (truthy_text request.forwarded_for)
      (truthy_text request.client_host)

-- `part in text`
abbrev pub contains_text : String → String → Bool
contains_text part String.[] = is_some (after_prefix part "")
contains_text part (String.◌∷◌ c s) =
    is_some (after_prefix part (String.◌∷◌ c s)) || contains_text part s

-- `times_str, period = limit_str.split("/")`
abbrev two_parts : List String → Option (String × String)
two_parts (times ∷ period ∷ []) = some (times, period)
two_parts _ = none

module _ {L : Type 0} (to_int : String → Option ℕ) (limiter : ℕ → ℕ → String → L → Bool × L) where
  abbrev hit : ℕ → String → Request → State L (Unit {0})
  hit times period request l =
      let (allowed, l') =
        limiter times (if contains_text "minute" period then 60 else 1) (custom_identifier request)
          l in
      (if allowed then ok tt else err (http_error 429 "Too Many Requests"), l')

  abbrev limited : String → Request → State L (Unit {0})
  limited limit_str request = do
    parts ← or_raise (two_parts (split_on 47 limit_str)) (value_error "unpack")
    times ← or_raise (to_int parts.0) (value_error "invalid literal for int() with base 10")
    hit times parts.1 request

  -- `apply_global_rate_limit`
  unfoldable pub apply_global_rate_limit : String → Request → State L (Unit {0})
  apply_global_rate_limit limit_str request =
      if is_one_of exempt_paths request.path then pure tt else limited limit_str request
