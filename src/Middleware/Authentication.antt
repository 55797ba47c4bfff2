-- ===== src/Middleware/Authentication.antt =====
-- `AuthenticationMiddleware` (src/core/middleware/auth.py). A provider is a function of the token and
-- the time, over a state of its own.
use python_codebase.Prelude.{
  ℕ, String, Bool, ◌||◌, Option, none, some, List, [], ◌∷◌, str_eq, after_prefix, rstrip_slash,
  is_one_of, if◌then◌else◌,
}
use python_codebase.Tokens.Revocation.{Identity}
use python_codebase.Result.{Result, ok}
use python_codebase.Middleware.{Request, Response, CallNext}

-- `PUBLIC_PATHS`
abbrev pub public_paths : List String
public_paths =
    "/health" ∷ "/live" ∷ "/ready" ∷ "/metrics" ∷ "/docs" ∷ "/docs/" ∷ "/redoc" ∷ "/redoc/"
    ∷ "/openapi.json" ∷ "/api/v1/auth/login" ∷ "/api/v1/auth/register" ∷ "/api/v1/auth/refresh" ∷ []

abbrev pub Provider : Type 0 → Type 0
Provider R = String → ℕ → R → Option Identity × R

abbrev pub refused : String → Response
refused detail = record {
  status_code = 401;
  body = detail;
  media_type = some "application/json";
  headers = [];
}

abbrev pub missing_header : Response
missing_header = refused "{\"detail\":\"Authorization header missing or malformed\"}"

abbrev pub invalid_token : Response
invalid_token = refused "{\"detail\":\"Invalid or expired token\"}"

-- The text after "Bearer " of the header.
abbrev pub bearer : Option String → Option String
bearer none = none
bearer (some header) = after_prefix "Bearer " header

-- The request with what the middleware sets in its state.
abbrev pub identified : Request → Identity → Request
identified request i = record request { user_id = some i.user_id; auth_provider = some i.provider }

abbrev pub is_open : Request → Bool
is_open request =
    str_eq request.method "OPTIONS" || is_one_of public_paths (rstrip_slash request.path)

-- The first provider that knows the token.
abbrev pub first_identity : {R : Type 0} → List (Provider R) → String → ℕ → R → Option Identity × R
first_identity [] token now r = (none, r)
first_identity (p ∷ ps) token now r =
    let (found, r') = p token now r in
    let rest = first_identity ps token now in elim found [ some i ↦ (some i, r') | none ↦ rest r' ]

module _ {R S : Type 0} (providers : List (Provider R)) (call_next : CallNext S) where
  abbrev by_identity : Request → R → S → Option Identity → Result Response × R × S
  by_identity request r s none = (ok invalid_token, r, s)
  by_identity request r s (some i) =
      let (result, s') = call_next (identified request i) s in (result, r, s')

  abbrev by_token : Request → ℕ → R → S → Option String → Result Response × R × S
  by_token request now r s none = (ok missing_header, r, s)
  by_token request now r s (some token) =
      let (found, r') = first_identity providers token now r in by_identity request r' s found

  -- `dispatch`
  unfoldable pub authenticate : Request → ℕ → R × S → Result Response × R × S
  authenticate request now state =
      if is_open request
      then (let (result, s') = call_next request state.1 in (result, state.0, s'))
      else by_token request now state.0 state.1 (bearer request.authorization)
