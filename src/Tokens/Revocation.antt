-- ===== src/Tokens/Revocation.antt =====
-- `TokenRevocationService` (src/core/security/token_revocation.py) and `JWTAuthProvider`
-- (src/core/security/providers.py). Redis is an interface.
use Prim.Native.String.{◌++◌ as append}
use python_codebase.Prelude.{
  ℕ, suc, zero, ◌+◌, ◌-◌, ◌*◌, ◌/◌, ◌≤◌, ◌<◌, ◌≡◌, String, Bool, true, false, Option, none, some,
  arith,
}
use python_codebase.Result.{Result, ok, err}
use python_codebase.Tokens.{Claims, TokenSettings, Platform, decode_token, require_token_type}

-- A Redis server in a state of type `R`: `exists key now`, and `setex key ttl value now`, where the
-- time to live counts seconds and the clock microseconds.
pub record Redis (R : Type 0) : Type 0 where
  pub exists : String → ℕ → R → Bool
  pub setex : String → ℕ → String → ℕ → R → R

-- A key that is set with a time to live is there until the time is over.
abbrev pub KeepsKeys : {R : Type 0} → Redis R → Type 0
KeepsKeys {R} redis =
    (key value : String) (ttl now later : ℕ) (r : R)
    → later < now + ttl * 1000000
    → redis.exists key later (redis.setex key ttl value now r) ≡ true

-- `int(exp - now)`, and 0 for what is not positive
unfoldable pub time_to_live : ℕ → ℕ → ℕ
time_to_live exp now = (exp * 1000000 - now) / 1000000

-- `_key`
abbrev pub key : String → String
key jti = append "revoked_access_token:" jti

-- What `authenticate` returns.
pub record Identity : Type 0 where
  pub user_id : String
  pub provider : String

module _ {R : Type 0} (redis : Redis R) (p : Platform) (settings : TokenSettings) where
  abbrev pub set_key : String → ℕ → ℕ → R → R
  set_key jti zero now r = r
  set_key jti (suc n) now r = redis.setex (key jti) (suc n) "1" now r

  -- `if not jti or not exp: return`
  abbrev pub by_claims : String → ℕ → ℕ → R → R
  by_claims String.[] exp now r = r
  by_claims (String.◌∷◌ c jti) zero now r = r
  by_claims (String.◌∷◌ c jti) (suc e) now r =
      set_key (String.◌∷◌ c jti) (time_to_live (suc e) now) now r

  abbrev by_payload : Result Claims → ℕ → R → R
  by_payload (err e) now r = r
  by_payload (ok payload) now r = by_claims payload.jti payload.exp now r

  unfoldable pub revoke_access_token : String → ℕ → R → R
  revoke_access_token token now = by_payload (decode_token p settings token now) now

  abbrev pub has_key : String → ℕ → R → Bool
  has_key String.[] now r = false
  has_key (String.◌∷◌ c jti) now r = redis.exists (key (String.◌∷◌ c jti)) now r

  abbrev is_revoked_payload : Result Claims → ℕ → R → Bool
  is_revoked_payload (err e) now r = false
  is_revoked_payload (ok payload) now r = has_key payload.jti now r

  unfoldable pub is_access_token_revoked : String → ℕ → R → Bool
  is_access_token_revoked token now = is_revoked_payload (decode_token p settings token now) now

  -- `if not user_id: return None`
  abbrev identity : String → Option Identity
  identity String.[] = none
  identity (String.◌∷◌ c sub) = some (record { user_id = String.◌∷◌ c sub; provider = "jwt" })

  abbrev by_type : Claims → Result (Unit {0}) → Bool → Option Identity
  by_type payload (err e) revoked = none
  by_type payload (ok u) true = none
  by_type payload (ok u) false = identity payload.sub

  abbrev by_decoded : Result Claims → Bool → Option Identity
  by_decoded (err e) revoked = none
  by_decoded (ok payload) revoked =
      by_type payload (require_token_type payload "access" "Access token required") revoked

  -- `JWTAuthProvider.authenticate`
  unfoldable pub authenticate_jwt : String → ℕ → R → Option Identity
  authenticate_jwt token now r =
      by_decoded (decode_token p settings token now) (is_access_token_revoked token now r)

pub time_to_live_within :
    (exp now : ℕ) → 0 < time_to_live exp now → now + time_to_live exp now * 1000000 ≤ exp * 1000000
unfolding time_to_live
time_to_live_within exp now h = omega arith
