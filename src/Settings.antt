-- ===== src/Settings.antt =====
-- The settings that the start-up checks: src/core/config/setting.py. What pydantic reads from the
-- environment is given; the other settings are passed on and are no concern of the checks.
mod Tests
use Prim.Native.Char.{Char, char, code}
use python_codebase.Prelude.{
  ℕ, zero, suc, ◌+◌, ◌<◌, ◌≡◌, ◌≢◌, ◌↔◌, refl, ap, String, Bool, true, false, not, ◌&&◌, ◌||◌,
  Option, none, some, List, [], ◌∷◌, map, filter, leb, ltb, ◌==◌, str_eq, eq_iff, is_one_of,
  is_blank, split_on, strip, All, Bool-cases, inl, inr, if◌then◌else◌, arith,
}
use python_codebase.Result.{Error, Result, ok, err, value_error}
use python_codebase.State.{State}

-- Python's integers; `negsuc n` is -(n + 1).
pub data ℤ : Type 0 where
  pos : ℕ → ℤ
  negsuc : ℕ → ℤ

pub record Settings : Type 0 where
  pub app_env : String
  pub database_url : String
  pub redis_url : String
  pub secret_key : String
  pub jwt_issuer : String
  pub jwt_audience : String
  pub access_token_expire_minutes : ℤ
  pub refresh_token_expire_minutes : ℤ
  pub cors_allow_origins : String

-- `DEFAULT_SECRET_KEY`
abbrev pub default_secret_key : String
default_secret_key = "super-secret-key-change-in-production"

-- `s.lower() == word`, for "production": A to Z in lower case. Python's `lower` also changes letters
-- that are not ASCII, and makes of none of them a letter of this word.
abbrev same_letter : ℕ → ℕ → Bool
same_letter c d = (if leb 65 c && leb c 90 then c + 32 else c) == d

abbrev pub lower_eq : String → String → Bool
lower_eq String.[] String.[] = true
lower_eq String.[] (String.◌∷◌ d t) = false
lower_eq (String.◌∷◌ c s) String.[] = false
lower_eq (String.◌∷◌ c s) (String.◌∷◌ d t) = same_letter (code c) (code d) && lower_eq s t

-- `is_production`
abbrev pub is_production : Settings → Bool
is_production s = lower_eq s.app_env "production"

-- `_split_csv`
unfoldable pub split_csv : String → List String
split_csv value = map strip (filter (λ item. not (is_blank item)) (split_on 44 value))

abbrev is_positive : ℤ → Bool
is_positive (pos zero) = false
is_positive (pos (suc n)) = true
is_positive (negsuc n) = false

abbrev require : Bool → String → Result Settings → Result Settings
require true text rest = rest
require false text rest = err (value_error text)

abbrev checked : Settings → Result Settings
checked s =
    require (not (str_eq s.secret_key default_secret_key))
      "SECRET_KEY must be changed in production"
      (require (not (is_blank s.database_url)) "DATABASE_URL must be set in production" (
        require (not (is_blank s.redis_url)) "REDIS_URL must be set in production" (
          require (not (is_blank s.jwt_issuer)) "JWT_ISSUER must be set in production" (
            require (not (is_blank s.jwt_audience)) "JWT_AUDIENCE must be set in production" (
              require (is_positive s.access_token_expire_minutes)
                "ACCESS_TOKEN_EXPIRE_MINUTES must be positive"
                (require (is_positive s.refresh_token_expire_minutes)
                  "REFRESH_TOKEN_EXPIRE_MINUTES must be positive"
                  (require (not (is_one_of (split_csv s.cors_allow_origins) "*"))
                    "CORS_ALLOW_ORIGINS cannot be wildcard in production" (ok s))))))))

-- `validate_production_security`
unfoldable pub validate_production_security : Settings → Result Settings
validate_production_security s = if is_production s then checked s else ok s

-- What the checks promise of settings in production.
pub record IsSecure (s : Settings) : Type 0 where
  pub own_key : s.secret_key ≢ default_secret_key
  pub database : is_blank s.database_url ≡ false
  pub redis : is_blank s.redis_url ≡ false
  pub issuer : is_blank s.jwt_issuer ≡ false
  pub audience : is_blank s.jwt_audience ≡ false
  pub access : (n : ℕ) × (s.access_token_expire_minutes ≡ pos (suc n))
  pub refresh : (n : ℕ) × (s.refresh_token_expire_minutes ≡ pos (suc n))
  pub origins : All (λ origin. origin ≢ "*") (split_csv s.cors_allow_origins)

require-ok :
    (b : Bool) (text : String) (rest : Result Settings) (s : Settings)
    → require b text rest ≡ ok s
    → (b ≡ true) × (rest ≡ ok s)
require-ok true text rest s h = (refl, h)
require-ok false text rest s h = cc

not-true : (b : Bool) → not b ≡ true → b ≡ false
not-true true h = cc
not-true false h = refl

positive : (z : ℤ) → is_positive z ≡ true → (n : ℕ) × (z ≡ pos (suc n))
positive (pos zero) h = cc
positive (pos (suc n)) h = (n, refl)
positive (negsuc n) h = cc

ne_of : (a b : String) → str_eq a b ≡ false → a ≢ b
ne_of a b h e = cc ((eq_iff a b).1 e, h)

no_member : (xs : List String) → is_one_of xs "*" ≡ false → All (λ x. x ≢ "*") xs
no_member [] h = tt
no_member (x ∷ xs) h = elim (Bool-cases (str_eq x "*")) [
  | inl same ↦ cc (rw same at h)
  | inr other ↦ (ne_of x "*" other, no_member xs (rw other at h))
]

str_eq-ne : (a b : String) → a ≢ b → str_eq a b ≡ false
str_eq-ne a b h = elim (Bool-cases (str_eq a b)) [
  | inl same ↦ absurd (h ((eq_iff a b).0 same))
  | inr other ↦ other
]

positive_back : (z : ℤ) → (n : ℕ) × (z ≡ pos (suc n)) → is_positive z ≡ true
positive_back z p = rw (p.1) refl

no_member_back : (xs : List String) → All (λ x. x ≢ "*") xs → is_one_of xs "*" ≡ false
no_member_back [] h = refl
no_member_back (x ∷ xs) h = rw (str_eq-ne x "*" h.0) (no_member_back xs h.1)

IsSecure-checked : (s : Settings) → checked s ≡ ok s → IsSecure s
IsSecure-checked s h =
    let (key, h1) = require-ok _ _ _ s h in
    let (database, h2) = require-ok _ _ _ s h1 in
    let (redis, h3) = require-ok _ _ _ s h2 in
    let (issuer, h4) = require-ok _ _ _ s h3 in
    let (audience, h5) = require-ok _ _ _ s h4 in
    let (access, h6) = require-ok _ _ _ s h5 in
    let (refresh, h7) = require-ok _ _ _ s h6 in
    let (origins, _) = require-ok _ _ _ s h7 in
    record {
      own_key = ne_of s.secret_key default_secret_key (not-true _ key);
      database = not-true _ database;
      redis = not-true _ redis;
      issuer = not-true _ issuer;
      audience = not-true _ audience;
      access = positive s.access_token_expire_minutes access;
      refresh = positive s.refresh_token_expire_minutes refresh;
      origins = no_member (split_csv s.cors_allow_origins) (not-true _ origins);
    }

checked-IsSecure : (s : Settings) → IsSecure s → checked s ≡ ok s
checked-IsSecure s v =
    rw
      (
        str_eq-ne s.secret_key default_secret_key v.own_key,
        v.database,
        v.redis,
        v.issuer,
        v.audience,
        positive_back s.access_token_expire_minutes v.access,
        positive_back s.refresh_token_expire_minutes v.refresh,
        no_member_back (split_csv s.cors_allow_origins) v.origins,
      )
      refl

-- In production, whatever the case of the letters of APP_ENV, the settings are accepted exactly where
-- the secret key is not the default one, the addresses, the issuer and the audience are not blank,
-- both lifetimes are positive and no allowed origin is the wildcard, spaces around it or not.
pub production_accepted_iff :
    (s : Settings) → is_production s ≡ true → (validate_production_security s ≡ ok s) ↔ IsSecure s
unfolding validate_production_security
production_accepted_iff s live =
    (λ h. IsSecure-checked s (rw live at h), λ v. rw live (checked-IsSecure s v))
