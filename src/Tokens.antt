-- ===== src/Tokens.antt =====
-- Tokens: src/core/security/jwt.py, and the sessions of
-- src/modules/user/infrastructure/repositories/refresh_token_repository.py.
-- Times are microseconds since the epoch; the claims of a token count seconds.
pub mod Refresh
pub mod Sessions
pub mod Rotating
pub mod Rotation
pub mod Issued
pub mod Revocation
pub mod Unique
pub mod Revoking
pub mod History
mod Tests
use Prim.Native.Nat.{◌/◌}
use python_codebase.Prelude.{
  ℕ, suc, ◌+◌, ◌*◌, ◌≤◌, ◌<◌, ◌≡◌, String, Bool, true, false, not, ◌&&◌, Option, none, some, List,
  [], ◌∷◌, ◌++◌, map, filter, any, ◌==◌, str_eq, if◌then◌else◌,
}
use python_codebase.Result.{
  Result, ok, err, scalar_one_or_none, invalid_credentials, integrity_error,
}
use python_codebase.State.{State, pure, from_result, gets, modify, raise_if, ◌>>=◌, ◌>>◌}
use python_codebase.Session.{Query}
use python_codebase.Sql.{in_tenant, tenant_column}
use python_codebase.Lockout.{minutes}

-- The claims that `_create_token` writes.
pub record Claims : Type 0 where
  pub iss : String
  pub sub : String
  pub aud : String
  pub exp : ℕ
  pub nbf : ℕ
  pub iat : ℕ
  pub jti : String
  pub token_type : String

-- The settings that the tokens depend on.
pub record TokenSettings : Type 0 where
  pub secret_key : String
  pub jwt_issuer : String
  pub jwt_audience : String
  pub access_token_expire_minutes : ℕ
  pub refresh_token_expire_minutes : ℕ

-- What is not the program's own: python-jose, hashlib, and Python's `str` of an integer.
-- `decode token key issuer audience now` is none where `jwt.decode` raises JWTError.
pub record Platform : Type 0 where
  pub encode : Claims → String → String
  pub decode : String → String → String → String → ℕ → Option Claims
  pub sha256 : String → String
  pub str : ℕ → String

-- `jwt.decode` accepts what `jwt.encode` made of these claims with the same key, from their `nbf`
-- to their `exp`.
abbrev pub AcceptsOwnToken : Platform → Claims → Type 0
AcceptsOwnToken p c =
    (key : String) (now : ℕ)
    → c.nbf ≤ now
    → now < c.exp
    → p.decode (p.encode c key) key c.iss c.aud now ≡ some c

abbrev pub seconds : ℕ → ℕ
seconds t = t / 1000000

module _ (p : Platform) (settings : TokenSettings) where
  -- The claims of `_create_token`; `jti` is the text of its `uuid4()`.
  abbrev pub claims : String → String → ℕ → ℕ → String → Claims
  claims sub token_type expire_minutes now jti = record {
    iss = settings.jwt_issuer;
    sub = sub;
    aud = settings.jwt_audience;
    exp = seconds (now + minutes expire_minutes);
    nbf = seconds now;
    iat = seconds now;
    jti = jti;
    token_type = token_type;
  }

  -- `create_access_token`
  unfoldable pub create_access_token : String → ℕ → String → String
  create_access_token sub now jti =
      p.encode (claims sub "access" settings.access_token_expire_minutes now jti)
        settings.secret_key

  -- `create_refresh_token`
  unfoldable pub create_refresh_token : String → ℕ → String → String
  create_refresh_token sub now jti =
      p.encode (claims sub "refresh" settings.refresh_token_expire_minutes now jti)
        settings.secret_key

  abbrev or_invalid : Option Claims → Result Claims
  or_invalid none = err (invalid_credentials "Invalid or expired token")
  or_invalid (some c) = ok c

  -- `decode_token`
  unfoldable pub decode_token : String → ℕ → Result Claims
  decode_token token now =
      or_invalid
        (p.decode token settings.secret_key settings.jwt_issuer settings.jwt_audience (seconds now))

-- `require_token_type`; the message is `expected.title()` with " token required"
unfoldable pub require_token_type : Claims → String → String → Result (Unit {0})
require_token_type payload expected message =
    if str_eq payload.token_type expected then ok tt else err (invalid_credentials message)

-- src/modules/user/domain/entities/refresh_token.py
pub record RefreshToken : Type 0 where
  pub id : Option ℕ
  pub user_id : ℕ
  pub token_hash : String
  pub expires_at : ℕ
  pub is_revoked : Bool

-- A row of the table `user_sessions`.
pub record UserSession : Type 0 where
  pub id : ℕ
  pub user_id : ℕ
  pub refresh_token_hash : String
  pub expires_at : ℕ
  pub is_revoked : Bool
  pub tenant_id : ℕ

pub record SessionDb : Type 0 where
  pub sessions : List UserSession
  pub next_id : ℕ

abbrev pub entity : UserSession → RefreshToken
entity m = record {
  id = some m.id;
  user_id = m.user_id;
  token_hash = m.refresh_token_hash;
  expires_at = m.expires_at;
  is_revoked = m.is_revoked;
}

abbrev entity? : Option UserSession → Option RefreshToken
entity? none = none
entity? (some m) = some (entity m)

-- The columns that `save` writes over a row with its key.
abbrev pub overwrite : RefreshToken → ℕ → ℕ → UserSession → UserSession
overwrite token tenant k m =
    if m.id == k
    then record {
      id = m.id;
      user_id = token.user_id;
      refresh_token_hash = token.token_hash;
      expires_at = token.expires_at;
      is_revoked = token.is_revoked;
      tenant_id = tenant;
    }
    else m

abbrev pub row : RefreshToken → ℕ → ℕ → UserSession
row token tenant k = record {
  id = k;
  user_id = token.user_id;
  refresh_token_hash = token.token_hash;
  expires_at = token.expires_at;
  is_revoked = token.is_revoked;
  tenant_id = tenant;
}

abbrev revoke_row : UserSession → UserSession
revoke_row m = record m { is_revoked = true }

module _ (tenant_id : Option ℕ) where
  unfoldable pub get_by_token_hash : String → Query SessionDb (Option RefreshToken)
  get_by_token_hash token_hash = do
    models ← gets (λ db.
        filter (λ m. str_eq m.refresh_token_hash token_hash && in_tenant tenant_id m.tenant_id)
          db.sessions)
    model ← from_result (scalar_one_or_none models)
    pure (entity? model)

  -- A new row; the index of the hashes is unique.
  unfoldable pub insert : RefreshToken → ℕ → Query SessionDb (Unit {0})
  insert token tenant = do
    taken ← gets (λ db. any (λ m. str_eq m.refresh_token_hash token.token_hash) db.sessions)
    raise_if taken integrity_error
    modify (λ db. record db {
      sessions = db.sessions ++ row token tenant db.next_id ∷ [];
      next_id = suc db.next_id;
    })

  -- `merge` of an entity whose key names a row, where it is another row that has its hash, or not.
  unfoldable pub overwrite_row : RefreshToken → ℕ → ℕ → Query SessionDb (Unit {0})
  overwrite_row token tenant k = do
    taken ← gets (λ db.
        any (λ m. not (m.id == k) && str_eq m.refresh_token_hash token.token_hash) db.sessions)
    raise_if taken integrity_error
    modify (λ db. record db { sessions = map (overwrite token tenant k) db.sessions })

  abbrev save_at : Option ℕ → RefreshToken → ℕ → Query SessionDb (Unit {0})
  save_at none token tenant = insert token tenant
  save_at (some k) token tenant = overwrite_row token tenant k

  -- `save` of a token that has no key, or the key of a row that was read
  unfoldable pub save : RefreshToken → Query SessionDb (Unit {0})
  save token = do tenant ← from_result (tenant_column tenant_id); save_at token.id token tenant

  -- What the update of `revoke_by_user_id` makes of a row.
  abbrev pub revoke_of : ℕ → UserSession → UserSession
  revoke_of user_id m =
      if m.user_id == user_id && not m.is_revoked && in_tenant tenant_id m.tenant_id
      then revoke_row m
      else m

  unfoldable pub revoke_by_user_id : ℕ → Query SessionDb (Unit {0})
  revoke_by_user_id user_id =
      modify (λ db. record db { sessions = map (revoke_of user_id) db.sessions })
