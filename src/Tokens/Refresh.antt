-- ===== src/Tokens/Refresh.antt =====
-- `RefreshTokenCommandHandler` (src/modules/user/application/auth/refresh_token/handler.py).
use python_codebase.Prelude.{ℕ, ◌+◌, String, true, false, not, Option, none, ltb, str_eq, is_blank}
use python_codebase.Result.{Result, ok, err, invalid_refresh_token, value_error}
use python_codebase.State.{pure, from_result, raise_if, or_raise, ◌>>=◌, ◌>>◌}
use python_codebase.Session.{Exec, Query, lift, transaction}
use python_codebase.Lockout.{minutes}
use python_codebase.Tokens.{
  Claims, TokenSettings, Platform, RefreshToken, SessionDb, create_access_token,
  create_refresh_token, decode_token, require_token_type, get_by_token_hash, save,
}

-- The pair of tokens that the handler returns.
pub record TokenPair : Type 0 where
  pub access_token : String
  pub refresh_token : String

-- What a run draws from the outside: the clock, and the texts of two `uuid4()`.
pub record Draw : Type 0 where
  pub now : ℕ
  pub access_jti : String
  pub refresh_jti : String

module _ (p : Platform) (settings : TokenSettings) where
  abbrev checked : Result Claims → Result Claims
  checked (err e) = err e
  checked (ok payload) = elim (require_token_type payload "refresh" "Refresh token required") [
    | ok _ ↦ ok payload
    | err e ↦ err e
  ]

  -- The block `try: decode, require ... except InvalidCredentialsError`
  abbrev or_invalid_refresh : Result Claims → Result Claims
  or_invalid_refresh (ok payload) = ok payload
  or_invalid_refresh (err e) = err (invalid_refresh_token "Invalid refresh token")

  unfoldable pub refresh_payload : String → ℕ → Result Claims
  refresh_payload token now = or_invalid_refresh (checked (decode_token p settings token now))

  -- The token that replaces another.
  abbrev pub successor : Draw → RefreshToken → RefreshToken
  successor draw stored = record {
    id = none;
    user_id = stored.user_id;
    token_hash =
        p.sha256 (create_refresh_token p settings (p.str stored.user_id) draw.now draw.refresh_jti);
    expires_at = draw.now + minutes settings.refresh_token_expire_minutes;
    is_revoked = false;
  }

module _ (p : Platform) (settings : TokenSettings) (tenant_id : Option ℕ) where
  -- The block of the unit of work.
  unfoldable pub rotate : Draw → RefreshToken → Query SessionDb TokenPair
  rotate draw stored = do
    save tenant_id (record stored { is_revoked = true })
    save tenant_id (successor p settings draw stored)
    pure (record {
      access_token = create_access_token p settings (p.str stored.user_id) draw.now draw.access_jti;
      refresh_token =
          create_refresh_token p settings (p.str stored.user_id) draw.now draw.refresh_jti;
    })

  -- `execute`
  unfoldable pub refresh : String → Draw → Exec SessionDb TokenPair
  refresh token draw = do
    raise_if (is_blank token) (value_error "Refresh token is required")
    found ← lift (get_by_token_hash tenant_id (p.sha256 token))
    stored ← or_raise found (invalid_refresh_token "Invalid refresh token")
    raise_if stored.is_revoked (invalid_refresh_token "Refresh token has been revoked")
    raise_if (ltb stored.expires_at draw.now) (invalid_refresh_token "Refresh token has expired")
    payload ← from_result (refresh_payload p settings token draw.now)
    raise_if (not (str_eq payload.sub (p.str stored.user_id)))
        (invalid_refresh_token "Invalid refresh token")
    transaction (rotate draw stored)
