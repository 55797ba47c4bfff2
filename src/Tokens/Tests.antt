-- ===== src/Tokens/Tests.antt =====
-- A refresh token is used, and used again.
use mathlib.Core.List.{[], ◌∷◌}
use mathlib.Core.Option.{none, some}
use python_codebase.Prelude.{◌≡◌, refl, arith, true, false, eq_iff, is_blank}
use python_codebase.Result.{ok, err, invalid_refresh_token}
use python_codebase.Sql.{in_tenant, tenant_column}
use python_codebase.Session.{Session}
use python_codebase.Tokens.{
  Claims, Platform, TokenSettings, UserSession, SessionDb, RefreshToken, row, create_refresh_token,
  save, revoke_by_user_id,
}
use python_codebase.Tokens.Refresh.{Draw, refresh}
use python_codebase.Tokens.Rotation.{Refreshed, refresh-Refreshed}
use python_codebase.Tokens.Rotating.{issued}
use python_codebase.Tokens.History.{Reach, here, then, begun, ended, IsConsistent}
use python_codebase.Tokens.History.Invariant.{revoked_forever}
use python_codebase.Tokens.Issued.{token, refresh_returns}

-- A stand-in for python-jose and hashlib: a token is its `jti`, and every text is its own hash.
abbrev platform : Platform
platform = record {
  encode = λ c key. c.jti;
  decode = λ token key issuer audience now. some (record {
    iss = issuer;
    sub = "7";
    aud = audience;
    exp = 2000;
    nbf = 0;
    iat = 0;
    jti = token;
    token_type = "refresh";
  });
  sha256 = λ s. s;
  str = λ n. "7";
}

abbrev settings : TokenSettings
settings = record {
  secret_key = "key";
  jwt_issuer = "app";
  jwt_audience = "app";
  access_token_expire_minutes = 15;
  refresh_token_expire_minutes = 60;
}

abbrev stored : UserSession
stored = record {
  id = 1;
  user_id = 7;
  refresh_token_hash = "first";
  expires_at = 1000000;
  is_revoked = false;
  tenant_id = 1;
}

abbrev db : SessionDb
db = record {
  sessions = stored ∷ record stored { id = 2; refresh_token_hash = "other" } ∷ [];
  next_id = 3;
}

abbrev opened : Session SessionDb
opened = record { committed = db; working = db; is_committed = false }

abbrev draw : Draw
draw = record { now = 500000; access_jti = "access"; refresh_jti = "second" }

refresh-Refreshed_example :
    Refreshed platform settings
      (some 1)
      "first"
      draw
      draw
      opened
      (refresh platform settings (some 1) "first" draw opened)
refresh-Refreshed_example =
    refresh-Refreshed platform settings (some 1) "first" draw draw opened
      (((omega arith, ground (arith, eq_iff "other" "first")), tt), (tt, tt))

-- A stand-in that signs one set of claims.
abbrev own : Claims
own = record {
  iss = "app";
  sub = "7";
  aud = "app";
  exp = 3600;
  nbf = 0;
  iat = 0;
  jti = "first";
  token_type = "refresh";
}

abbrev signer : Platform
signer = record platform { decode = λ token key issuer audience now. some own }

first_filled : is_blank "first" ≡ false
unfolding is_blank
first_filled = refl

refresh_returns_example :
    (refresh signer settings
      (some 1)
      (token signer settings 1 "first" 0 draw stored opened)
      draw
      opened).0
    ≡ ok (issued signer settings draw stored)
refresh_returns_example =
    refresh_returns signer settings 1 "first" 0 draw stored opened (λ key now _ _. refl)
      (omega arith) (omega arith) (unfold create_refresh_token in first_filled)
      (unfold create_refresh_token in refl) (unfold in_tenant in refl) refl (omega arith)
      (unfold create_refresh_token in refl)

-- The first session is revoked; then its user logs out, and logs in again.
abbrev spent : SessionDb
spent = record db {
  sessions =
      record stored { is_revoked = true }
      ∷ record stored { id = 2; refresh_token_hash = "other" }
      ∷ [];
}

abbrev third : RefreshToken
third = record {
  id = none;
  user_id = 7;
  token_hash = "third";
  expires_at = 9000000;
  is_revoked = false;
}

abbrev later : SessionDb
later = record {
  sessions =
      record stored { is_revoked = true }
      ∷ record stored { id = 2; refresh_token_hash = "other"; is_revoked = true }
      ∷ row third 1 3
      ∷ [];
  next_id = 4;
}

later_reached : Reach platform settings 1 spent later
unfolding save python_codebase.Tokens.insert tenant_column in_tenant revoke_by_user_id
later_reached = then (then here (ended 7 spent)) (begun third _ _ refl refl)

revoked_forever_example :
    IsConsistent platform settings 1 later
    × (refresh platform settings
          (some 1)
          "first"
          draw
          (record { committed = later; working = later; is_committed = false })
        ≡ (
          err (invalid_refresh_token "Refresh token has been revoked"),
          record { committed = later; working = later; is_committed = false },
        ))
revoked_forever_example =
    revoked_forever platform settings 1 "first" draw spent
      (record { committed = later; working = later; is_committed = false })
      (
        (((omega arith, ground (arith, eq_iff "other" "first")), tt), (tt, tt)),
        (omega arith, (omega arith, tt)),
      )
      (record stored { is_revoked = true }, refl, refl, unfold in_tenant in refl) later_reached
      first_filled
