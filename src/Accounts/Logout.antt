-- ===== src/Accounts/Logout.antt =====
-- `LogoutUserCommandHandler` (src/modules/user/application/auth/logout_user/handler.py).
use python_codebase.Prelude.{ℕ, String, Option, is_blank}
use python_codebase.Result.{Result, ok, err, value_error}
use python_codebase.State.{from_result, raise_if, or_raise, ◌>>=◌, ◌>>◌}
use python_codebase.Session.{Session, Exec, Query, transaction}
use python_codebase.Tokens.{TokenSettings, Platform, SessionDb, revoke_by_user_id}
use python_codebase.Tokens.Revocation.{Redis, revoke_access_token}
use python_codebase.Accounts.{Driver}

pub record LogoutUserCommand : Type 0 where
  pub user_id : String
  pub access_token : String

module _ {R : Type 0} (redis : Redis R) (p : Platform) (settings : TokenSettings) (driver : Driver)
    (to_int : String → Option ℕ) (tenant_id : Option ℕ) where
  -- The update of the sessions: the command's id is a text, and the column an integer.
  unfoldable pub revoke_sessions : LogoutUserCommand → Query SessionDb (Unit {0})
  revoke_sessions command = do
    user_id ← from_result (driver.text_as_integer command.user_id)
    revoke_by_user_id tenant_id user_id

  -- The block of the unit of work.
  abbrev logout_block : LogoutUserCommand → Exec SessionDb (Unit {0})
  logout_block command = transaction (revoke_sessions command)

  -- Redis is written after the update and before the commit, so only where the update did not raise.
  abbrev after_update : LogoutUserCommand → ℕ → Result (Unit {0}) → R → R
  after_update command now (err e) r = r
  after_update command now (ok u) r =
      revoke_access_token redis p settings command.access_token now r

  abbrev logout_checked : LogoutUserCommand → Exec SessionDb (Unit {0})
  logout_checked command = do
    or_raise (to_int command.user_id) (value_error "User id must be a valid integer")
    raise_if (is_blank command.access_token) (value_error "Access token is required")
    logout_block command

  -- `execute`
  unfoldable pub logout :
      LogoutUserCommand → ℕ → Session SessionDb × R → Result (Unit {0}) × Session SessionDb × R
  logout command now state =
      let (result, s') = logout_checked command state.0 in
      (result, s', after_update command now result state.1)
