-- ===== src/Accounts/Login.antt =====
-- `LoginUserCommandHandler` (src/modules/user/application/auth/login_user/handler.py).
use python_codebase.Prelude.{
  ℕ, ◌+◌, String, Bool, true, false, Option, none, some, [], ◌∷◌, is_blank, get_or,
}
use python_codebase.Result.{
  Result, ok, err, value_error, type_error, integrity_error, invalid_credentials,
}
use python_codebase.State.{pure, raise, raise_if, ◌>>=◌, ◌>>◌}
use python_codebase.Session.{Exec, Query, lift, transaction}
use python_codebase.Lockout.{
  LockoutService, minutes, ensure_login_allowed, record_failed_login, record_successful_login,
}
use python_codebase.Tokens.{
  TokenSettings, Platform, RefreshToken, create_access_token, create_refresh_token,
  save as save_session,
}
use python_codebase.Tokens.Refresh.{TokenPair, Draw}
use python_codebase.Users.{User, UserSecurity, get_by_email}
use python_codebase.TwoFactor.{
  Platform as TwoFactorPlatform, Method, totp, present, verify_2fa_code,
}
use python_codebase.Accounts.{
  AccountDb, AuditEvent, AuditService, Driver, on_users, on_attempts, on_sessions, in_users,
  record_event,
}

-- passlib's context: `verify password hash`, and `hash` with the salt that it draws, which raises for
-- a text of more than 4096 characters. The password of a login is taken to be shorter.
pub record Passwords : Type 0 where
  pub verify : String → String → Bool
  pub hash : String → String → Result String

pub record LoginUserCommand : Type 0 where
  pub username : String
  pub password : String
  pub two_factor_code : Option String
  pub two_factor_method : Option Method

-- What the handler is made with: the tenant of its two repositories, and its services.
pub record LoginContext : Type 0 where
  pub tenant_id : Option ℕ
  pub lockout : Option LockoutService
  pub audit : Option AuditService
  pub settings : TokenSettings
  pub platform : Platform
  pub two_factor : TwoFactorPlatform
  pub passwords : Passwords
  pub driver : Driver

-- `RefreshToken.create`
unfoldable pub new_refresh_token : ℕ → String → ℕ → RefreshToken
new_refresh_token user_id token_hash expires_at = record {
  id = none;
  user_id = user_id;
  token_hash = token_hash;
  expires_at = expires_at;
  is_revoked = false;
}

-- `str(user.id)`
abbrev pub text_of : Platform → Option ℕ → String
text_of p none = "None"
text_of p (some k) = p.str k

abbrev pub login_event : String → String → Option String → AuditEvent
login_event email result actor_id = record {
  action = "user.login";
  actor_id = actor_id;
  resource_type = some "user";
  resource_id = actor_id;
  metadata = ("email", email) ∷ ("result", result) ∷ [];
}

-- The three services' calls, each where the service is given.
abbrev audit_given :
    Driver → Option AuditService → String → String → Option String → Query AccountDb (Unit {0})
audit_given driver none email result actor_id = pure tt
audit_given driver (some service) email result actor_id =
    record_event driver service (login_event email result actor_id)

abbrev failed_given : Option LockoutService → String → ℕ → Query AccountDb (Unit {0})
failed_given none email now = pure tt
failed_given (some service) email now = on_attempts (record_failed_login service email now)

abbrev pub successful_given : Option LockoutService → String → Query AccountDb (Unit {0})
successful_given none email = pure tt
successful_given (some service) email = on_attempts (record_successful_login service email)

module _ (c : LoginContext) where
  -- `_audit_login`
  unfoldable pub audit_login : String → String → Option String → Query AccountDb (Unit {0})
  audit_login = audit_given c.driver c.audit

  -- The block of `_record_failed_login`.
  unfoldable pub failed_block : String → ℕ → Query AccountDb (Unit {0})
  failed_block email now = do failed_given c.lockout email now; audit_login email "failure" none

  -- `_record_failed_login`, and the raise after it
  unfoldable pub refuse : String → String → ℕ → Exec AccountDb TokenPair
  refuse email message now = do
    transaction (failed_block email now)
    raise (invalid_credentials message)

  -- The `except ValueError` of the lockout.
  abbrev pub handle_locked : String → Result (Unit {0}) → Exec AccountDb (Unit {0})
  handle_locked email (ok u) = pure u
  handle_locked email (err (value_error m)) = do
    transaction (audit_login email "locked" none)
    raise (invalid_credentials "Account is temporarily locked")
  handle_locked email (err e) = raise e

  abbrev pub guard_given : Option LockoutService → String → ℕ → Exec AccountDb (Unit {0})
  guard_given none email now s = (ok tt, s)
  guard_given (some service) email now s =
      let (r, s') = lift (on_attempts (ensure_login_allowed service email now)) s in
      handle_locked email r s'

  unfoldable pub ensure_unlocked : String → ℕ → Exec AccountDb (Unit {0})
  ensure_unlocked = guard_given c.lockout

  -- The tokens of a user; their claims are set at `now`.
  abbrev pub tokens_of : Option ℕ → Draw → TokenPair
  tokens_of id draw = record {
    access_token =
        create_access_token c.platform c.settings (text_of c.platform id) draw.now draw.access_jti;
    refresh_token =
        create_refresh_token c.platform c.settings (text_of c.platform id) draw.now
          draw.refresh_jti;
  }

  -- The session of a refresh token; the column of the user is not nullable.
  abbrev pub store_session : Option ℕ → Draw → Query AccountDb (Unit {0})
  store_session none draw = raise integrity_error
  store_session (some k) draw = on_sessions (
      save_session c.tenant_id (
        new_refresh_token k (c.platform.sha256 (tokens_of (some k) draw).refresh_token)
          (draw.now + minutes c.settings.refresh_token_expire_minutes)))

  -- The block of a login that succeeds.
  unfoldable pub success_block : String → Option ℕ → Draw → Query AccountDb TokenPair
  success_block email id draw = do
    successful_given c.lockout email
    store_session id draw
    audit_login email "success" (some (text_of c.platform id))
    pure (tokens_of id draw)

  -- `create_access_token` has no parameter `expires_delta`, so the call for a temporary token raises.
  abbrev second_factor : LoginUserCommand → User → Option String → ℕ → Exec AccountDb (Unit {0})
  second_factor command user none now = raise type_error
  second_factor command user (some code) now = do
    verified ← in_users (
        verify_2fa_code c.two_factor c.tenant_id user code (get_or command.two_factor_method totp)
          now)
    elim verified [
      | true ↦ pure tt
      | false ↦ do
        transaction (failed_block command.username now)
        raise (invalid_credentials "Invalid 2FA code")
    ]

  -- `user.security and user.security.two_factor_enabled`
  abbrev pub wants_second : Option UserSecurity → Bool
  wants_second none = false
  wants_second (some security) = security.two_factor_enabled

  abbrev pub check_second : LoginUserCommand → User → ℕ → Exec AccountDb (Unit {0})
  check_second command user now = elim (wants_second user.security) [
    | true ↦ second_factor command user (present command.two_factor_code) now
    | false ↦ pure tt
  ]

  abbrev pub admit : LoginUserCommand → User → Draw → Exec AccountDb TokenPair
  admit command user draw = do
    check_second command user draw.now
    transaction (success_block command.username user.id draw)

  abbrev pub by_user : LoginUserCommand → Option User → Draw → Exec AccountDb TokenPair
  by_user command none draw = refuse command.username "Incorrect email or password" draw.now
  by_user command (some user) draw = elim (c.passwords.verify command.password user.password_hash) [
    | true ↦ admit command user draw
    | false ↦ refuse command.username "Incorrect email or password" draw.now
  ]

  -- `execute`
  unfoldable pub login : LoginUserCommand → Draw → Exec AccountDb TokenPair
  login command draw = do
    raise_if (is_blank command.username) (value_error "Username is required")
    raise_if (is_blank command.password) (value_error "Password is required")
    ensure_unlocked command.username draw.now
    user ← lift (on_users (get_by_email c.tenant_id command.username))
    by_user command user draw
