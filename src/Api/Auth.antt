-- ===== src/Api/Auth.antt =====
-- The routes of src/modules/user/presentation/routers/user_router.py, with the handlers that
-- src/modules/user/presentation/dependency.py wires. What a handler draws is an argument.
use python_codebase.Prelude.{ℕ, String, Option, none, some, get_or, after_prefix, strip}
use python_codebase.Result.{
  Error, Result, ok, err, user_already_exists, invalid_refresh_token, http_error, validation_error,
}
use python_codebase.State.{State, or_raise, pure, ◌>>=◌}
use python_codebase.Session.{Session, Exec}
use python_codebase.Users.{User, UserProfile, UserSettings, UserSecurity}
use python_codebase.Tokens.Refresh.{TokenPair, Draw, refresh}
use python_codebase.Tokens.Revocation.{Redis}
use python_codebase.Accounts.{on_users}
use python_codebase.Accounts.Login.{LoginContext, login}
use python_codebase.Accounts.Registration.{RegisterUserCommand, register, detail_user}
use python_codebase.Accounts.Logout.{logout}
use python_codebase.Middleware.{Request}
use python_codebase.Api.{
  AppDb, Context, CurrentUser, in_accounts, in_sessions, part, with_part, reads,
  get_current_tenant_id, require_permission,
}
use python_codebase.Api.Todos.{catching}

-- `UserResponse`; the times of creation and change are left out.
pub record UserResponse : Type 0 where
  pub id : String
  pub email : String
  pub username : Option String
  pub auth_provider : String
  pub external_id : Option String
  pub status : String
  pub profile : Option UserProfile
  pub settings : Option UserSettings
  pub security : Option UserSecurity

-- The `id` that the model is given: a text, or what is none for it.
pub data IdArgument : Type 0 where
  text_id : String → IdArgument
  number_id : Option ℕ → IdArgument

-- The arguments of `UserResponse(...)`; one that is not passed is none.
pub record UserArguments : Type 0 where
  pub id : Option IdArgument
  pub email : Option String
  pub username : Option (Option String)
  pub auth_provider : Option String
  pub external_id : Option (Option String)
  pub status : Option String
  pub created_at : Option (Option String)
  pub updated_at : Option (Option String)
  pub profile : Option (Option UserProfile)
  pub settings : Option (Option UserSettings)
  pub security : Option (Option UserSecurity)

abbrev as_text : Option IdArgument → Option String
as_text (some (text_id s)) = some s
as_text _ = none

-- `UserResponse(...)`: a field without a default that is not passed, and an id that is no text,
-- raise.
abbrev pub new_user_response : {S : Type 0} → UserArguments → State S UserResponse
new_user_response a = do
  id ← or_raise (as_text a.id) validation_error
  email ← or_raise a.email validation_error
  username ← or_raise a.username validation_error
  external_id ← or_raise a.external_id validation_error
  created_at ← or_raise a.created_at validation_error
  updated_at ← or_raise a.updated_at validation_error
  profile ← or_raise a.profile validation_error
  settings ← or_raise a.settings validation_error
  security ← or_raise a.security validation_error
  pure (record {
    id = id;
    email = email;
    username = username;
    auth_provider = get_or a.auth_provider "local";
    external_id = external_id;
    status = get_or a.status "pending_verification";
    profile = profile;
    settings = settings;
    security = security;
  })

-- The two arguments that `register` passes.
abbrev registered_arguments : User → UserArguments
registered_arguments user = record {
  id = some (number_id user.id);
  email = some user.email;
  username = none;
  auth_provider = none;
  external_id = none;
  status = none;
  created_at = none;
  updated_at = none;
  profile = none;
  settings = none;
  security = none;
}

module _ (c : Context) where
  -- `str(user.id)`
  abbrev str_of : Option ℕ → String
  str_of (some k) = c.platform.str k
  str_of none = "None"

  abbrev user_response : User → UserResponse
  user_response user = record {
    id = str_of user.id;
    email = user.email;
    username = user.username;
    auth_provider = user.auth_provider;
    external_id = user.external_id;
    status = user.status;
    profile = user.profile;
    settings = user.settings;
    security = user.security;
  }

  -- `except UserAlreadyExistsError`, and `message` is `str` of it
  abbrev register_error : String → Error → Error
  register_error message user_already_exists = http_error 400 message
  register_error message e = e

  -- `register`
  unfoldable pub post_register :
      String → RegisterUserCommand → String → String → Request → Exec AppDb UserResponse
  post_register message command salt verification_token request = do
    tenant_id ← get_current_tenant_id request
    registered ← catching (register_error message) (
        in_accounts (
          register c.platform c.passwords c.to_int (some tenant_id) command salt
            verification_token))
    new_user_response (registered_arguments registered.user)

  -- `get_login_handler`
  abbrev login_context : ℕ → LoginContext
  login_context tenant_id = record {
    tenant_id = some tenant_id;
    lockout = some (record { repository = some (some tenant_id); settings = c.lockout });
    audit = some (record { repository = some (some tenant_id) });
    settings = c.settings;
    platform = c.platform;
    two_factor = c.two_factor;
    passwords = c.passwords;
    driver = c.driver;
  }

  -- `login`: the form has no code of the second factor
  unfoldable pub post_login : String → String → Draw → Request → Exec AppDb TokenPair
  post_login username password draw request = do
    tenant_id ← get_current_tenant_id request
    in_accounts (
        login (login_context tenant_id)
          (record {
            username = username;
            password = password;
            two_factor_code = none;
            two_factor_method = none;
          })
          draw)

  abbrev refresh_error : Error → Error
  refresh_error (invalid_refresh_token m) = http_error 401 m
  refresh_error e = e

  -- `refresh_token`
  unfoldable pub post_refresh : String → Draw → Request → Exec AppDb TokenPair
  post_refresh token draw request = do
    tenant_id ← get_current_tenant_id request
    catching refresh_error
        (in_accounts (in_sessions (refresh c.platform c.settings (some tenant_id) token draw)))

  -- `get_me`
  unfoldable pub get_me : Request → Exec AppDb UserResponse
  get_me request = do
    caller ← require_permission c "user" "me" request
    user ← reads (on_users (detail_user (some caller.1) caller.0.id))
    pure (user_response user)

  -- `request.headers.get("Authorization", "").removeprefix("Bearer ").strip()`
  abbrev access_token : Option String → String
  access_token none = ""
  access_token (some header) = strip (get_or (after_prefix "Bearer " header) header)

  module _ {R : Type 0} (redis : Redis R) where
    abbrev logout_of : ℕ → CurrentUser → Request → ℕ → State (Session AppDb × R) (Unit {0})
    logout_of tenant_id current_user request now (s, r) =
        let a = part (λ (db : AppDb). db.accounts) (λ d db. record db { accounts = d }) s in
        let t = part (λ db. db.sessions) (λ d db. record db { sessions = d }) a in
        let (result, t', r') =
          logout redis c.platform c.settings c.driver c.to_int (some tenant_id)
            (record {
              user_id = str_of current_user.id;
              access_token = access_token request.authorization;
            })
            now (t, r) in
        (
          result,
          (
            with_part (λ db. db.accounts) (λ d db. record db { accounts = d }) s
                (with_part (λ db. db.sessions) (λ d db. record db { sessions = d }) a t'),
            r',
          ),
        )

    abbrev proceed_logout :
        Request
        → ℕ
        → R
        → Result (CurrentUser × ℕ) × Session AppDb
        → Result (Unit {0}) × (Session AppDb × R)
    proceed_logout request now r (err e, s) = (err e, (s, r))
    proceed_logout request now r (ok caller, s) = logout_of caller.1 caller.0 request now (s, r)

    -- `logout`
    unfoldable pub post_logout : Request → ℕ → State (Session AppDb × R) (Unit {0})
    post_logout request now (s, r) =
        proceed_logout request now r (require_permission c "user" "update" request s)
