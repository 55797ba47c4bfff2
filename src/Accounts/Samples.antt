-- ===== src/Accounts/Samples.antt =====
-- A tenant with one user, Ann, and stand-ins for the libraries: what the tests of the accounts and
-- of the API share.
use mathlib.Core.List.{[], ◌∷◌}
use mathlib.Core.Option.{Option, none, some}
use python_codebase.Prelude.{Bool, true, ℕ, String, false, str_eq}
use python_codebase.Result.{ok, err, data_error}
use python_codebase.Session.{Session}
use python_codebase.Lockout.{LockoutSettings}
use python_codebase.Tokens.{Claims, Platform, TokenSettings}
use python_codebase.Tokens.Refresh.{Draw}
use python_codebase.Users.{UserModel}
use python_codebase.Authorization.{AuthorizationDb, RoleModel}
use python_codebase.Accounts.{AccountDb, Driver}
use python_codebase.Accounts.Login.{Passwords, LoginContext, LoginUserCommand}
use python_codebase.Tokens.Revocation.{Redis}
use python_codebase.Authorization.Roles.{assign_role}
use python_codebase.Accounts.Registration.{RegisterUserCommand}
use python_codebase.Accounts.Seeding.{SeedUserConfig}
use python_codebase.TwoFactor.{Platform as TwoFactorPlatform}

-- A stand-in that signs one set of claims; a text is its own hash.
abbrev pub own : String → Claims
own token_type = record {
  iss = "app";
  sub = "7";
  aud = "app";
  exp = 3600;
  nbf = 0;
  iat = 0;
  jti = "first";
  token_type = token_type;
}

abbrev pub signer : String → Platform
signer token_type = record {
  encode = λ c key. c.jti;
  decode = λ token key issuer audience now. some (own token_type);
  sha256 = λ s. s;
  str = λ n. "7";
}

abbrev pub settings : TokenSettings
settings = record {
  secret_key = "key";
  jwt_issuer = "app";
  jwt_audience = "app";
  access_token_expire_minutes = 60;
  refresh_token_expire_minutes = 60;
}

abbrev pub lockout : LockoutSettings
lockout = record { max_attempts = 1; window_minutes = 15; duration_minutes = 15 }

-- A stand-in for passlib that keeps the password.
abbrev pub plain : Passwords
plain = record {
  verify = λ password hash. str_eq password hash;
  hash = λ salt password. ok password;
}

abbrev pub pyotp : TwoFactorPlatform
pyotp = record {
  verify_totp = λ secret code now. str_eq secret code;
  provisioning_uri = λ secret name issuer. secret;
  str = λ n. "0";
  to_int = λ s. some 0;
}

abbrev pub to_int : String → Option ℕ
to_int s = some 7

abbrev pub lenient : Driver
lenient = record { uuid_key = ok tt; text_as_integer = λ s. ok 7 }

abbrev pub strict : Driver
strict = record { uuid_key = err data_error; text_as_integer = λ s. err data_error }

abbrev pub context : Driver → LoginContext
context driver = record {
  tenant_id = some 1;
  lockout = some (record { repository = some (some 1); settings = lockout });
  audit = some (record { repository = some (some 1) });
  settings = settings;
  platform = signer "refresh";
  two_factor = pyotp;
  passwords = plain;
  driver = driver;
}

abbrev pub ann : UserModel
ann = record {
  id = 7;
  email = "ann@example.org";
  username = none;
  password_hash = "correct horse";
  auth_provider = "local";
  external_id = none;
  status = "active";
  tenant_id = 1;
}

abbrev pub user_role : RoleModel
user_role = record { id = 1; name = "user"; description = none; tenant_id = 1; created_at = 0 }

abbrev pub roles : AuthorizationDb
roles = record {
  roles = user_role ∷ [];
  resources = [];
  permissions = [];
  role_permissions = [];
  user_has_roles = [];
  casbin_rules = [];
  next_role_id = 2;
  next_resource_id = 1;
  next_permission_id = 1;
  now = 0;
}

abbrev pub db : AccountDb
db = record {
  users = record { users = ann ∷ []; profiles = []; settings = []; security = []; next_id = 8 };
  attempts = [];
  sessions = record { sessions = []; next_id = 1 };
  audit_logs = [];
  authorization = roles;
}

abbrev pub opened : Session AccountDb
opened = record { committed = db; working = db; is_committed = false }

abbrev pub seeds : SeedUserConfig
seeds = record {
  app_env = "development";
  admin_email = "admin@example.org";
  admin_password = "correct horse";
  admin_username = none;
  admin_fullname = none;
  development_users_password = "battery staple";
}

abbrev pub attempt : String → LoginUserCommand
attempt password = record {
  username = "ann@example.org";
  password = password;
  two_factor_code = none;
  two_factor_method = none;
}

abbrev pub draw : ℕ → Draw
draw now = record { now = now; access_jti = "access"; refresh_jti = "first" }

abbrev pub newcomer : RegisterUserCommand
newcomer = record { email = "bob@example.org"; password = "battery staple" }

abbrev pub with_bob : AuthorizationDb
with_bob = (assign_role (some 1) (λ s. some 8) "8" "user" roles).1

abbrev pub numbered : Platform
numbered = record (signer "access") { str = λ n. "8" }

-- A Redis server with one key, which it keeps.
abbrev pub one_key : Redis Bool
one_key = record { exists = λ key now r. r; setex = λ key ttl value now r. true }
