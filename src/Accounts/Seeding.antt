-- ===== src/Accounts/Seeding.antt =====
-- The users that a seed creates: src/core/seed/user.py.
use python_codebase.Prelude.{
  ℕ, ◌+◌, String, Bool, true, false, not, ◌&&◌, Option, none, some, List, [], ◌∷◌, str_eq, is_blank,
}
use python_codebase.Result.{integrity_error}
use python_codebase.State.{pure, from_result, or_raise, ◌>>=◌, ◌>>◌}
use python_codebase.Session.{Query}
use python_codebase.Tokens.{Platform}
use python_codebase.Users.{User, get_by_email}
use python_codebase.Users.Saving.{new_user, default_profile, save, save_profile}
use python_codebase.Authorization.Roles.{assign_role}
use python_codebase.Accounts.{AccountDb, on_users, on_authorization}
use python_codebase.Accounts.Login.{Passwords, text_of}

-- `SeedUserConfig`; `app_env` is its text in lower case
pub record SeedUserConfig : Type 0 where
  pub app_env : String
  pub admin_email : String
  pub admin_password : String
  pub admin_username : Option String
  pub admin_fullname : Option String
  pub development_users_password : String

-- `UserSeedResult`
pub record UserSeedResult : Type 0 where
  pub users_created : ℕ
  pub roles_assigned : ℕ

abbrev nothing : UserSeedResult
nothing = record { users_created = 0; roles_assigned = 0 }

abbrev plus : UserSeedResult → UserSeedResult → UserSeedResult
plus a b = record {
  users_created = a.users_created + b.users_created;
  roles_assigned = a.roles_assigned + b.roles_assigned;
}

unfoldable pub has_admin_credentials : SeedUserConfig → Bool
has_admin_credentials c = not (is_blank c.admin_email) && not (is_blank c.admin_password)

unfoldable pub should_seed_development_users : SeedUserConfig → Bool
should_seed_development_users c =
    str_eq c.app_env "development" && not (is_blank c.development_users_password)

-- `DevelopmentSeedUser`, and the arguments of `_seed_one_user`
pub record SeedUser : Type 0 where
  pub email : String
  pub password : String
  pub username : Option String
  pub fullname : Option String
  pub role : String

-- `_development_users`
abbrev pub development_users : String → List SeedUser
development_users password =
    record {
      email = "user@example.com";
      password = password;
      username = some "user";
      fullname = some "Default User";
      role = "user";
    }
    ∷ record {
      email = "manager@example.com";
      password = password;
      username = some "manager";
      fullname = some "Todo Manager";
      role = "manager";
    }
    ∷ record {
      email = "viewer@example.com";
      password = password;
      username = some "viewer";
      fullname = some "Todo Viewer";
      role = "viewer";
    }
    ∷ []

module _ (p : Platform) (passwords : Passwords) (salt : String) (to_int : String → Option ℕ)
    (tenant_id : Option ℕ) where
  abbrev create_one : SeedUser → Option User → Query AccountDb UserSeedResult
  create_one seed (some existing) = pure nothing
  create_one seed none = do
    hashed ← from_result (passwords.hash salt seed.password)
    saved_user ← on_users (save tenant_id (new_user seed.email hashed seed.username "local"))
    k ← or_raise saved_user.id integrity_error
    on_users (save_profile tenant_id (record (default_profile k) { display_name = seed.fullname }))
    on_authorization (assign_role tenant_id to_int (text_of p saved_user.id) seed.role)
    pure (record { users_created = 1; roles_assigned = 1 })

  -- `_seed_one_user`
  unfoldable pub seed_one_user : SeedUser → Query AccountDb UserSeedResult
  seed_one_user seed = do
    existing ← on_users (get_by_email tenant_id seed.email)
    create_one seed existing

  abbrev seed_all : List SeedUser → UserSeedResult → Query AccountDb UserSeedResult
  seed_all [] total = pure total
  seed_all (x ∷ rest) total = do result ← seed_one_user x; seed_all rest (plus total result)

  abbrev admin_of : SeedUserConfig → List SeedUser
  admin_of c = elim (has_admin_credentials c) [
    | true ↦
        record {
          email = c.admin_email;
          password = c.admin_password;
          username = c.admin_username;
          fullname = c.admin_fullname;
          role = "admin";
        }
        ∷ []
    | false ↦ []
  ]

  abbrev developers_of : SeedUserConfig → List SeedUser
  developers_of c = elim (should_seed_development_users c) [
    | true ↦ development_users c.development_users_password
    | false ↦ []
  ]

  -- `seed_user`
  unfoldable pub seed_user : SeedUserConfig → Query AccountDb UserSeedResult
  seed_user c = do admins ← seed_all (admin_of c) nothing; seed_all (developers_of c) admins
