-- ===== src/Users.antt =====
-- The users, their profiles, settings and security records: src/modules/user/domain/entities/user.py
-- and src/modules/user/infrastructure/repositories/user_repository.py. The times of creation and
-- change are left out.
pub mod Saving
use python_codebase.Prelude.{
  ℕ, String, Bool, ◌&&◌, Option, none, some, List, [], ◌∷◌, ◌++◌, map, filter, ◌==◌, str_eq, has_id,
  if◌then◌else◌,
}
use python_codebase.Result.{scalar_one_or_none}
use python_codebase.State.{pure, from_result, gets, modify, ◌>>=◌}
use python_codebase.Session.{Query}
use python_codebase.Sql.{in_tenant, tenant_column}

pub record UserSecurity : Type 0 where
  pub user_id : ℕ
  pub failed_login_attempts : ℕ
  pub locked_until : Option ℕ
  pub password_changed_at : Option ℕ
  pub two_factor_enabled : Bool
  pub two_factor_secret : Option String
  pub two_factor_backup_codes : Option String

pub record UserProfile : Type 0 where
  pub user_id : ℕ
  pub first_name : Option String
  pub last_name : Option String
  pub display_name : Option String
  pub avatar_url : Option String
  pub bio : Option String
  pub birth_date : Option ℕ

-- A value of a JSON column.
mutual
  pub data Json : Type 0 where
    text : String → Json
    flag : Bool → Json
    object : Entries → Json

  pub data Entries : Type 0 where
    end : Entries
    entry : String → Json → Entries → Entries

pub record UserSettings : Type 0 where
  pub user_id : ℕ
  pub preferences : Json

pub record User : Type 0 where
  pub id : Option ℕ
  pub email : String
  pub password_hash : String
  pub username : Option String
  pub auth_provider : String
  pub external_id : Option String
  pub status : String
  pub profile : Option UserProfile
  pub settings : Option UserSettings
  pub security : Option UserSecurity
  pub tenant_id : Option ℕ

pub record UserModel : Type 0 where
  pub id : ℕ
  pub email : String
  pub username : Option String
  pub password_hash : String
  pub auth_provider : String
  pub external_id : Option String
  pub status : String
  pub tenant_id : ℕ

-- A row of `user_profiles`, `user_settings` or `user_security`: the entity's fields, and the tenant.
pub record UserProfileModel : Type 0 where
  pub fields : UserProfile
  pub tenant_id : ℕ

pub record UserSettingsModel : Type 0 where
  pub fields : UserSettings
  pub tenant_id : ℕ

pub record UserSecurityModel : Type 0 where
  pub fields : UserSecurity
  pub tenant_id : ℕ

pub record UserDb : Type 0 where
  pub users : List UserModel
  pub profiles : List UserProfileModel
  pub settings : List UserSettingsModel
  pub security : List UserSecurityModel
  pub next_id : ℕ

-- The rows of one user; the index of the user ids is unique.
abbrev pub rows_of : ℕ → List UserSecurityModel → List UserSecurityModel
rows_of user_id = filter (λ m. m.fields.user_id == user_id)

abbrev pub first_fields : List UserSecurityModel → Option UserSecurity
first_fields [] = none
first_fields (m ∷ rest) = some m.fields

abbrev pub profile_of : ℕ → List UserProfileModel → Option UserProfile
profile_of user_id [] = none
profile_of user_id (m ∷ rest) =
    let found = profile_of user_id rest in
    if m.fields.user_id == user_id then some m.fields else found

abbrev pub settings_of : ℕ → List UserSettingsModel → Option UserSettings
settings_of user_id [] = none
settings_of user_id (m ∷ rest) =
    let found = settings_of user_id rest in
    if m.fields.user_id == user_id then some m.fields else found

-- `_map_to_entity`: without the related records
abbrev pub map_to_entity : UserModel → User
map_to_entity m = record {
  id = some m.id;
  email = m.email;
  password_hash = m.password_hash;
  username = m.username;
  auth_provider = m.auth_provider;
  external_id = m.external_id;
  status = m.status;
  profile = none;
  settings = none;
  security = none;
  tenant_id = none;
}

-- `_map_to_entity_with_relations`
abbrev pub map_to_entity_with_relations : UserDb → UserModel → User
map_to_entity_with_relations db m = record (map_to_entity m) {
  profile = profile_of m.id db.profiles;
  settings = settings_of m.id db.settings;
  security = first_fields (rows_of m.id db.security);
}

abbrev pub map_option : {A B : Type 0} → (A → B) → Option A → Option B
map_option f none = none
map_option f (some a) = some (f a)

abbrev pub overwrite_security : UserSecurity → UserSecurityModel → UserSecurityModel
overwrite_security security m =
    if m.fields.user_id == security.user_id then record m { fields = security } else m

module _ (tenant_id : Option ℕ) where
  unfoldable pub get_by_email : String → Query UserDb (Option User)
  get_by_email email = do
    models ←
        gets (λ db. filter (λ m. str_eq m.email email && in_tenant tenant_id m.tenant_id) db.users)
    model ← from_result (scalar_one_or_none models)
    pure (map_option map_to_entity model)

  -- `get_by_id`; a user that is not saved has no id, and nothing equals NULL
  unfoldable pub get_by_id : Option ℕ → Query UserDb (Option User)
  get_by_id user_id = do
    models ←
        gets (λ db. filter (λ m. has_id user_id m.id && in_tenant tenant_id m.tenant_id) db.users)
    model ← from_result (scalar_one_or_none models)
    pure (map_option map_to_entity model)

  unfoldable pub get_by_id_with_relations : ℕ → Query UserDb (Option User)
  get_by_id_with_relations user_id = do
    models ← gets (λ db. filter (λ m. m.id == user_id && in_tenant tenant_id m.tenant_id) db.users)
    model ← from_result (scalar_one_or_none models)
    gets (λ db. map_option (map_to_entity_with_relations db) model)

  abbrev write_security : UserSecurity → Option UserSecurityModel → Query UserDb (Unit {0})
  write_security security (some model) =
      modify (λ db. record db { security = map (overwrite_security security) db.security })
  write_security security none = do
    tenant ← from_result (tenant_column tenant_id)
    modify (λ db. record db {
      security = db.security ++ record { fields = security; tenant_id = tenant } ∷ [];
    })

  unfoldable pub save_security : UserSecurity → Query UserDb (Unit {0})
  save_security security = do
    models ← gets (λ db. rows_of security.user_id db.security)
    existing ← from_result (scalar_one_or_none models)
    write_security security existing
