-- ===== src/Users/Saving.antt =====
-- `save`, `save_profile` and `save_settings` of
-- src/modules/user/infrastructure/repositories/user_repository.py.
use python_codebase.Prelude.{
  ℕ, suc, String, Bool, true, false, not, ◌&&◌, ◌||◌, Option, none, some, List, [], ◌∷◌, ◌++◌, map,
  filter, any, ◌==◌, str_eq, has_id, is_truthy, get_or, if◌then◌else◌,
}
use python_codebase.Result.{
  Result, ok, err, scalar_one_or_none, integrity_error, no_result_found, multiple_results,
}
use python_codebase.State.{pure, from_result, gets, modify, raise_if, ◌>>=◌, ◌>>◌}
use python_codebase.Session.{Query}
use python_codebase.Sql.{in_tenant, tenant_column}
use python_codebase.Users.{
  User, UserModel, UserProfile, UserProfileModel, UserSettings, UserSettingsModel, UserSecurity,
  UserDb, Json, text, flag, object, end, entry, map_to_entity, get_by_id,
}

-- `User.create`
unfoldable pub new_user : String → String → Option String → String → User
new_user email password_hash username auth_provider = record {
  id = none;
  email = email;
  password_hash = password_hash;
  username = username;
  auth_provider = auth_provider;
  external_id = none;
  status = "pending_verification";
  profile = none;
  settings = none;
  security = none;
  tenant_id = none;
}

-- The default records of `_create_default_related_records`.
abbrev pub default_profile : ℕ → UserProfile
default_profile user_id = record {
  user_id = user_id;
  first_name = none;
  last_name = none;
  display_name = none;
  avatar_url = none;
  bio = none;
  birth_date = none;
}

abbrev pub default_preferences : Json
default_preferences = object (
    entry "language" (text "en") (
      entry "timezone" (text "UTC") (
        entry "theme" (text "light") (
          entry "notifications" (object (entry "email" (flag true) (entry "push" (flag false) end)))
            end))))

abbrev pub default_settings : ℕ → UserSettings
default_settings user_id = record { user_id = user_id; preferences = default_preferences }

abbrev pub default_security : ℕ → UserSecurity
default_security user_id = record {
  user_id = user_id;
  failed_login_attempts = 0;
  locked_until = none;
  password_changed_at = none;
  two_factor_enabled = false;
  two_factor_secret = none;
  two_factor_backup_codes = none;
}

-- Are two values of a unique column that may be NULL the same?
abbrev pub same_text : Option String → Option String → Bool
same_text none b = false
same_text (some a) none = false
same_text (some a) (some b) = str_eq a b

-- Does a row have the email or the username of a user? Both indexes are unique.
abbrev pub clashes : User → UserModel → Bool
clashes user m = str_eq m.email user.email || same_text m.username user.username

-- The attributes that `save` sets on a row.
abbrev pub overwrite_user : User → ℕ → UserModel → UserModel
overwrite_user user k m =
    if m.id == k
    then record m {
      email = user.email;
      username = user.username;
      password_hash = user.password_hash;
      auth_provider = user.auth_provider;
      status = user.status;
      external_id = user.external_id;
    }
    else m

abbrev pub new_row : User → ℕ → ℕ → UserModel
new_row user tenant k = record {
  id = k;
  email = user.email;
  username = user.username;
  password_hash = user.password_hash;
  auth_provider = user.auth_provider;
  external_id = user.external_id;
  status = user.status;
  tenant_id = tenant;
}

-- The key of a new row: the given one, or the next of the sequence, which only then moves.
abbrev pub key_after : Option ℕ → ℕ → ℕ
key_after none next = suc next
key_after (some k) next = next

-- `scalar_one`
abbrev pub scalar_one : List UserModel → Result UserModel
scalar_one [] = err no_result_found
scalar_one (x ∷ []) = ok x
scalar_one (x ∷ y ∷ rest) = err multiple_results

module _ (tenant_id : Option ℕ) where
  -- `self._tenant_id or user.tenant_id`
  abbrev pub tenant_or : Option ℕ → Option ℕ
  tenant_or other = if is_truthy tenant_id then tenant_id else other

  unfoldable pub get_user_model : Option ℕ → Query UserDb UserModel
  get_user_model user_id = do
    models ←
        gets (λ db. filter (λ m. has_id user_id m.id && in_tenant tenant_id m.tenant_id) db.users)
    from_result (scalar_one models)

  -- `_create_default_related_records`, and the flush; the three indexes are unique.
  unfoldable pub create_default_related_records : ℕ → Query UserDb (Unit {0})
  create_default_related_records user_id = do
    tenant ← from_result (tenant_column tenant_id)
    taken ← gets (λ db.
        any (λ m. m.fields.user_id == user_id) db.profiles
        || any (λ m. m.fields.user_id == user_id) db.settings
        || any (λ m. m.fields.user_id == user_id) db.security)
    raise_if taken integrity_error
    modify (λ db. record db {
      profiles =
          db.profiles ++ record { fields = default_profile user_id; tenant_id = tenant } ∷ [];
      settings =
          db.settings ++ record { fields = default_settings user_id; tenant_id = tenant } ∷ [];
      security =
          db.security ++ record { fields = default_security user_id; tenant_id = tenant } ∷ [];
    })

  unfoldable pub insert_user : User → Query UserDb UserModel
  insert_user user = do
    tenant ← from_result (tenant_column (tenant_or user.tenant_id))
    key ← gets (λ db. get_or user.id db.next_id)
    taken ← gets (λ db. any (λ m. m.id == key || clashes user m) db.users)
    raise_if taken integrity_error
    modify (λ db. record db {
      users = db.users ++ new_row user tenant key ∷ [];
      next_id = key_after user.id db.next_id;
    })
    create_default_related_records key
    pure (new_row user tenant key)

  unfoldable pub update_user : User → Query UserDb UserModel
  update_user user = do
    model ← get_user_model user.id
    taken ← gets (λ db. any (λ m. not (m.id == model.id) && clashes user m) db.users)
    raise_if taken integrity_error
    modify (λ db. record db { users = map (overwrite_user user model.id) db.users })
    pure (overwrite_user user model.id model)

  abbrev write_user : User → Option User → Query UserDb UserModel
  write_user user (some existing) = update_user user
  write_user user none = insert_user user

  unfoldable pub save : User → Query UserDb User
  save user = do
    existing ← get_by_id tenant_id user.id
    model ← write_user user existing
    pure (map_to_entity model)

  abbrev write_profile : UserProfile → Option UserProfileModel → Query UserDb (Unit {0})
  write_profile profile (some model) = modify (λ db. record db {
    profiles =
        map (λ m. if m.fields.user_id == profile.user_id then record m { fields = profile } else m)
          db.profiles;
  })
  write_profile profile none = do
    tenant ← from_result (tenant_column tenant_id)
    modify (λ db. record db {
      profiles = db.profiles ++ record { fields = profile; tenant_id = tenant } ∷ [];
    })

  unfoldable pub save_profile : UserProfile → Query UserDb UserProfile
  save_profile profile = do
    models ← gets (λ db. filter (λ m. m.fields.user_id == profile.user_id) db.profiles)
    existing ← from_result (scalar_one_or_none models)
    write_profile profile existing
    pure profile

  abbrev write_settings : UserSettings → Option UserSettingsModel → Query UserDb (Unit {0})
  write_settings settings (some model) = modify (λ db. record db {
    settings =
        map
          (λ m. if m.fields.user_id == settings.user_id then record m { fields = settings } else m)
          db.settings;
  })
  write_settings settings none = do
    tenant ← from_result (tenant_column tenant_id)
    modify (λ db. record db {
      settings = db.settings ++ record { fields = settings; tenant_id = tenant } ∷ [];
    })

  unfoldable pub save_settings : UserSettings → Query UserDb UserSettings
  save_settings settings = do
    models ← gets (λ db. filter (λ m. m.fields.user_id == settings.user_id) db.settings)
    existing ← from_result (scalar_one_or_none models)
    write_settings settings existing
    pure settings
