-- ===== src/Authorization/Roles.antt =====
-- The roles, and who has them, of
-- src/modules/authorization/infrastructure/repositories/casbin_policy_repository.py.
use python_codebase.Prelude.{
  ℕ, suc, String, Bool, true, false, not, ◌&&◌, Option, none, some, List, [], ◌∷◌, ◌++◌, map,
  filter, any, ◌==◌, str_eq, if◌then◌else◌,
}
use python_codebase.Result.{Result, ok, scalar_one_or_none, value_error, integrity_error}
use python_codebase.State.{pure, from_result, gets, modify, raise_if, or_raise, ◌>>=◌, ◌>>◌}
use python_codebase.Session.{Query}
use python_codebase.Sql.{in_tenant, tenant_column}
use python_codebase.Pagination.{Cursor, get_page}
use python_codebase.Authorization.{same_description, Role, RoleModel, AuthorizationDb}
use python_codebase.Authorization.Policies.{
  add_policy, rename_role_policies, delete_role_rules, found,
}
use Prim.Native.String.{◌++◌ as append}

-- `_role_from_model`
abbrev pub role_from_model : RoleModel → Role
role_from_model m = record {
  id = some m.id;
  name = m.name;
  description = m.description;
  created_at = some m.created_at;
}

abbrev role_from_model? : Option RoleModel → Option Role
role_from_model? none = none
role_from_model? (some m) = some (role_from_model m)

-- The rows of one role, as `update_role` writes them.
abbrev pub write_role : ℕ → Role → RoleModel → RoleModel
write_role k role m =
    if m.id == k then record m { name = role.name; description = role.description } else m

module _ (tenant_id : Option ℕ) where
  -- The row of `get_role`
  unfoldable pub get_role_model : ℕ → Query AuthorizationDb (Option RoleModel)
  get_role_model role_id = do
    models ← gets (λ db. filter (λ m. m.id == role_id && in_tenant tenant_id m.tenant_id) db.roles)
    from_result (scalar_one_or_none models)

  unfoldable pub get_role : ℕ → Query AuthorizationDb (Option Role)
  get_role role_id = do model ← get_role_model role_id; pure (role_from_model? model)

  -- `_get_role_by_name`
  unfoldable pub get_role_by_name : String → Query AuthorizationDb (Option RoleModel)
  get_role_by_name name = do
    models ←
        gets (λ db. filter (λ m. str_eq m.name name && in_tenant tenant_id m.tenant_id) db.roles)
    from_result (scalar_one_or_none models)

  unfoldable pub list_roles : Query AuthorizationDb (List Role)
  list_roles =
      gets (λ db. map role_from_model (filter (λ m. in_tenant tenant_id m.tenant_id) db.roles))

  unfoldable pub list_roles_cursor : Cursor → ℕ → Query AuthorizationDb (List Role × Bool)
  list_roles_cursor cursor limit = do
    page ← gets (λ db.
        get_page (λ m. m.created_at) (λ m. m.id) cursor limit
          (filter (λ m. in_tenant tenant_id m.tenant_id) db.roles))
    pure (map role_from_model page.0, page.1)

  -- The name is unique in the whole table, whatever the tenant.
  unfoldable pub create_role : Role → Query AuthorizationDb Role
  create_role role = do
    tenant ← from_result (tenant_column tenant_id)
    taken ← gets (λ db. any (λ m. str_eq m.name role.name) db.roles)
    raise_if taken integrity_error
    id ← gets (λ db. db.next_role_id)
    now ← gets (λ db. db.now)
    modify (λ db. record db {
      roles =
          db.roles
          ++ record {
            id = id;
            name = role.name;
            description = role.description;
            tenant_id = tenant;
            created_at = now;
          }
            ∷ [];
      next_role_id = suc id;
    })
    pure (record {
      id = some id;
      name = role.name;
      description = role.description;
      created_at = some now;
    })

  abbrev rename_policies : Bool → String → String → Query AuthorizationDb (Unit {0})
  rename_policies true old new = pure tt
  rename_policies false old new = rename_role_policies tenant_id old new

  -- An UPDATE expires `updated_at`, which the answer reads; `expired` is what that read gives.
  abbrev read_back : Result (Unit {0}) → Role → RoleModel → Result (Unit {0})
  read_back expired role model =
      if str_eq model.name role.name && same_description model.description role.description
      then ok tt
      else expired

  abbrev write_model :
      Result (Unit {0}) → Role → Option RoleModel → Query AuthorizationDb (Option Role)
  write_model expired role none = pure none
  write_model expired role (some model) = do
    taken ← gets (λ db. any (λ m. not (m.id == model.id) && str_eq m.name role.name) db.roles)
    raise_if taken integrity_error
    modify (λ db. record db { roles = map (write_role model.id role) db.roles })
    rename_policies (str_eq model.name role.name) model.name role.name
    from_result (read_back expired role model)
    pure
        (some (record (role_from_model model) { name = role.name; description = role.description }))

  abbrev update_by_id : Result (Unit {0}) → Option ℕ → Role → Query AuthorizationDb (Option Role)
  update_by_id expired none role = pure none
  update_by_id expired (some k) role = do model ← get_role_model k; write_model expired role model

  unfoldable pub update_role : Result (Unit {0}) → Role → Query AuthorizationDb (Option Role)
  update_role expired role = update_by_id expired role.id role

  abbrev delete_found : ℕ → Option Role → Query AuthorizationDb (Unit {0})
  delete_found role_id none = pure tt
  delete_found role_id (some role) = do
    modify (λ db. record db {
      role_permissions =
          filter (λ m. not (m.role_id == role_id && in_tenant tenant_id m.tenant_id))
            db.role_permissions;
    })
    modify (λ db. record db {
      user_has_roles =
          filter (λ m. not (m.role_id == role_id && in_tenant tenant_id m.tenant_id))
            db.user_has_roles;
    })
    modify (λ db. record db { roles = filter (λ m. not (m.id == role_id)) db.roles })
    delete_role_rules tenant_id role.name

  unfoldable pub delete_role : ℕ → Query AuthorizationDb (Unit {0})
  delete_role role_id = do role ← get_role role_id; delete_found role_id role

  abbrev link_user : Bool → ℕ → ℕ → Query AuthorizationDb (Unit {0})
  link_user true user_id role_id = pure tt
  link_user false user_id role_id = do
    tenant ← from_result (tenant_column tenant_id)
    taken ← gets (λ db. any (λ m. m.user_id == user_id && m.role_id == role_id) db.user_has_roles)
    raise_if taken integrity_error
    modify (λ db. record db {
      user_has_roles =
          db.user_has_roles
          ++ record { user_id = user_id; role_id = role_id; tenant_id = tenant } ∷ [];
    })

  -- `to_int` is Python's `int(subject)`, with none for its ValueError.
  unfoldable pub assign_role :
      (String → Option ℕ) → String → String → Query AuthorizationDb (Unit {0})
  assign_role to_int subject role = do
    model ← get_role_by_name role
    role_model ← or_raise model (value_error (append "Role does not exist: " role))
    user_id ← or_raise (to_int subject) (value_error "invalid literal for int() with base 10")
    links ← gets (λ db.
        filter
          (λ m.
            m.user_id == user_id && m.role_id == role_model.id && in_tenant tenant_id m.tenant_id)
          db.user_has_roles)
    existing ← from_result (scalar_one_or_none links)
    link_user (found existing) user_id role_model.id
    add_policy tenant_id "g" (subject ∷ role ∷ [])
