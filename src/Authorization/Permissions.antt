-- ===== src/Authorization/Permissions.antt =====
-- The permissions and their resources, of
-- src/modules/authorization/infrastructure/repositories/casbin_policy_repository.py.
use Prim.Native.String.{◌++◌ as append}
use python_codebase.Prelude.{
  ℕ, suc, String, Bool, true, false, not, ◌&&◌, ◌||◌, Option, none, some, List, [], ◌∷◌, ◌++◌, map,
  filter, any, ◌==◌, str_eq, if◌then◌else◌,
}
use python_codebase.Result.{Result, ok, scalar_one_or_none, integrity_error}
use python_codebase.State.{pure, from_result, gets, modify, raise_if, ◌>>=◌, ◌>>◌}
use python_codebase.Session.{Query}
use python_codebase.Sql.{in_tenant, tenant_column}
use python_codebase.Pagination.{Cursor, get_page}
use python_codebase.Authorization.{
  same_description, Permission, PermissionModel, ResourceModel, AuthorizationDb,
}
use python_codebase.Authorization.Policies.{rename_permission_policies, delete_permission_rules}

-- `permission_key` (src/modules/authorization/domain/permissions.py)
abbrev pub permission_key : String → String → String
permission_key resource action = append resource (append ":" action)

-- `_permission_from_model`
abbrev pub permission_from_model : PermissionModel → Permission
permission_from_model m = record {
  id = some m.id;
  key = m.key;
  resource = m.resource;
  action = m.action;
  description = m.description;
  created_at = some m.created_at;
}

abbrev permission_from_model? : Option PermissionModel → Option Permission
permission_from_model? none = none
permission_from_model? (some m) = some (permission_from_model m)

-- The rows of one permission, as `update_permission` writes them.
abbrev pub write_permission : ℕ → ℕ → Permission → PermissionModel → PermissionModel
write_permission k resource_id permission m =
    if m.id == k
    then record m {
      key = permission.key;
      resource_id = resource_id;
      resource = permission.resource;
      action = permission.action;
      description = permission.description;
    }
    else m

module _ (tenant_id : Option ℕ) where
  -- The row of `get_permission`
  unfoldable pub get_permission_model : ℕ → Query AuthorizationDb (Option PermissionModel)
  get_permission_model permission_id = do
    models ← gets (λ db.
        filter (λ m. m.id == permission_id && in_tenant tenant_id m.tenant_id) db.permissions)
    from_result (scalar_one_or_none models)

  unfoldable pub get_permission : ℕ → Query AuthorizationDb (Option Permission)
  get_permission permission_id = do
    model ← get_permission_model permission_id
    pure (permission_from_model? model)

  unfoldable pub list_permissions : Query AuthorizationDb (List Permission)
  list_permissions = gets (λ db.
      map permission_from_model (filter (λ m. in_tenant tenant_id m.tenant_id) db.permissions))

  unfoldable pub list_permissions_cursor :
      Cursor → ℕ → Query AuthorizationDb (List Permission × Bool)
  list_permissions_cursor cursor limit = do
    page ← gets (λ db.
        get_page (λ m. m.created_at) (λ m. m.id) cursor limit
          (filter (λ m. in_tenant tenant_id m.tenant_id) db.permissions))
    pure (map permission_from_model page.0, page.1)

  abbrev delete_found : ℕ → Option Permission → Query AuthorizationDb (Unit {0})
  delete_found permission_id none = pure tt
  delete_found permission_id (some permission) = do
    modify (λ db. record db {
      role_permissions =
          filter (λ m. not (m.permission_id == permission_id && in_tenant tenant_id m.tenant_id))
            db.role_permissions;
    })
    modify
        (λ db. record db { permissions = filter (λ m. not (m.id == permission_id)) db.permissions })
    delete_permission_rules tenant_id permission.key

  unfoldable pub delete_permission : ℕ → Query AuthorizationDb (Unit {0})
  delete_permission permission_id = do
    permission ← get_permission permission_id
    delete_found permission_id permission

-- `title` is Python's `key.replace("_", " ").title()`.
module _ (tenant_id : Option ℕ) (title : String → String) where
  abbrev or_create : String → Option ResourceModel → Query AuthorizationDb ℕ
  or_create key (some model) = pure model.id
  or_create key none = do
    tenant ← from_result (tenant_column tenant_id)
    taken ← gets (λ db. any (λ m. str_eq m.key key) db.resources)
    raise_if taken integrity_error
    id ← gets (λ db. db.next_resource_id)
    modify (λ db. record db {
      resources =
          db.resources
          ++ record {
            id = id;
            key = key;
            name = title key;
            description = some (append key " resources");
            tenant_id = tenant;
          }
            ∷ [];
      next_resource_id = suc id;
    })
    pure id

  -- `_get_or_create_resource`, of which the callers use the id
  unfoldable pub get_or_create_resource : String → Query AuthorizationDb ℕ
  get_or_create_resource key = do
    models ←
        gets (λ db. filter (λ m. str_eq m.key key && in_tenant tenant_id m.tenant_id) db.resources)
    model ← from_result (scalar_one_or_none models)
    or_create key model

  -- The key is unique, and so is the resource with the action, whatever the tenant.
  abbrev clashes : Permission → PermissionModel → Bool
  clashes p m = str_eq m.key p.key || (str_eq m.resource p.resource && str_eq m.action p.action)

  unfoldable pub create_permission : Permission → Query AuthorizationDb Permission
  create_permission permission = do
    resource_id ← get_or_create_resource permission.resource
    tenant ← from_result (tenant_column tenant_id)
    taken ← gets (λ db. any (clashes permission) db.permissions)
    raise_if taken integrity_error
    id ← gets (λ db. db.next_permission_id)
    now ← gets (λ db. db.now)
    modify (λ db. record db {
      permissions =
          db.permissions
          ++ record {
            id = id;
            key = permission.key;
            resource_id = resource_id;
            resource = permission.resource;
            action = permission.action;
            description = permission.description;
            tenant_id = tenant;
            created_at = now;
          }
            ∷ [];
      next_permission_id = suc id;
    })
    pure (record permission { id = some id; created_at = some now })

  abbrev rename_policies : Bool → String → String → Query AuthorizationDb (Unit {0})
  rename_policies true old new = pure tt
  rename_policies false old new = rename_permission_policies tenant_id old new

  -- An UPDATE expires `updated_at`, which the answer reads; `expired` is what that read gives.
  abbrev read_back : Result (Unit {0}) → ℕ → Permission → PermissionModel → Result (Unit {0})
  read_back expired resource_id permission model =
      if str_eq model.key permission.key
        && model.resource_id == resource_id
        && str_eq model.resource permission.resource
        && str_eq model.action permission.action
        && same_description model.description permission.description
      then ok tt
      else expired

  abbrev write_model :
      Result (Unit {0})
      → Permission
      → Option PermissionModel
      → Query AuthorizationDb (Option Permission)
  write_model expired permission none = pure none
  write_model expired permission (some model) = do
    resource_id ← get_or_create_resource permission.resource
    taken ← gets (λ db. any (λ m. not (m.id == model.id) && clashes permission m) db.permissions)
    raise_if taken integrity_error
    modify (λ db. record db {
      permissions = map (write_permission model.id resource_id permission) db.permissions;
    })
    rename_policies (str_eq model.key permission.key) model.key permission.key
    from_result (read_back expired resource_id permission model)
    pure (some (record permission { id = some model.id; created_at = some model.created_at }))

  abbrev update_by_id :
      Result (Unit {0}) → Option ℕ → Permission → Query AuthorizationDb (Option Permission)
  update_by_id expired none permission = pure none
  update_by_id expired (some k) permission = do
    model ← get_permission_model tenant_id k
    write_model expired permission model

  unfoldable pub update_permission :
      Result (Unit {0}) → Permission → Query AuthorizationDb (Option Permission)
  update_permission expired permission = update_by_id expired permission.id permission
