-- ===== src/Authorization/Handlers.antt =====
-- The use cases of src/modules/authorization/application.
use python_codebase.Result.{Result}
use python_codebase.Prelude.{ℕ, String, Option, none, some, List, get_or}
use python_codebase.State.{pure, ◌>>=◌}
use python_codebase.Session.{Exec, lift, transaction}
use python_codebase.Authorization.{Role, Permission, AuthorizationDb}
use python_codebase.Authorization.Roles.{
  get_role, list_roles, create_role, update_role, delete_role,
}
use python_codebase.Authorization.Permissions.{
  permission_key, get_permission, create_permission, update_permission, delete_permission,
}

pub record UpdateRoleCommand : Type 0 where
  pub role_id : ℕ
  pub name : Option String
  pub description : Option String

pub record UpdatePermissionCommand : Type 0 where
  pub permission_id : ℕ
  pub resource : Option String
  pub action : Option String
  pub description : Option String

abbrev pub or_existing : Option String → Option String → Option String
or_existing none existing = existing
or_existing (some new) existing = some new

-- The role that `UpdateRoleHandler` writes.
abbrev pub changed_role : UpdateRoleCommand → Role → Role
changed_role command existing = record {
  id = some command.role_id;
  name = get_or command.name existing.name;
  description = or_existing command.description existing.description;
  created_at = none;
}

-- The permission that `UpdatePermissionHandler` writes.
abbrev pub changed_permission : UpdatePermissionCommand → Permission → Permission
changed_permission command existing =
    let resource = get_or command.resource existing.resource in
    let action = get_or command.action existing.action in
    record {
      id = some command.permission_id;
      key = permission_key resource action;
      resource = resource;
      action = action;
      description = or_existing command.description existing.description;
      created_at = none;
    }

module _ (tenant_id : Option ℕ) where
  -- `CreateRoleHandler.execute`
  unfoldable pub handle_create_role : String → Option String → Exec AuthorizationDb Role
  handle_create_role name description = transaction (
      create_role tenant_id
        (record { id = none; name = name; description = description; created_at = none }))

  abbrev update_existing_role :
      Result (Unit {0}) → UpdateRoleCommand → Option Role → Exec AuthorizationDb (Option Role)
  update_existing_role expired command none = pure none
  update_existing_role expired command (some existing) =
      transaction (update_role tenant_id expired (changed_role command existing))

  -- `UpdateRoleHandler.execute`
  unfoldable pub handle_update_role :
      Result (Unit {0}) → UpdateRoleCommand → Exec AuthorizationDb (Option Role)
  handle_update_role expired command = do
    existing ← lift (get_role tenant_id command.role_id)
    update_existing_role expired command existing

  -- `DeleteRoleHandler.execute`
  unfoldable pub handle_delete_role : ℕ → Exec AuthorizationDb (Unit {0})
  handle_delete_role role_id = transaction (delete_role tenant_id role_id)

  -- `GetRoleQueryHandler.execute`
  unfoldable pub handle_get_role : ℕ → Exec AuthorizationDb (Option Role)
  handle_get_role role_id = lift (get_role tenant_id role_id)

  -- `ListRolesQueryHandler.execute`
  unfoldable pub handle_list_roles : Exec AuthorizationDb (List Role)
  handle_list_roles = lift (list_roles tenant_id)

  abbrev update_existing_permission :
      Result (Unit {0})
      → (String → String)
      → UpdatePermissionCommand
      → Option Permission
      → Exec AuthorizationDb (Option Permission)
  update_existing_permission expired title command none = pure none
  update_existing_permission expired title command (some existing) =
      transaction (update_permission tenant_id title expired (changed_permission command existing))

  -- `UpdatePermissionHandler.execute`; `title` is the text of a new resource's name.
  unfoldable pub handle_update_permission :
      Result (Unit {0})
      → (String → String)
      → UpdatePermissionCommand
      → Exec AuthorizationDb (Option Permission)
  handle_update_permission expired title command = do
    existing ← lift (get_permission tenant_id command.permission_id)
    update_existing_permission expired title command existing

  -- `CreatePermissionHandler.execute`
  unfoldable pub handle_create_permission :
      (String → String) → String → String → Option String → Exec AuthorizationDb Permission
  handle_create_permission title resource action description = transaction (
      create_permission tenant_id title (record {
        id = none;
        key = permission_key resource action;
        resource = resource;
        action = action;
        description = description;
        created_at = none;
      }))

  -- `DeletePermissionHandler.execute`
  unfoldable pub handle_delete_permission : ℕ → Exec AuthorizationDb (Unit {0})
  handle_delete_permission permission_id = transaction (delete_permission tenant_id permission_id)

  -- `GetPermissionQueryHandler.execute`
  unfoldable pub handle_get_permission : ℕ → Exec AuthorizationDb (Option Permission)
  handle_get_permission permission_id = lift (get_permission tenant_id permission_id)
