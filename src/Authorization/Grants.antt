-- ===== src/Authorization/Grants.antt =====
-- The permissions of the roles, of
-- src/modules/authorization/infrastructure/repositories/casbin_policy_repository.py.
use python_codebase.Prelude.{
  ℕ, Bool, true, false, not, ◌&&◌, Option, some, [], ◌∷◌, ◌++◌, filter, any, ◌==◌,
}
use python_codebase.Result.{scalar_one_or_none, value_error, integrity_error}
use python_codebase.State.{pure, from_result, gets, modify, raise_if, or_raise, ◌>>=◌, ◌>>◌}
use python_codebase.Session.{Query}
use python_codebase.Sql.{in_tenant, tenant_column}
use python_codebase.Authorization.{Role, Permission, RolePermissionModel, AuthorizationDb}
use python_codebase.Authorization.Policies.{add_policy, remove_policy, found}
use python_codebase.Authorization.Roles.{get_role}
use python_codebase.Authorization.Permissions.{get_permission}

module _ (tenant_id : Option ℕ) where
  abbrev pub is_link : ℕ → ℕ → RolePermissionModel → Bool
  is_link role_id permission_id m =
      m.role_id == role_id && m.permission_id == permission_id && in_tenant tenant_id m.tenant_id

  abbrev link : Bool → ℕ → ℕ → Query AuthorizationDb (Unit {0})
  link true role_id permission_id = pure tt
  link false role_id permission_id = do
    tenant ← from_result (tenant_column tenant_id)
    taken ← gets (λ db.
        any (λ m. m.role_id == role_id && m.permission_id == permission_id) db.role_permissions)
    raise_if taken integrity_error
    modify (λ db. record db {
      role_permissions =
          db.role_permissions
          ++ record { role_id = role_id; permission_id = permission_id; tenant_id = tenant } ∷ [];
    })

  unfoldable pub assign_permission_to_role : ℕ → ℕ → Query AuthorizationDb (Unit {0})
  assign_permission_to_role role_id permission_id = do
    found_role ← get_role tenant_id role_id
    found_permission ← get_permission tenant_id permission_id
    role ← or_raise found_role (value_error "Role does not exist")
    permission ← or_raise found_permission (value_error "Permission does not exist")
    links ← gets (λ db. filter (is_link role_id permission_id) db.role_permissions)
    existing ← from_result (scalar_one_or_none links)
    link (found existing) role_id permission_id
    add_policy tenant_id "p" (role.name ∷ permission.key ∷ [])

  abbrev unlink : ℕ → ℕ → Option Role → Option Permission → Query AuthorizationDb (Unit {0})
  unlink role_id permission_id (some role) (some permission) = do
    modify (λ db. record db {
      role_permissions = filter (λ m. not (is_link role_id permission_id m)) db.role_permissions;
    })
    remove_policy tenant_id "p" (role.name ∷ permission.key ∷ [])
  unlink role_id permission_id _ _ = pure tt

  unfoldable pub remove_permission_from_role : ℕ → ℕ → Query AuthorizationDb (Unit {0})
  remove_permission_from_role role_id permission_id = do
    role ← get_role tenant_id role_id
    permission ← get_permission tenant_id permission_id
    unlink role_id permission_id role permission
