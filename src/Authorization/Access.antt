-- ===== src/Authorization/Access.antt =====
-- What the authorization service decides:
-- src/modules/authorization/infrastructure/services/casbin_authorization_service.py, with the reads
-- of casbin_policy_repository.py that it needs. Casbin's enforcer is a parameter: the policy lines, a
-- subject and a permission.
use Prim.Native.String.{◌++◌ as append}
use python_codebase.Prelude.{
  ℕ, String, Bool, Option, some, List, [], ◌∷◌, ◌++◌, map, filter, ◌==◌, if◌then◌else◌,
}
use python_codebase.Result.{value_error}
use python_codebase.State.{pure, gets, or_raise, ◌>>=◌}
use python_codebase.Session.{Query}
use python_codebase.Sql.{in_tenant}
use python_codebase.Authorization.{
  RoleModel, ResourceModel, PermissionModel, RolePermissionModel, UserHasRoleModel, CasbinRuleModel,
  AuthorizationDb,
}
use python_codebase.Authorization.Policies.{mine, to_policy_tuple}
use python_codebase.Authorization.Permissions.{permission_key}

-- `", ".join(values)`
abbrev pub join : List String → String
join [] = ""
join (x ∷ []) = x
join (x ∷ y ∷ rest) = let text = join (y ∷ rest) in append x (append ", " text)

-- `_to_policy_line`
unfoldable pub to_policy_line : CasbinRuleModel → String
to_policy_line r = join (to_policy_tuple r)

-- The pairs of an inner join of the roles with the links of one user.
abbrev pub role_names : ℕ → List RoleModel → List UserHasRoleModel → List String
role_names user_id roles [] = []
role_names user_id roles (l ∷ links) =
    let rest = role_names user_id roles links in
    if l.user_id == user_id
    then map (λ (m : RoleModel). m.name) (filter (λ m. m.id == l.role_id) roles) ++ rest
    else rest

-- The keys of the permissions that a link names, beside the name of the role.
abbrev keys_of : String → ℕ → List PermissionModel → List (String × String)
keys_of name k permissions =
    map (λ (m : PermissionModel). (name, m.key)) (filter (λ m. m.id == k) permissions)

abbrev pairs_of :
    RolePermissionModel → List PermissionModel → List RoleModel → List (String × String)
pairs_of l permissions [] = []
pairs_of l permissions (m ∷ roles) =
    let rest = pairs_of l permissions roles in
    if m.id == l.role_id then keys_of m.name l.permission_id permissions ++ rest else rest

abbrev pub role_permission_pairs :
    List RoleModel → List PermissionModel → List RolePermissionModel → List (String × String)
role_permission_pairs roles permissions [] = []
role_permission_pairs roles permissions (l ∷ links) =
    let rest = role_permission_pairs roles permissions links in pairs_of l permissions roles ++ rest

-- src/modules/authorization/domain/entities/resource.py
pub record AuthorizationResource : Type 0 where
  pub id : Option ℕ
  pub key : String
  pub name : String
  pub description : Option String

-- `_resource_from_model`
abbrev pub resource_from_model : ResourceModel → AuthorizationResource
resource_from_model m = record {
  id = some m.id;
  key = m.key;
  name = m.name;
  description = m.description;
}

module _ (tenant_id : Option ℕ) where
  unfoldable pub load_policy_lines : Query AuthorizationDb (List String)
  load_policy_lines = gets (λ db. map to_policy_line (filter (mine tenant_id) db.casbin_rules))

  -- `get_roles_for_subject`; `to_int` is Python's `int` of a text. The filter is on the links.
  unfoldable pub get_roles_for_subject :
      (String → Option ℕ) → String → Query AuthorizationDb (List String)
  get_roles_for_subject to_int subject = do
    user_id ← or_raise (to_int subject) (value_error "invalid literal for int() with base 10")
    gets (λ db.
        role_names user_id db.roles
          (filter (λ l. in_tenant tenant_id l.tenant_id) db.user_has_roles))

  unfoldable pub list_role_permissions : Query AuthorizationDb (List (String × String))
  list_role_permissions = gets (λ db.
      role_permission_pairs db.roles db.permissions
        (filter (λ l. in_tenant tenant_id l.tenant_id) db.role_permissions))

  unfoldable pub list_resources : Query AuthorizationDb (List AuthorizationResource)
  list_resources =
      gets
        (λ db. map resource_from_model (filter (λ m. in_tenant tenant_id m.tenant_id) db.resources))

  -- `can`
  unfoldable pub can :
      (List String → String → String → Bool) → String → String → String → Query AuthorizationDb Bool
  can enforce subject resource action = do
    lines ← load_policy_lines
    pure (enforce lines subject (permission_key resource action))
