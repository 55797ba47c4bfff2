-- ===== src/Authorization/Defaults.antt =====
-- The defaults of the seed: src/modules/authorization/domain/permissions.py.
use python_codebase.Prelude.{String, not, ◌&&◌, none, some, List, [], ◌∷◌, filter, str_eq}
use python_codebase.Authorization.{Role}
use python_codebase.Authorization.Access.{AuthorizationResource}
use python_codebase.Authorization.Permissions.{permission_key}

-- `DEFAULT_RESOURCES`, `DEFAULT_ROLES` and `DEFAULT_POLICIES`
abbrev resource : String → String → String → AuthorizationResource
resource key name description = record {
  id = none;
  key = key;
  name = name;
  description = some description;
}

abbrev pub default_resources : List AuthorizationResource
default_resources =
    resource "todo" "Todo" "Todo task resources"
    ∷ resource "user" "User" "User account resources"
    ∷ resource "role" "Role" "Authorization role resources"
    ∷ resource "permission" "Permission" "Authorization permission resources"
    ∷ []

abbrev role : String → String → Role
role name description = record {
  id = none;
  name = name;
  description = some description;
  created_at = none;
}

abbrev pub default_roles : List Role
default_roles =
    role "admin" "Administrator with full platform access"
    ∷ role "user" "Default authenticated user"
    ∷ role "manager" "Manager user with todo management access"
    ∷ role "viewer" "Read-only user"
    ∷ []

pub record DefaultPolicy : Type 0 where
  pub ptype : String
  pub role_name : String
  pub permission : String

abbrev grant : String → String → DefaultPolicy
grant name key = record { ptype = "p"; role_name = name; permission = key }

abbrev pub default_policies : List DefaultPolicy
default_policies =
    grant "admin" "*"
    ∷ grant "user" (permission_key "todo" "create")
    ∷ grant "user" (permission_key "todo" "read")
    ∷ grant "user" (permission_key "todo" "update")
    ∷ grant "user" (permission_key "todo" "delete")
    ∷ grant "user" (permission_key "user" "me")
    ∷ grant "manager" (permission_key "todo" "create")
    ∷ grant "manager" (permission_key "todo" "read")
    ∷ grant "manager" (permission_key "todo" "update")
    ∷ grant "manager" (permission_key "todo" "delete")
    ∷ grant "manager" (permission_key "user" "me")
    ∷ grant "viewer" (permission_key "todo" "read")
    ∷ grant "viewer" (permission_key "user" "me")
    ∷ []

-- `_permission_policies`
abbrev pub permission_policies : List DefaultPolicy
permission_policies =
    filter (λ p. str_eq p.ptype "p" && not (str_eq p.permission "*")) default_policies
