-- ===== src/Authorization.antt =====
-- The authorization module's entities and tables (src/modules/authorization/domain/entities and
-- src/modules/authorization/infrastructure/models). Time stamps are numbers, not ISO texts.
mod Tests
pub mod Policies
pub mod Roles
pub mod Permissions
pub mod Grants
pub mod Handlers
pub mod Rules
pub mod Renaming
pub mod Adding
pub mod Committed
pub mod Access
pub mod Deciding
pub mod Defaults
pub mod Seeding
use python_codebase.Prelude.{Bool, true, false, str_eq, ℕ, String, Option, none, some, List}

pub record Role : Type 0 where
  pub id : Option ℕ
  pub name : String
  pub description : Option String
  pub created_at : Option ℕ

pub record Permission : Type 0 where
  pub id : Option ℕ
  pub key : String
  pub resource : String
  pub action : String
  pub description : Option String
  pub created_at : Option ℕ

pub record RoleModel : Type 0 where
  pub id : ℕ
  pub name : String
  pub description : Option String
  pub tenant_id : ℕ
  pub created_at : ℕ

pub record ResourceModel : Type 0 where
  pub id : ℕ
  pub key : String
  pub name : String
  pub description : Option String
  pub tenant_id : ℕ

pub record PermissionModel : Type 0 where
  pub id : ℕ
  pub key : String
  pub resource_id : ℕ
  pub resource : String
  pub action : String
  pub description : Option String
  pub tenant_id : ℕ
  pub created_at : ℕ

pub record RolePermissionModel : Type 0 where
  pub role_id : ℕ
  pub permission_id : ℕ
  pub tenant_id : ℕ

pub record UserHasRoleModel : Type 0 where
  pub user_id : ℕ
  pub role_id : ℕ
  pub tenant_id : ℕ

pub record CasbinRuleModel : Type 0 where
  pub ptype : String
  pub v0 : Option String
  pub v1 : Option String
  pub v2 : Option String
  pub v3 : Option String
  pub v4 : Option String
  pub v5 : Option String
  pub tenant_id : ℕ

-- The tables, their key sequences and the server's clock.
pub record AuthorizationDb : Type 0 where
  pub roles : List RoleModel
  pub resources : List ResourceModel
  pub permissions : List PermissionModel
  pub role_permissions : List RolePermissionModel
  pub user_has_roles : List UserHasRoleModel
  pub casbin_rules : List CasbinRuleModel
  pub next_role_id : ℕ
  pub next_resource_id : ℕ
  pub next_permission_id : ℕ
  pub now : ℕ

-- Does an assignment leave a nullable text as it was?
abbrev pub same_description : Option String → Option String → Bool
same_description none none = true
same_description none (some b) = false
same_description (some a) none = false
same_description (some a) (some b) = str_eq a b
