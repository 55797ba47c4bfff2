-- ===== src/Authorization/Seeding.antt =====
-- The seed of the authorization tables: src/core/seed/authorization.py. A dictionary is a list of
-- pairs, the newest first.
use Prim.Native.Char.{Char, code}
use Prim.Native.String.{◌++◌ as append}
use mathlib.Core.List.{reverse}
use python_codebase.Prelude.{
  ℕ, suc, String, Bool, true, false, ◌&&◌, ◌||◌, Option, none, some, List, [], ◌∷◌, ◌++◌, map, any,
  ◌==◌, str_eq, is_one_of, if◌then◌else◌,
}
use python_codebase.Result.{value_error, key_error, integrity_error}
use python_codebase.State.{pure, from_result, gets, modify, raise_if, or_raise, ◌>>=◌, ◌>>◌}
use python_codebase.Session.{Query}
use python_codebase.Sql.{tenant_column}
use python_codebase.Authorization.{Role, Permission, ResourceModel, AuthorizationDb}
use python_codebase.Authorization.Policies.{add_policy, list_policies}
use python_codebase.Authorization.Roles.{create_role, list_roles}
use python_codebase.Authorization.Permissions.{create_permission, list_permissions}
use python_codebase.Authorization.Grants.{assign_permission_to_role}
use python_codebase.Authorization.Access.{
  AuthorizationResource, list_resources, list_role_permissions,
}
use python_codebase.Authorization.Defaults.{
  DefaultPolicy, default_resources, default_roles, default_policies, permission_policies,
}

-- `AuthorizationSeedResult`
pub record AuthorizationSeedResult : Type 0 where
  pub resources_created : ℕ
  pub roles_created : ℕ
  pub permissions_created : ℕ
  pub role_permissions_created : ℕ
  pub policies_created : ℕ

-- A dictionary from names to the ids of their rows.
abbrev Ids : Type 0
Ids = List (String × Option ℕ)

abbrev lookup : String → Ids → Option (Option ℕ)
lookup key [] = none
lookup key (x ∷ rest) = let later = lookup key rest in if str_eq x.0 key then some x.1 else later

abbrev has_key : String → Ids → Bool
has_key key [] = false
has_key key (x ∷ rest) = str_eq x.0 key || has_key key rest

-- `key.split(":", 1)`, where the text has a colon
abbrev after_first : Char → Option (String × String) → Option (String × String)
after_first c none = none
after_first c (some parts) = some (String.◌∷◌ c parts.0, parts.1)

abbrev split_colon : String → Option (String × String)
split_colon String.[] = none
split_colon (String.◌∷◌ c s) =
    let rest = split_colon s in if code c == 58 then some (String.[], s) else after_first c rest

abbrev texts_eq : List String → List String → Bool
texts_eq [] [] = true
texts_eq [] (y ∷ ys) = false
texts_eq (x ∷ xs) [] = false
texts_eq (x ∷ xs) (y ∷ ys) = str_eq x y && texts_eq xs ys

module _ (tenant_id : Option ℕ) where
  -- The index of the keys is unique over all tenants.
  unfoldable pub create_resource :
      AuthorizationResource → Query AuthorizationDb AuthorizationResource
  create_resource x = do
    tenant ← from_result (tenant_column tenant_id)
    taken ← gets (λ db. any (λ (m : ResourceModel). str_eq m.key x.key) db.resources)
    raise_if taken integrity_error
    k ← gets (λ db. db.next_resource_id)
    modify (λ db. record db {
      resources =
          db.resources
          ++ record {
            id = k;
            key = x.key;
            name = x.name;
            description = x.description;
            tenant_id = tenant;
          }
            ∷ [];
      next_resource_id = suc k;
    })
    pure (record x { id = some k })

  abbrev pub seed_resources : List AuthorizationResource → List String → ℕ → Query AuthorizationDb ℕ
  seed_resources [] existing n = pure n
  seed_resources (x ∷ rest) existing n = elim (is_one_of existing x.key) [
    | true ↦ seed_resources rest existing n
    | false ↦ do created ← create_resource x; seed_resources rest (created.key ∷ existing) (suc n)
  ]

  abbrev seed_roles : List Role → Ids → ℕ → Query AuthorizationDb (Ids × ℕ)
  seed_roles [] existing n = pure (existing, n)
  seed_roles (x ∷ rest) existing n = elim (has_key x.name existing) [
    | true ↦ seed_roles rest existing n
    | false ↦ do
      created ← create_role tenant_id x
      seed_roles rest ((created.name, created.id) ∷ existing) (suc n)
  ]

  abbrev permission_of : String → String × String → Permission
  permission_of key parts = record {
    id = none;
    key = key;
    resource = parts.0;
    action = parts.1;
    description = some (append "Allows " (append parts.1 (append " access on " parts.0)));
    created_at = none;
  }

  module _ (title : String → String) where
    abbrev seed_permissions : List DefaultPolicy → Ids → ℕ → Query AuthorizationDb (Ids × ℕ)
    seed_permissions [] existing n = pure (existing, n)
    seed_permissions (x ∷ rest) existing n = elim (has_key x.permission existing) [
      | true ↦ seed_permissions rest existing n
      | false ↦ do
        parts ← or_raise (split_colon x.permission) (value_error "not enough values to unpack")
        created ← create_permission tenant_id title (permission_of x.permission parts)
        seed_permissions rest ((created.key, created.id) ∷ existing) (suc n)
    ]

  abbrev seed_grants :
      Ids → Ids → List DefaultPolicy → List (String × String) → ℕ → Query AuthorizationDb ℕ
  seed_grants roles permissions [] existing n = pure n
  seed_grants roles permissions (x ∷ rest) existing n =
      elim (any (λ y. str_eq y.0 x.role_name && str_eq y.1 x.permission) existing) [
        | true ↦ seed_grants roles permissions rest existing n
        | false ↦ do
          role_key ← or_raise (lookup x.role_name roles) key_error
          permission ← or_raise (lookup x.permission permissions) key_error
          role_id ← or_raise role_key (value_error "Role does not exist")
          permission_id ← or_raise permission (value_error "Permission does not exist")
          assign_permission_to_role tenant_id role_id permission_id
          seed_grants roles permissions rest ((x.role_name, x.permission) ∷ existing) (suc n)
      ]

  abbrev seed_policies : List DefaultPolicy → List (List String) → ℕ → Query AuthorizationDb ℕ
  seed_policies [] existing n = pure n
  seed_policies (x ∷ rest) existing n =
      let policy = x.ptype ∷ x.role_name ∷ x.permission ∷ [] in
      elim (any (texts_eq policy) existing) [
        | true ↦ seed_policies rest existing n
        | false ↦ do
          add_policy tenant_id x.ptype (x.role_name ∷ x.permission ∷ [])
          seed_policies rest (policy ∷ existing) (suc n)
      ]

  -- `seed_authorization`; `title` is Python's `str.title` after its replacement of underscores
  unfoldable pub seed_authorization :
      (String → String) → Query AuthorizationDb AuthorizationSeedResult
  seed_authorization title = do
    resources ← list_resources tenant_id
    roles ← list_roles tenant_id
    permissions ← list_permissions tenant_id
    role_permissions ← list_role_permissions tenant_id
    policies ← list_policies tenant_id
    resources_created ←
        seed_resources default_resources (map (λ (x : AuthorizationResource). x.key) resources) 0
    known_roles ← seed_roles default_roles (reverse (map (λ (x : Role). (x.name, x.id)) roles)) 0
    known_permissions ←
        seed_permissions title permission_policies
          (reverse (map (λ (x : Permission). (x.key, x.id)) permissions)) 0
    role_permissions_created ←
        seed_grants known_roles.0 known_permissions.0 permission_policies role_permissions 0
    policies_created ← seed_policies default_policies policies 0
    pure (record {
      resources_created = resources_created;
      roles_created = known_roles.1;
      permissions_created = known_permissions.1;
      role_permissions_created = role_permissions_created;
      policies_created = policies_created;
    })
