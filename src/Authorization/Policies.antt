-- ===== src/Authorization/Policies.antt =====
-- The policy rules of
-- src/modules/authorization/infrastructure/repositories/casbin_policy_repository.py.
use python_codebase.Prelude.{
  ℕ, zero, suc, String, Bool, true, false, not, ◌&&◌, ◌||◌, Option, none, some, List, [], ◌∷◌, ◌++◌,
  map, filter, str_eq, if◌then◌else◌,
}
use python_codebase.Result.{scalar_one_or_none}
use python_codebase.State.{pure, from_result, gets, modify, ◌>>=◌, ◌>>◌}
use python_codebase.Session.{Query}
use python_codebase.Sql.{in_tenant, tenant_column}
use python_codebase.Authorization.{CasbinRuleModel, AuthorizationDb}

-- `_value_at`
abbrev pub value_at : List String → ℕ → Option String
value_at [] i = none
value_at (v ∷ vs) zero = some v
value_at (v ∷ vs) (suc i) = value_at vs i

-- `column == value`, which SQLAlchemy sends as IS NULL where the value is None.
abbrev pub column_eq : Option String → Option String → Bool
column_eq none none = true
column_eq none (some b) = false
column_eq (some a) none = false
column_eq (some a) (some b) = str_eq a b

-- The row that `add_policy` writes.
abbrev pub rule_of : String → List String → ℕ → CasbinRuleModel
rule_of ptype values tenant = record {
  ptype = ptype;
  v0 = value_at values 0;
  v1 = value_at values 1;
  v2 = value_at values 2;
  v3 = value_at values 3;
  v4 = value_at values 4;
  v5 = value_at values 5;
  tenant_id = tenant;
}

-- The conditions that `add_policy` and `remove_policy` share.
unfoldable pub is_rule : String → List String → CasbinRuleModel → Bool
is_rule ptype values r =
    str_eq r.ptype ptype
    && column_eq r.v0 (value_at values 0)
    && column_eq r.v1 (value_at values 1)
    && column_eq r.v2 (value_at values 2)
    && column_eq r.v3 (value_at values 3)
    && column_eq r.v4 (value_at values 4)
    && column_eq r.v5 (value_at values 5)

abbrev populated : List (Option String) → List String
populated [] = []
populated (none ∷ rest) = populated rest
populated (some v ∷ rest) = v ∷ populated rest

-- `_to_policy_tuple`
unfoldable pub to_policy_tuple : CasbinRuleModel → List String
to_policy_tuple r = r.ptype ∷ populated (r.v0 ∷ r.v1 ∷ r.v2 ∷ r.v3 ∷ r.v4 ∷ r.v5 ∷ [])

-- A rule of a role: what the role may do, or who has it.
unfoldable pub is_grant_of : String → CasbinRuleModel → Bool
is_grant_of name r = str_eq r.ptype "p" && column_eq r.v0 (some name)

unfoldable pub is_assignment_of : String → CasbinRuleModel → Bool
is_assignment_of name r = str_eq r.ptype "g" && column_eq r.v1 (some name)

-- A rule that grants the permission with this key.
unfoldable pub is_grant_for : String → CasbinRuleModel → Bool
is_grant_for key r = str_eq r.ptype "p" && column_eq r.v1 (some key)

-- Whether there is a row, by `scalar_one_or_none`.
abbrev pub found {ℓ} : {A : Type ℓ} → Option A → Bool
found none = false
found (some a) = true

module _ (tenant_id : Option ℕ) where
  abbrev pub mine : CasbinRuleModel → Bool
  mine r = in_tenant tenant_id r.tenant_id

  abbrev insert_if : Bool → String → List String → Query AuthorizationDb (Unit {0})
  insert_if true ptype values = pure tt
  insert_if false ptype values = do
    tenant ← from_result (tenant_column tenant_id)
    modify (λ db. record db { casbin_rules = db.casbin_rules ++ rule_of ptype values tenant ∷ [] })

  unfoldable pub add_policy : String → List String → Query AuthorizationDb (Unit {0})
  add_policy ptype values = do
    rules ← gets (λ db. filter (λ r. is_rule ptype values r && mine r) db.casbin_rules)
    existing ← from_result (scalar_one_or_none rules)
    insert_if (found existing) ptype values

  abbrev delete_rules : (CasbinRuleModel → Bool) → Query AuthorizationDb (Unit {0})
  delete_rules p =
      modify (λ db. record db { casbin_rules = filter (λ r. not (p r && mine r)) db.casbin_rules })

  unfoldable pub remove_policy : String → List String → Query AuthorizationDb (Unit {0})
  remove_policy ptype values = delete_rules (is_rule ptype values)

  -- The rules that `delete_role` removes.
  unfoldable pub delete_role_rules : String → Query AuthorizationDb (Unit {0})
  delete_role_rules name = delete_rules (λ r. is_grant_of name r || is_assignment_of name r)

  -- The rules that `delete_permission` removes.
  unfoldable pub delete_permission_rules : String → Query AuthorizationDb (Unit {0})
  delete_permission_rules key = delete_rules (is_grant_for key)

  abbrev pub rename_grant : String → String → CasbinRuleModel → CasbinRuleModel
  rename_grant old new r = if is_grant_of old r && mine r then record r { v0 = some new } else r

  abbrev pub rename_assignment : String → String → CasbinRuleModel → CasbinRuleModel
  rename_assignment old new r =
      if is_assignment_of old r && mine r then record r { v1 = some new } else r

  -- `_rename_role_policies`: first the grants, then the assignments
  unfoldable pub rename_role_policies : String → String → Query AuthorizationDb (Unit {0})
  rename_role_policies old new = do
    modify (λ db. record db { casbin_rules = map (rename_grant old new) db.casbin_rules })
    modify (λ db. record db { casbin_rules = map (rename_assignment old new) db.casbin_rules })

  abbrev pub rename_key : String → String → CasbinRuleModel → CasbinRuleModel
  rename_key old new r = if is_grant_for old r && mine r then record r { v1 = some new } else r

  -- `_rename_permission_policies`
  unfoldable pub rename_permission_policies : String → String → Query AuthorizationDb (Unit {0})
  rename_permission_policies old new =
      modify (λ db. record db { casbin_rules = map (rename_key old new) db.casbin_rules })

  -- `list_policies`
  unfoldable pub list_policies : Query AuthorizationDb (List (List String))
  list_policies = gets (λ db. map to_policy_tuple (filter mine db.casbin_rules))
