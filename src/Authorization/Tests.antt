-- ===== src/Authorization/Tests.antt =====
-- A tenant with one role that holds one permission and that one user has.
use mathlib.Core.Path.{◌≡◌, refl}
use mathlib.Core.List.{List, [], ◌∷◌}
use mathlib.Core.Option.{none, some}
use python_codebase.Prelude.{Bool, String, arith, ◌&&◌, ◌||◌, ◌==◌, not, false, any, filter}
use python_codebase.Result.{Error, ok, err, data_error, scalar_one_or_none}
use python_codebase.Sql.{in_tenant}
use python_codebase.Authorization.{Role, RoleModel, CasbinRuleModel, AuthorizationDb}
use python_codebase.Authorization.Policies.{
  mine, rule_of, is_rule, is_grant_of, is_assignment_of, add_policy,
}
use python_codebase.Authorization.Roles.{get_role_model, delete_role}
use python_codebase.Authorization.Rules.{foreign_rules, delete_role_purges}
use python_codebase.Authorization.Handlers.{UpdateRoleCommand, handle_update_role}
use python_codebase.Authorization.Committed.{handle_update_role-raises}
use python_codebase.Authorization.Deciding.{line, has_line}
use python_codebase.Authorization.Adding.{Added, add_policy-Added}

abbrev staff : RoleModel
staff = record { id = 4; name = "staff"; description = none; tenant_id = 1; created_at = 50 }

abbrev crew : Role
crew = record { id = some 4; name = "crew"; description = some "All hands"; created_at = none }

abbrev db : AuthorizationDb
db = record {
  roles = staff ∷ [];
  resources = [];
  permissions = [];
  role_permissions = record { role_id = 4; permission_id = 9; tenant_id = 1 } ∷ [];
  user_has_roles = record { user_id = 7; role_id = 4; tenant_id = 1 } ∷ [];
  casbin_rules =
      rule_of "p" ("staff" ∷ "todo:read" ∷ []) 1
      ∷ rule_of "g" ("7" ∷ "staff" ∷ []) 1
      ∷ rule_of "p" ("staff" ∷ "todo:read" ∷ []) 2
      ∷ [];
  next_role_id = 5;
  next_resource_id = 1;
  next_permission_id = 10;
  now = 60;
}

staff_found : get_role_model (some 1) 4 db ≡ (ok (some staff), db)
unfolding get_role_model in_tenant scalar_one_or_none
staff_found = refl

delete_role_purges_example :
    let q = λ (x : CasbinRuleModel). is_grant_of "staff" x || is_assignment_of "staff" x in
    let (r, db') = delete_role (some 1) 4 db in
    (r ≡ ok tt)
    × (any
          (λ x. (is_grant_of "staff" x || is_assignment_of "staff" x) && mine (some 1) x)
          db'.casbin_rules
        ≡ false)
    × (any (λ x. x.role_id == 4 && in_tenant (some 1) x.tenant_id) db'.role_permissions ≡ false)
    × (any (λ x. x.role_id == 4 && in_tenant (some 1) x.tenant_id) db'.user_has_roles ≡ false)
    × (any (λ x. x.id == 4) db'.roles ≡ false)
    × (foreign_rules (some 1) db' ≡ foreign_rules (some 1) db)
    × (filter (λ x. not (q x)) db'.casbin_rules ≡ filter (λ x. not (q x)) db.casbin_rules)
delete_role_purges_example = delete_role_purges (some 1) 4 staff db staff_found

abbrev may_update : List String
may_update = "staff" ∷ "todo:update" ∷ []

add_policy-Added_example :
    ((add_policy (some 1) "p" may_update db).0 ≡ ok tt)
    × Added 1 "p" may_update db (add_policy (some 1) "p" may_update db).1
add_policy-Added_example =
    add_policy-Added 1 "p" may_update db (unfold is_rule in_tenant in omega arith)

abbrev rename : UpdateRoleCommand
rename = record { role_id = 4; name = some "crew"; description = none }

handle_update_role-raises_example :
    let (r, s') =
      handle_update_role
        (some 1)
        (err data_error)
        rename
        (record { committed = db; working = db; is_committed = false }) in
    ((x : Error) × (r ≡ err x)) × (s'.committed ≡ db)
handle_update_role-raises_example =
    handle_update_role-raises (some 1) data_error staff rename
      (record { committed = db; working = db; is_committed = false }) staff_found refl

-- An enforcer for the test: the subject's role among the lines.
abbrev enforce_staff : List String → String → String → Bool
enforce_staff policy subject permission = has_line (line "g" subject "staff") policy
