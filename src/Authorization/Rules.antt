-- ===== src/Authorization/Rules.antt =====
-- The policy rules under deletion: what goes, and that the other tenants' rules stay.
use python_codebase.Prelude.{
  ℕ, ◌≡◌, refl, Bool, false, not, ◌&&◌, ◌||◌, Option, some, List, [], ◌∷◌, filter, any, ◌==◌, arith,
  inl, inr, Bool-cases,
}
use python_codebase.Result.{ok}
use python_codebase.Sql.{in_tenant}
use python_codebase.Authorization.{RoleModel, CasbinRuleModel, AuthorizationDb}
use python_codebase.Authorization.Policies.{mine, is_grant_of, is_assignment_of, delete_role_rules}
use python_codebase.Authorization.Roles.{get_role_model, get_role, delete_role}

pub any-filter-not {ℓ} :
    {A : Type ℓ} (p : A → Bool) (xs : List A) → any p (filter (λ x. not (p x)) xs) ≡ false
any-filter-not p [] = refl
any-filter-not p (x ∷ xs) = elim (Bool-cases (p x)) [
  | inl e ↦ rw e (any-filter-not p xs)
  | inr e ↦ rw (e, e) (any-filter-not p xs)
]

-- Removing rows that are the tenant's leaves those that are not.
pub filter-filter_mine {ℓ} :
    {A : Type ℓ} (p mine : A → Bool) (xs : List A)
    → filter (λ x. not (mine x)) (filter (λ x. not (p x && mine x)) xs)
      ≡ filter (λ x. not (mine x)) xs
filter-filter_mine p mine [] = refl
filter-filter_mine p mine (x ∷ xs) = ground (arith, filter-filter_mine p mine xs)

filter-filter_kept {ℓ} :
    {A : Type ℓ} (p mine : A → Bool) (xs : List A)
    → filter (λ x. not (p x)) (filter (λ x. not (p x && mine x)) xs) ≡ filter (λ x. not (p x)) xs
filter-filter_kept p mine [] = refl
filter-filter_kept p mine (x ∷ xs) = ground (arith, filter-filter_kept p mine xs)

-- The rows of every other tenant.
abbrev pub foreign_rules : Option ℕ → AuthorizationDb → List CasbinRuleModel
foreign_rules t db = filter (λ r. not (mine t r)) db.casbin_rules

-- Deleting a role that the tenant has leaves no rule of the tenant that grants it anything or gives
-- it to anyone, no link of the tenant from it to a permission or a user, and no row with its key;
-- the rules of the other tenants, and the rules of the tenant about other roles, are as they were.
pub delete_role_purges :
    (t : Option ℕ) (k : ℕ) (m : RoleModel) (db : AuthorizationDb)
    → get_role_model t k db ≡ (ok (some m), db)
    → let (r, db') = delete_role t k db in
      (r ≡ ok tt)
      × (any (λ x. (is_grant_of m.name x || is_assignment_of m.name x) && mine t x) db'.casbin_rules
          ≡ false)
      × (any (λ x. x.role_id == k && in_tenant t x.tenant_id) db'.role_permissions ≡ false)
      × (any (λ x. x.role_id == k && in_tenant t x.tenant_id) db'.user_has_roles ≡ false)
      × (any (λ x. x.id == k) db'.roles ≡ false)
      × (foreign_rules t db' ≡ foreign_rules t db)
      × (filter (λ x. not (is_grant_of m.name x || is_assignment_of m.name x)) db'.casbin_rules
          ≡ filter (λ x. not (is_grant_of m.name x || is_assignment_of m.name x)) db.casbin_rules)
unfolding delete_role get_role delete_role_rules
delete_role_purges t k m db e =
    let q = λ (x : CasbinRuleModel). is_grant_of m.name x || is_assignment_of m.name x in
    rw e (
      refl,
      any-filter-not (λ x. q x && mine t x) db.casbin_rules,
      any-filter-not (λ x. x.role_id == k && in_tenant t x.tenant_id) db.role_permissions,
      any-filter-not (λ x. x.role_id == k && in_tenant t x.tenant_id) db.user_has_roles,
      any-filter-not (λ x. x.id == k) db.roles,
      filter-filter_mine q (mine t) db.casbin_rules,
      filter-filter_kept q (mine t) db.casbin_rules,
    )
