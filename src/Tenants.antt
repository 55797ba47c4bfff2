-- ===== src/Tenants.antt =====
-- The tenants: src/modules/tenants/infrastructure/repositories/tenant_repository.py, and the seed of
-- the default tenant (src/core/seed/tenant.py).
pub mod Seeding
use python_codebase.Prelude.{
  ℕ, suc, String, Bool, true, false, not, ◌&&◌, ◌||◌, Option, none, some, List, [], ◌∷◌, ◌++◌, map,
  filter, any, ◌==◌, str_eq, is_truthy, if◌then◌else◌,
}
use python_codebase.Result.{Result, ok, err, scalar_one_or_none, integrity_error, no_result_found}
use python_codebase.State.{pure, from_result, gets, modify, raise_if, or_raise, ◌>>=◌, ◌>>◌}
use python_codebase.Session.{Session, Exec, Query, commit, rollback, lift}
use python_codebase.Users.Saving.{same_text}
use python_codebase.Middleware.Tenancy.{TenantModel}

-- src/modules/tenants/domain/entities/tenant.py
pub record Tenant : Type 0 where
  pub id : Option ℕ
  pub name : String
  pub slug : String
  pub domain : Option String

pub record TenantDb : Type 0 where
  pub tenants : List TenantModel
  pub next_id : ℕ

-- `_to_entity`
abbrev pub tenant_entity : TenantModel → Tenant
tenant_entity m = record { id = some m.id; name = m.name; slug = m.slug; domain = m.domain }

abbrev entity? : Option TenantModel → Option Tenant
entity? none = none
entity? (some m) = some (tenant_entity m)

unfoldable pub get_by_slug : String → Query TenantDb (Option Tenant)
get_by_slug slug = do
  models ← gets (λ db. filter (λ m. str_eq m.slug slug) db.tenants)
  model ← from_result (scalar_one_or_none models)
  pure (entity? model)

unfoldable pub get_by_domain : String → Query TenantDb (Option Tenant)
get_by_domain domain = do
  models ← gets (λ db. filter (λ m. same_text m.domain (some domain)) db.tenants)
  model ← from_result (scalar_one_or_none models)
  pure (entity? model)

unfoldable pub get_tenant : ℕ → Query TenantDb (Option Tenant)
get_tenant tenant_id = do
  models ← gets (λ db. filter (λ m. m.id == tenant_id) db.tenants)
  model ← from_result (scalar_one_or_none models)
  pure (entity? model)

-- The slugs are unique, and so are the domains.
abbrev pub tenant_clashes : Tenant → TenantModel → Bool
tenant_clashes tenant m = str_eq m.slug tenant.slug || same_text m.domain tenant.domain

abbrev pub tenant_row : Tenant → ℕ → TenantModel
tenant_row tenant k = record {
  id = k;
  name = tenant.name;
  slug = tenant.slug;
  domain = tenant.domain;
}

unfoldable pub insert_tenant : Tenant → Query TenantDb Tenant
insert_tenant tenant = do
  taken ← gets (λ db. any (tenant_clashes tenant) db.tenants)
  raise_if taken integrity_error
  k ← gets (λ db. db.next_id)
  modify (λ db. record db {
    tenants = db.tenants ++ tenant_row tenant db.next_id ∷ [];
    next_id = suc db.next_id;
  })
  pure (tenant_entity (tenant_row tenant k))

unfoldable pub overwrite_tenant : Tenant → ℕ → Query TenantDb Tenant
overwrite_tenant tenant k = do
  taken ← gets (λ db. any (λ m. not (m.id == k) && tenant_clashes tenant m) db.tenants)
  raise_if taken integrity_error
  modify (λ db. record db {
    tenants = map (λ m. if m.id == k then tenant_row tenant k else m) db.tenants;
  })
  pure (tenant_entity (tenant_row tenant k))

abbrev by_existing : Tenant → ℕ → Option Tenant → Query TenantDb Tenant
by_existing tenant k none = insert_tenant tenant
by_existing tenant k (some existing) = overwrite_tenant tenant k

abbrev save_at : Tenant → Option ℕ → Query TenantDb Tenant
save_at tenant none = insert_tenant tenant
save_at tenant (some k) =
    if is_truthy (some k)
    then (do existing ← get_tenant k; by_existing tenant k existing)
    else insert_tenant tenant

-- `save`; a tenant without an id, or with the id 0, is new
unfoldable pub save_tenant : Tenant → Query TenantDb Tenant
save_tenant tenant = save_at tenant tenant.id

abbrev pub default_tenant : Tenant
default_tenant = record { id = none; name = "Default Tenant"; slug = "default"; domain = none }

-- `set_default_tenant_id` beside the session: the module's variable. A session that is closed rolls
-- back what is not committed.
abbrev pub seed_missing :
    Session TenantDb
    → Option ℕ
    → Result (Option Tenant)
    → Result (Unit {0}) × Session TenantDb × Option ℕ
seed_missing s variable (err e) = (err e, rollback s, variable)
seed_missing s variable (ok (some existing)) = (ok tt, s, existing.id)
seed_missing s variable (ok none) =
    let (result, s') = lift (insert_tenant default_tenant) s in
    elim result [
      | ok tenant ↦ (ok tt, commit s', tenant.id)
      | err e ↦ (err e, rollback s', variable)
    ]

-- `seed_default_tenant`
unfoldable pub seed_default_tenant :
    Bool → Session TenantDb → Option ℕ → Result (Unit {0}) × Session TenantDb × Option ℕ
seed_default_tenant true s variable = (ok tt, s, variable)
seed_default_tenant false s variable =
    let (found, db) = get_by_slug "default" s.working in
    seed_missing (record s { working = db }) variable found
