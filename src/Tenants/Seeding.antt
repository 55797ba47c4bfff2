-- ===== src/Tenants/Seeding.antt =====
-- Seeding the default tenant twice is seeding it once.
use python_codebase.Prelude.{
  ℕ, suc, ◌≡◌, refl, String, true, false, Option, none, some, List, [], ◌∷◌, ◌++◌, filter, any,
  str_eq, inl, inr, Bool-cases,
}
use python_codebase.Result.{ok, scalar_one_or_none}
use python_codebase.Session.{Session, commit, lift}
use python_codebase.Users.Saving.{same_text}
use python_codebase.Middleware.Tenancy.{TenantModel}
use python_codebase.Tenants.{
  TenantDb, tenant_entity, get_by_slug, tenant_clashes, tenant_row, insert_tenant, default_tenant,
  seed_missing, seed_default_tenant,
}

same_text-none : (o : Option String) → same_text o none ≡ false
same_text-none none = refl
same_text-none (some a) = refl

-- What the seed leaves where there is no default tenant.
module _ (db : TenantDb) where
  abbrev pub seeded : TenantDb
  seeded = record {
    tenants = db.tenants ++ tenant_row default_tenant db.next_id ∷ [];
    next_id = suc db.next_id;
  }

without_slug :
    (ms : List TenantModel)
    → filter (λ m. str_eq m.slug "default") ms ≡ []
    → any (tenant_clashes default_tenant) ms ≡ false
without_slug [] e = refl
without_slug (m ∷ ms) e = elim (Bool-cases (str_eq m.slug "default")) [
  | inl y ↦ cc (rw y at e)
  | inr n ↦ rw (n, same_text-none m.domain) (without_slug ms (rw n at e))
]

default_found :
    (k : ℕ) (ms : List TenantModel)
    → filter (λ m. str_eq m.slug "default") ms ≡ []
    → filter (λ m. str_eq m.slug "default") (ms ++ tenant_row default_tenant k ∷ [])
      ≡ tenant_row default_tenant k ∷ []
default_found k [] e = refl
default_found k (m ∷ ms) e = elim (Bool-cases (str_eq m.slug "default")) [
  | inl y ↦ cc (rw y at e)
  | inr n ↦ rw n (default_found k ms (rw n at e))
]

insert_default :
    (db : TenantDb)
    → any (tenant_clashes default_tenant) db.tenants ≡ false
    → insert_tenant default_tenant db
      ≡ (ok (tenant_entity (tenant_row default_tenant db.next_id)), seeded db)
unfolding insert_tenant
insert_default db free = rw free refl

get_missing :
    (db : TenantDb)
    → filter (λ m. str_eq m.slug "default") db.tenants ≡ []
    → get_by_slug "default" db ≡ (ok none, db)
unfolding get_by_slug scalar_one_or_none
get_missing db missing = rw missing refl

get_seeded :
    (db : TenantDb)
    → filter (λ m. str_eq m.slug "default") db.tenants ≡ []
    → get_by_slug "default" (seeded db)
      ≡ (ok (some (tenant_entity (tenant_row default_tenant db.next_id))), seeded db)
unfolding get_by_slug scalar_one_or_none
get_seeded db missing = rw (default_found db.next_id db.tenants missing) refl

-- Where one tenant is served and the table has no default tenant, the seed creates and commits one,
-- and sets the default to its id; running the seed again changes neither.
seed_default_tenant_twice :
    (s : Session TenantDb) (variable later : Option ℕ)
    → filter (λ m. str_eq m.slug "default") s.working.tenants ≡ []
    → let d = seeded s.working in
      let s' : Session TenantDb = record { committed = d; working = d; is_committed = true } in
      (seed_default_tenant false s variable ≡ (ok tt, s', some s.working.next_id))
      × (seed_default_tenant false s' later ≡ (ok tt, s', some s.working.next_id))
unfolding seed_default_tenant
seed_default_tenant_twice s variable later missing = (
  rw
      (
        get_missing s.working missing,
        seed_missing,
        get_missing s.working missing,
        insert_default s.working (without_slug s.working.tenants missing),
        commit,
        lift,
        get_missing s.working missing,
        insert_default s.working (without_slug s.working.tenants missing),
      )
      refl,
  rw (get_seeded s.working missing, seed_missing, get_seeded s.working missing) refl,
)
