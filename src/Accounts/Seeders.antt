-- ===== src/Accounts/Seeders.antt =====
-- The run of the seeds: src/core/seed/runner.py. Its repositories have no tenant.
use python_codebase.Prelude.{
  ℕ, String, false, Option, none, List, [], ◌∷◌, map, filter, any, str_eq, is_one_of, ◌≡◌, refl,
  Bool-cases, inl, inr,
}
use python_codebase.Result.{Result, ok, err, integrity_error}
use python_codebase.State.{pure, ◌>>=◌}
use python_codebase.Sql.{in_tenant, tenant_column}
use python_codebase.Session.{Session, Exec, Query, rollback, lift}
use python_codebase.Tokens.{Platform}
use python_codebase.Authorization.{ResourceModel, AuthorizationDb}
use python_codebase.Authorization.Access.{
  AuthorizationResource, resource_from_model, list_resources, list_role_permissions,
}
use python_codebase.Authorization.Policies.{list_policies}
use python_codebase.Authorization.Roles.{list_roles}
use python_codebase.Authorization.Permissions.{list_permissions}
use python_codebase.Authorization.Seeding.{
  AuthorizationSeedResult, create_resource, seed_resources, seed_authorization,
}
use python_codebase.Authorization.Defaults.{default_resources}
use python_codebase.Accounts.{AccountDb, on_authorization}
use python_codebase.Accounts.Login.{Passwords}
use python_codebase.Accounts.Seeding.{SeedUserConfig, UserSeedResult, seed_user}

pub record SeedResult : Type 0 where
  pub authorization : AuthorizationSeedResult
  pub user : UserSeedResult

abbrev close : Result SeedResult → Session AccountDb → Result SeedResult × Session AccountDb
close (ok result) s = (ok result, record s { committed = s.working })
close (err e) s = (err e, rollback s)

module _ (p : Platform) (passwords : Passwords) (salt : String) (to_int : String → Option ℕ)
    (title : String → String) (config : SeedUserConfig) where
  unfoldable pub run_seeders_with_session : Query AccountDb SeedResult
  run_seeders_with_session = do
    authorization ← on_authorization (seed_authorization none title)
    user ← seed_user p passwords salt to_int none config
    pure (record { authorization = authorization; user = user })

  unfoldable pub run_seeders : Exec AccountDb SeedResult
  run_seeders s = let (result, s') = lift run_seeders_with_session s in close result s'

keys_of_rows :
    (key : String) (ms : List ResourceModel)
    → any (λ m. str_eq m.key key) ms ≡ false
    → is_one_of
        (map
          (λ (x : AuthorizationResource). x.key)
          (map resource_from_model (filter (λ m. in_tenant none m.tenant_id) ms)))
        key
      ≡ false
unfolding in_tenant
keys_of_rows key [] e = refl
keys_of_rows key (m ∷ ms) e = elim (Bool-cases (str_eq m.key key)) [
  | inl y ↦ cc (rw y at e)
  | inr n ↦ rw n (keys_of_rows key ms (rw n at e))
]

resources_refused :
    (existing : List String) (db : AuthorizationDb)
    → is_one_of existing "todo" ≡ false
    → seed_resources none default_resources existing 0 db ≡ (err integrity_error, db)
unfolding create_resource tenant_column
resources_refused existing db free = rw (seed_resources, free) refl

authorization_refused :
    (title : String → String) (db : AuthorizationDb)
    → any (λ m. str_eq m.key "todo") db.resources ≡ false
    → seed_authorization none title db ≡ (err integrity_error, db)
unfolding seed_authorization list_resources list_roles list_permissions list_role_permissions
    list_policies
authorization_refused title db free =
    rw (resources_refused existing db (keys_of_rows "todo" db.resources free)) refl
  where
    existing : List String
    existing =
        map (λ (x : AuthorizationResource). x.key)
          (map resource_from_model (filter (λ m. in_tenant none m.tenant_id) db.resources))

-- On a database without the resource of the todos, a run of the seeds raises IntegrityError and
-- leaves the committed tables and the session as they were committed: the repositories that it
-- makes have no tenant, and the column of the tenant is not nullable.
pub run_seeders-raises :
    (p : Platform) (passwords : Passwords) (salt : String) (to_int : String → Option ℕ)
    (title : String → String) (config : SeedUserConfig) (s : Session AccountDb)
    → any (λ (m : ResourceModel). str_eq m.key "todo") s.working.authorization.resources ≡ false
    → run_seeders p passwords salt to_int title config s ≡ (err integrity_error, rollback s)
unfolding run_seeders run_seeders_with_session
run_seeders-raises p passwords salt to_int title config s free =
    rw (authorization_refused title s.working.authorization free) refl
