-- ===== src/Authorization/Renaming.antt =====
-- Renaming a role renames it in the tenant's rules, and only there.
use python_codebase.Prelude.{
  ℕ, ◌+◌, String, ◌≡◌, refl, Bool, true, false, ◌&&◌, Option, map, filter, length,
}
use python_codebase.Result.{Result, ok}
use python_codebase.Authorization.{AuthorizationDb}
use python_codebase.Authorization.Policies.{
  mine, is_grant_of, is_assignment_of, rename_grant, rename_assignment, rename_role_policies,
}
use python_codebase.Authorization.Rules.{foreign_rules}

-- What one name loses the other gains, where a map moves rows from the one to the other.
record Moves (A : Type 0) (under_old under_new : A → Bool) (f : A → A) : Type 0 where
  moved :
      (x : A)
      → under_old x ≡ true
      → (under_new (f x) ≡ true) × (under_old (f x) ≡ false) × (under_new x ≡ false)
  stays : (x : A) → under_old x ≡ false → f x ≡ x

-- The tenant's rules that grant something to a role, and those that give the role to somebody.
abbrev pub grants : Option ℕ → String → AuthorizationDb → ℕ
grants t name db = length (filter (λ r. is_grant_of name r && mine t r) db.casbin_rules)

abbrev pub assignments : Option ℕ → String → AuthorizationDb → ℕ
assignments t name db = length (filter (λ r. is_assignment_of name r && mine t r) db.casbin_rules)

-- What a renaming does to the rules.
abbrev pub Renamed : Option ℕ → String → String → AuthorizationDb → AuthorizationDb → Type 0
Renamed t old new db db' =
    (grants t new db' ≡ grants t new db + grants t old db)
    × (grants t old db' ≡ 0)
    × (assignments t new db' ≡ assignments t new db + assignments t old db)
    × (assignments t old db' ≡ 0)
    × (foreign_rules t db' ≡ foreign_rules t db)

abbrev renamed : Option ℕ → String → String → AuthorizationDb → AuthorizationDb
renamed t old new db = record db {
  casbin_rules = map (rename_assignment t old new) (map (rename_grant t old new) db.casbin_rules);
}

pub rename_role_policies_lem :
    (t : Option ℕ) (old new : String) (db : AuthorizationDb)
    → rename_role_policies t old new db ≡ (ok tt, renamed t old new db)
unfolding rename_role_policies
rename_role_policies_lem t old new db = refl
