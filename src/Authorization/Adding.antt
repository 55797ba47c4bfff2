-- ===== src/Authorization/Adding.antt =====
-- A policy rule is held once, however often it is added, and is gone when it is removed.
use text.Mathlib.TextPositions.{eq_refl}
use mathlib.Core.List.{append-nil}
use python_codebase.Prelude.{
  ℕ, ◌≤◌, String, ◌≡◌, refl, ap, ◌∙◌, Bool, true, not, ◌&&◌, Option, none, some, List, [], ◌∷◌,
  ◌++◌, filter, length, arith, inl, inr, Bool-cases, if◌then◌else◌,
}
use python_codebase.Result.{ok, scalar_one_or_none}
use python_codebase.Sql.{in_tenant_own, tenant_column}
use python_codebase.Authorization.{CasbinRuleModel, AuthorizationDb}
use python_codebase.Authorization.Policies.{
  mine, value_at, column_eq, rule_of, is_rule, add_policy, remove_policy,
}
use python_codebase.Authorization.Rules.{foreign_rules}

column_eq_refl : (v : Option String) → column_eq v v ≡ true
column_eq_refl none = refl
column_eq_refl (some a) = eq_refl a

pub filter-append_one :
    {A : Type 0} (p : A → Bool) (xs : List A) (x : A)
    → filter p (xs ++ x ∷ []) ≡ filter p xs ++ (if p x then x ∷ [] else [])
filter-append_one p [] x = refl
filter-append_one p (y ∷ xs) x = elim (Bool-cases (p y)) [
  | inl e ↦ rw e (ap (λ zs. y ∷ zs) (filter-append_one p xs x))
  | inr e ↦ rw e (filter-append_one p xs x)
]

filter-not-length :
    {A : Type 0} (p : A → Bool) (xs : List A) → length (filter p (filter (λ x. not (p x)) xs)) ≡ 0
filter-not-length p [] = refl
filter-not-length p (x ∷ xs) = ground (arith, filter-not-length p xs)

-- What is removed among one's own leaves the others.
filter-kept :
    {A : Type 0} (p own : A → Bool) (xs : List A)
    → filter (λ x. not (own x)) (filter (λ x. not (p x && own x)) xs) ≡ filter (λ x. not (own x)) xs
filter-kept p own [] = refl
filter-kept p own (x ∷ xs) = ground (arith, filter-kept p own xs)

module _ (t : ℕ) (ptype : String) (values : List String) where
  -- The tenant's rows of the rule.
  abbrev pub copies : AuthorizationDb → List CasbinRuleModel
  copies db = filter (λ r. is_rule ptype values r && mine (some t) r) db.casbin_rules

  rule_of-is_rule :
      (is_rule ptype values (rule_of ptype values t) && mine (some t) (rule_of ptype values t))
      ≡ true
  unfolding is_rule
  rule_of-is_rule =
      rw
        (
          eq_refl ptype,
          column_eq_refl (value_at values 0),
          column_eq_refl (value_at values 1),
          column_eq_refl (value_at values 2),
          column_eq_refl (value_at values 3),
          column_eq_refl (value_at values 4),
          column_eq_refl (value_at values 5),
          in_tenant_own t,
        )
        refl

  abbrev pub added : AuthorizationDb → AuthorizationDb
  added db = record db { casbin_rules = db.casbin_rules ++ rule_of ptype values t ∷ [] }

  copies-added :
      (db : AuthorizationDb) → copies db ≡ [] → copies (added db) ≡ rule_of ptype values t ∷ []
  copies-added db none_yet =
      rw
        (
          filter-append_one (λ r. is_rule ptype values r && mine (some t) r) db.casbin_rules
              (rule_of ptype values t),
          none_yet,
          rule_of-is_rule,
        )
        refl

  foreign-added :
      (db : AuthorizationDb) → foreign_rules (some t) (added db) ≡ foreign_rules (some t) db
  foreign-added db =
      rw
        (
          filter-append_one (λ r. not (mine (some t) r)) db.casbin_rules (rule_of ptype values t),
          in_tenant_own t,
        )
        (append-nil _)

  pub add_new :
      (db : AuthorizationDb)
      → copies db ≡ []
      → add_policy (some t) ptype values db ≡ (ok tt, added db)
  unfolding add_policy scalar_one_or_none tenant_column
  add_new db e = rw e refl

  pub add_again :
      (db : AuthorizationDb) (r : CasbinRuleModel)
      → copies db ≡ r ∷ []
      → add_policy (some t) ptype values db ≡ (ok tt, db)
  unfolding add_policy scalar_one_or_none
  add_again db r e = rw e refl

  -- What adding a rule comes to.
  abbrev pub Added : AuthorizationDb → AuthorizationDb → Type 0
  Added db db' =
      (length (copies db') ≡ 1)
      × (add_policy (some t) ptype values db' ≡ (ok tt, db'))
      × (length (copies (remove_policy (some t) ptype values db').1) ≡ 0)
      × (foreign_rules (some t) db' ≡ foreign_rules (some t) db)
      × (foreign_rules (some t) (remove_policy (some t) ptype values db').1
          ≡ foreign_rules (some t) db)

  no_copies :
      (db : AuthorizationDb) → length (copies (remove_policy (some t) ptype values db).1) ≡ 0
  unfolding remove_policy
  no_copies db = filter-not-length (λ r. is_rule ptype values r && mine (some t) r) db.casbin_rules

  foreign-removed :
      (db : AuthorizationDb)
      → foreign_rules (some t) (remove_policy (some t) ptype values db).1
        ≡ foreign_rules (some t) db
  unfolding remove_policy
  foreign-removed db = filter-kept (is_rule ptype values) (mine (some t)) db.casbin_rules

  -- A tenant that holds a rule at most once holds it exactly once after `add_policy`, which
  -- returns; adding it again changes nothing; removing it leaves none; and the rules of the other
  -- tenants stay as they were, after the adding and after the removal.
  pub add_policy-Added :
      (db : AuthorizationDb)
      → length (copies db) ≤ 1
      → ((add_policy (some t) ptype values db).0 ≡ ok tt)
        × Added db (add_policy (some t) ptype values db).1
  add_policy-Added db once = go (copies db) refl
    where
      go :
          (cs : List CasbinRuleModel)
          → copies db ≡ cs
          → ((add_policy (some t) ptype values db).0 ≡ ok tt)
            × Added db (add_policy (some t) ptype values db).1
      go [] e = rw (add_new db e) (
        refl,
        (
          ap length (copies-added db e),
          add_again (added db) _ (copies-added db e),
          no_copies (added db),
          foreign-added db,
          foreign-removed (added db) ∙ foreign-added db,
        ),
      )
      go (r ∷ []) e =
          rw (add_again db r e)
            (refl, (ap length e, add_again db r e, no_copies db, refl, foreign-removed db))
      go (r ∷ r' ∷ rest) e = absurd (omega (arith, ap length e))
