-- ===== src/Accounts/Credentials.antt =====
-- What a login does with the credentials that it is given.
use python_codebase.Prelude.{
  ℕ, ◌≡◌, refl, String, Bool, true, false, Option, none, some, List, [], ◌∷◌, ◌++◌, ◌⊎◌, inl, inr,
  filter, str_eq, ◌&&◌,
}
use python_codebase.Result.{
  Result, ok, err, scalar_one_or_none, multiple_results, invalid_credentials,
}
use python_codebase.Sql.{in_tenant}
use python_codebase.Session.{Session}
use python_codebase.Lockout.{LockoutSettings}
use python_codebase.Lockout.Counting.{failure}
use python_codebase.Users.{User, UserModel, UserDb, map_to_entity, get_by_email}
use python_codebase.Tokens.Refresh.{TokenPair}
use python_codebase.Accounts.{AccountDb}
use python_codebase.Accounts.Login.{LoginContext, login_event}

scalar-cases :
    {A : Type 0} (xs : List A)
    → (scalar_one_or_none xs ≡ ok none)
      ⊎ (((x : A) × (scalar_one_or_none xs ≡ ok (some x)))
          ⊎ (scalar_one_or_none xs ≡ err multiple_results))
unfolding scalar_one_or_none
scalar-cases [] = inl refl
scalar-cases (x ∷ []) = inr (inl (x, refl))
scalar-cases (x ∷ y ∷ rest) = inr (inr refl)

-- A user that is read by its email comes without related records, and nothing is written.
pub get_by_email-cases :
    (t : Option ℕ) (email : String) (db : UserDb)
    → (get_by_email t email db ≡ (ok none, db))
      ⊎ (((m : UserModel) × (get_by_email t email db ≡ (ok (some (map_to_entity m)), db)))
          ⊎ (get_by_email t email db ≡ (err multiple_results, db)))
unfolding get_by_email
get_by_email-cases t email db =
    elim (scalar-cases (filter (λ m. str_eq m.email email && in_tenant t m.tenant_id) db.users)) [
      | inl e ↦ inl (rw e refl)
      | inr (inl (m, e)) ↦ inr (inl (m, rw e refl))
      | inr (inr e) ↦ inr (inr (rw e refl))
    ]

-- Do the credentials fit the user that was found?
abbrev pub matches : LoginContext → String → Option User → Bool
matches c password none = false
matches c password (some user) = c.passwords.verify password user.password_hash

-- The handler as the application builds it: both services are given, of one tenant.
abbrev pub Wired : LoginContext → ℕ → LockoutSettings → Type 0
Wired c t settings =
    (c.tenant_id ≡ some t)
    × (c.lockout ≡ some (record { repository = some (some t); settings = settings }))
    × (c.audit ≡ some (record { repository = some (some t) }))

module _ (c : LoginContext) (t : ℕ) (settings : LockoutSettings) where
  -- The tables after a failure is recorded.
  abbrev after_failure : String → ℕ → AccountDb → AccountDb
  after_failure email now db = record db {
    attempts = db.attempts ++ failure t email settings now db.attempts ∷ [];
    audit_logs =
        db.audit_logs ++ record { event = login_event email "failure" none; tenant_id = t } ∷ [];
  }

  -- How a login with wrong credentials ends, by what the driver makes of the audit record's key.
  abbrev failed_outcome :
      Result (Unit {0}) → String → ℕ → Session AccountDb → Result TokenPair × Session AccountDb
  failed_outcome (ok u) email now s =
      let d = after_failure email now s.working in
      (
        err (invalid_credentials "Incorrect email or password"),
        record { committed = d; working = d; is_committed = true },
      )
  failed_outcome (err x) email now s =
      (err x, record { committed = s.committed; working = s.committed; is_committed = false })
