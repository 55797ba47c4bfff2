-- ===== src/Accounts/Verified.antt =====
-- What every login shows, whatever the services that the handler is made with.
use python_codebase.Prelude.{
  ℕ, ◌≡◌, refl, String, true, Option, none, some, ◌⊎◌, inl, inr, is_blank, ◌&&◌, filter, is_some,
  Bool-cases, Option-cases,
}
use python_codebase.Result.{Error, ok, err, value_error, invalid_credentials}
use python_codebase.Session.{Session, Query, transaction}
use python_codebase.State.{raise, ◌>>◌}
use python_codebase.Lockout.{
  Attempts, LockoutService, latest_lock, is_of, is_locked, ensure_login_allowed, get_locked_until,
}
use python_codebase.Users.{UserModel, map_to_entity, get_by_email}
use python_codebase.Tokens.Refresh.{TokenPair, Draw}
use python_codebase.Tokens.Rotating.{Result-cases}
use python_codebase.Accounts.{AccountDb}
use python_codebase.Accounts.Login.{
  LoginContext, LoginUserCommand, audit_login, failed_block, refuse, guard_given, ensure_unlocked,
  by_user, login,
}
use python_codebase.Accounts.Credentials.{get_by_email-cases}

-- The lockout writes nothing; it lets a login go on, or raises its ValueError.
ensure-cases :
    (service : LockoutService) (email : String) (now : ℕ) (db : Attempts)
    → (ensure_login_allowed service email now db ≡ (ok tt, db))
      ⊎ (ensure_login_allowed service email now db
          ≡ (err (value_error "Account is temporarily locked"), db))
unfolding ensure_login_allowed get_locked_until
ensure-cases service email now db = elim (Option-cases service.repository) [
  | inl e ↦ inl (rw e refl)
  | inr (t, e) ↦
      elim (Bool-cases (
        is_locked (latest_lock (filter (λ a. is_of t email a && is_some a.locked_until) db)) now)) [
          | inl closed ↦ inr (rw (e, closed) refl)
          | inr allowed ↦ inl (rw (e, allowed) refl)
        ]
]

-- A block and then a raise never return.
block_then_raise :
    {A : Type 0} (B : Type 0) (q : Query AccountDb A) (x : Error) (s : Session AccountDb)
    → (e : Error) × ((◌>>◌ {B = B} (transaction q) (raise x) s).0 ≡ err e)
block_then_raise B q x s = elim (Result-cases (transaction q s).0) [
  | inl (a, e) ↦ (x, rw e refl)
  | inr (y, e) ↦ (y, rw e refl)
]

module _ (c : LoginContext) (email : String) (now : ℕ) (s : Session AccountDb) where
  guard-cases :
      (o : Option LockoutService)
      → (guard_given c o email now s ≡ (ok tt, s))
        ⊎ ((e : Error) × ((guard_given c o email now s).0 ≡ err e))
  guard-cases none = inl refl
  guard-cases (some service) = elim (ensure-cases service email now s.working.attempts) [
    | inl e ↦ inl (rw (guard_given, e) refl)
    | inr e ↦
        let (x, h) =
          block_then_raise Unit (audit_login c email "locked" none)
            (invalid_credentials "Account is temporarily locked") s in
        inr (x, rw (guard_given, e) h)
  ]

module _ (c : LoginContext) (command : LoginUserCommand) (draw : Draw) (s : Session AccountDb)
    (pair : TokenPair) where
  -- A login that returns tokens has found the one user with the email and tenant, and has verified
  -- the password against that user's hash.
  pub login_verified :
      (login c command draw s).0 ≡ ok pair
      → (m : UserModel) × (get_by_email c.tenant_id command.username s.working.users
          ≡ (ok (some (map_to_entity m)), s.working.users))
        × (c.passwords.verify command.password m.password_hash ≡ true)
  unfolding login ensure_unlocked refuse
  login_verified e = elim (Bool-cases (is_blank command.username)) [
    | inl blank ↦ cc (rw blank at e)
    | inr name ↦ elim (Bool-cases (is_blank command.password)) [
      | inl blank ↦ cc (rw (name, blank) at e)
      | inr password ↦ elim (guard-cases c command.username draw.now s c.lockout) [
        | inl unlocked ↦ elim (get_by_email-cases c.tenant_id command.username s.working.users) [
          | inl absent ↦
              let (x, refused) =
                block_then_raise TokenPair (failed_block c command.username draw.now)
                  (invalid_credentials "Incorrect email or password") s in
              cc (rw (name, password, unlocked, absent, by_user, refused) at e)
          | inr (inl (m, found)) ↦
              elim (Bool-cases (c.passwords.verify command.password m.password_hash)) [
                | inl right ↦ (m, found, right)
                | inr wrong ↦
                    let (x, refused) =
                      block_then_raise TokenPair (failed_block c command.username draw.now)
                        (invalid_credentials "Incorrect email or password") s in
                    cc (rw (name, password, unlocked, found, by_user, wrong, refused) at e)
              ]
          | inr (inr several) ↦ cc (rw (name, password, unlocked, several) at e)
        ]
        | inr (x, closed) ↦ cc (rw (name, password, closed) at e)
      ]
    ]
  ]
