-- ===== src/Accounts/Blocked.antt =====
-- What a login leaves where its audit record can not be written.
use python_codebase.Prelude.{
  ℕ, ◌≡◌, refl, String, true, false, Option, some, inl, inr, is_blank, Bool-cases,
}
use python_codebase.Result.{Error, Result, ok, err, value_error, multiple_results}
use python_codebase.Sql.{tenant_column}
use python_codebase.Session.{Session, Query, transaction}
use python_codebase.Session.Atomicity.{transaction-fails}
use python_codebase.State.{pure, ◌>>◌}
use python_codebase.Lockout.{LockoutSettings, is_locked}
use python_codebase.Lockout.Threshold.{ensure-lock}
use python_codebase.Lockout.Counting.{lock, record_failed_login_lem}
use python_codebase.Users.{UserModel, map_to_entity}
use python_codebase.Tokens.Refresh.{TokenPair, Draw}
use python_codebase.Tokens.Rotating.{Result-cases}
use python_codebase.Accounts.{AccountDb, save_audit, record_event}
use python_codebase.Accounts.Login.{
  text_of, tokens_of, successful_given, store_session, LoginContext, LoginUserCommand, audit_login,
  failed_block, refuse, success_block, ensure_unlocked, by_user, login,
}
use python_codebase.Accounts.Credentials.{Wired, get_by_email-cases}

then_fails :
    {D A B : Type 0} (q : Query D A) (k : Query D B) (d : D)
    → ((d' : D) → (e : Error) × ((k d').0 ≡ err e))
    → (e : Error) × (((q >> k) d).0 ≡ err e)
then_fails q k d h = elim (Result-cases (q d).0) [
  | inl (a, e) ↦ let (x, fails) = h (q d).1 in (x, rw e fails)
  | inr (x, e) ↦ (x, rw e refl)
]

module _ (c : LoginContext) (t : ℕ) (settings : LockoutSettings) (x : Error)
    (wired : Wired c t settings) (key : c.driver.uuid_key ≡ err x) where
  failed_block-fails :
      (email : String) (now : ℕ) (db : AccountDb) → (failed_block c email now db).0 ≡ err x
  unfolding failed_block audit_login record_event save_audit tenant_column
  failed_block-fails email now db =
      rw (wired.1, wired.2, record_failed_login_lem t email settings now db.attempts, key) refl

  success_block-fails :
      (email : String) (id : Option ℕ) (draw : Draw) (db : AccountDb)
      → (e : Error) × ((success_block c email id draw db).0 ≡ err e)
  unfolding success_block audit_login record_event save_audit tenant_column
  success_block-fails email id draw db =
      let finish =
        audit_login c email "success" (some (text_of c.platform id))
        >> pure (tokens_of c id draw) in
      let finish_fails : (d : AccountDb) → (e : Error) × ((finish d).0 ≡ err e) =
        λ d. (x, rw (wired.2, key) refl) in
      then_fails (successful_given c.lockout email) (store_session c id draw >> finish) db
        (λ d. then_fails (store_session c id draw) finish d finish_fails)

  abbrev Blocked : Session AccountDb → Result TokenPair × Session AccountDb → Type 0
  Blocked s (r, s') = ((e : Error) × (r ≡ err e)) × (s'.committed ≡ s.committed)

  refuse-Blocked :
      (email message : String) (now : ℕ) (s : Session AccountDb)
      → Blocked s (refuse c email message now s)
  unfolding refuse
  refuse-Blocked email message now s =
      rw (transaction-fails (failed_block c email now) s x (failed_block-fails email now s.working))
        ((x, refl), refl)

  by_user-Blocked :
      (command : LoginUserCommand) (draw : Draw) (m : UserModel) (s : Session AccountDb)
      → Blocked s (by_user c command (some (map_to_entity m)) draw s)
  by_user-Blocked command draw m s =
      elim (Bool-cases (c.passwords.verify command.password m.password_hash)) [
        | inl right ↦
            let (e, h) = success_block-fails command.username (some m.id) draw s.working in
            rw
              (
                by_user,
                right,
                transaction-fails (success_block c command.username (some m.id) draw) s e h,
              )
              ((e, refl), refl)
        | inr wrong ↦
            rw (by_user, wrong)
              (refuse-Blocked command.username "Incorrect email or password" draw.now s)
      ]

  locked-Blocked :
      (email : String) (now : ℕ) (s : Session AccountDb)
      → is_locked (lock t email s.working.attempts) now ≡ true
      → (e : Error) × ((s' : Session AccountDb) × (ensure_unlocked c email now s ≡ (err e, s'))
          × (s'.committed ≡ s.committed))
  unfolding ensure_unlocked transaction audit_login record_event save_audit tenant_column
  locked-Blocked email now s closed = (
    x,
    (
      record { committed = s.committed; working = s.committed; is_committed = false },
      rw (wired.1, ensure-lock t email settings now s.working.attempts, closed, wired.2, key) refl,
      refl,
    ),
  )

  -- Where the driver does not take the UUID of an audit record for its integer key, no login
  -- returns, the right password or not, and none of them commits anything: neither a session nor a
  -- failed attempt.
  pub login_blocked_by_audit :
      (command : LoginUserCommand) (draw : Draw) (s : Session AccountDb)
      → let (r, s') = login c command draw s in
        ((e : Error) × (r ≡ err e)) × (s'.committed ≡ s.committed)
  unfolding login ensure_unlocked refuse
  login_blocked_by_audit command draw s = elim (Bool-cases (is_blank command.username)) [
    | inl blank ↦ rw blank ((value_error "Username is required", refl), refl)
    | inr name ↦ elim (Bool-cases (is_blank command.password)) [
      | inl blank ↦ rw (name, blank) ((value_error "Password is required", refl), refl)
      | inr password ↦
          rw (name, password)
            (elim (Bool-cases (is_locked (lock t command.username s.working.attempts) draw.now)) [
              | inl closed ↦
                  let (e, (s', refused, same)) =
                    locked-Blocked command.username draw.now s closed in
                  rw refused ((e, refl), same)
              | inr allowed ↦
                  let unlocked : ensure_unlocked c command.username draw.now s ≡ (ok tt, s) =
                    rw
                      (
                        wired.1,
                        ensure-lock t command.username settings draw.now s.working.attempts,
                        allowed,
                      )
                      refl in
                  elim (get_by_email-cases c.tenant_id command.username s.working.users) [
                    | inl absent ↦
                        rw (unlocked, absent, by_user)
                          (refuse-Blocked command.username "Incorrect email or password" draw.now s)
                    | inr (inl (m, found)) ↦ rw (unlocked, found) (by_user-Blocked command draw m s)
                    | inr (inr several) ↦ rw (unlocked, several) ((multiple_results, refl), refl)
                  ]
            ])
    ]
  ]
