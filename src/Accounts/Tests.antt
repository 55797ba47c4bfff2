-- ===== src/Accounts/Tests.antt =====
-- Ann registers, fails to log in, and logs in.
use Prim.Native.Char.{char}
use mathlib.Core.Option.{none, some}
use mathlib.Core.List.{[]}
use python_codebase.Prelude.{◌≡◌, refl, ap, arith, true, false, is_blank, str_eq}
use python_codebase.Result.{
  ok, err, invalid_credentials, invalid_refresh_token, data_error, integrity_error, Error,
}
use python_codebase.Sql.{in_tenant, tenant_column}
use python_codebase.Session.{Session, rollback}
use python_codebase.Lockout.{latest_lock, ensure_login_allowed, get_locked_until}
use python_codebase.Tokens.{SessionDb, create_access_token}
use python_codebase.Tokens.Revocation.{authenticate_jwt, revoke_access_token, time_to_live}
use python_codebase.Users.{UserModel, map_to_entity, get_by_email}
use python_codebase.Users.Saving.{new_user}
use python_codebase.Authorization.{AuthorizationDb, RoleModel}
use python_codebase.Authorization.Roles.{assign_role}
use python_codebase.Accounts.Login.{login, ensure_unlocked}
use python_codebase.Accounts.Registration.{register}
use python_codebase.Accounts.Seeders.{run_seeders, run_seeders-raises}
use python_codebase.Accounts.Verified.{login_verified}
use python_codebase.Accounts.Blocked.{login_blocked_by_audit}
use python_codebase.Accounts.Starting.{pair, login_succeeds}
use python_codebase.Accounts.Ending.{revoked_token_refused, logout_blocked}
use python_codebase.Accounts.Logout.{LogoutUserCommand, logout}
use python_codebase.Accounts.Registering.{created, registered, with_user, register_returns}
use python_codebase.Accounts.Samples.{
  newcomer, with_bob, numbered, one_key, signer, settings, lockout, plain, to_int, lenient, strict,
  context, ann, db, opened, seeds, attempt, draw,
}

run_seeders-raises_example :
    run_seeders (signer "refresh") plain "salt" to_int (λ s. s) seeds opened
    ≡ (err integrity_error, rollback opened)
run_seeders-raises_example =
    run_seeders-raises (signer "refresh") plain "salt" to_int (λ s. s) seeds opened refl

ann_logs_in :
    (login (context lenient) (attempt "correct horse") (draw 5) opened).0
    ≡ ok (pair (context lenient) 1 lockout ann (attempt "correct horse") (draw 5) opened)
ann_logs_in =
    ap (λ r. r.0)
      (login_succeeds (context lenient) 1 lockout ann (attempt "correct horse") (draw 5) opened
        (refl, refl, refl) refl (unfold is_blank in refl) (unfold is_blank in refl)
        (unfold ensure_unlocked ensure_login_allowed get_locked_until latest_lock in refl)
        (unfold get_by_email in_tenant python_codebase.Result.scalar_one_or_none in refl) refl refl)

login_verified_example :
    (m : UserModel) × (get_by_email (some 1) "ann@example.org" db.users
      ≡ (ok (some (map_to_entity m)), db.users))
    × (str_eq "correct horse" m.password_hash ≡ true)
login_verified_example =
    login_verified (context lenient) (attempt "correct horse") (draw 5) opened
      (pair (context lenient) 1 lockout ann (attempt "correct horse") (draw 5) opened) ann_logs_in

login_blocked_by_audit_example :
    let (r, s') = login (context strict) (attempt "correct horse") (draw 5) opened in
    ((e : Error) × (r ≡ err e)) × (s'.committed ≡ db)
login_blocked_by_audit_example =
    login_blocked_by_audit (context strict) 1 lockout data_error (refl, refl, refl) refl
      (attempt "correct horse") (draw 5) opened

revoked_token_refused_example :
    authenticate_jwt one_key
      (signer "access")
      settings
      (create_access_token (signer "access") settings "7" 0 "first")
      1000000
      (revoke_access_token one_key
        (signer "access")
        settings
        (create_access_token (signer "access") settings "7" 0 "first")
        0
        false)
    ≡ none
revoked_token_refused_example =
    revoked_token_refused one_key (signer "access") settings "7" (char 102 tt) "irst" 0 0 1000000
      false (λ key value ttl now later r _. refl) (λ key now _ _. refl) (omega arith) (omega arith)
      (unfold time_to_live in omega arith)

register_returns_example :
    let d =
      with_user numbered plain
        (λ s. some 8)
        1
        newcomer
        "salt"
        "battery staple"
        "token"
        opened
        with_bob in
    (register numbered plain (λ s. some 8) (some 1) newcomer "salt" "token" opened ≡ (
      ok (
          registered numbered plain
            (λ s. some 8)
            1
            newcomer
            "salt"
            "battery staple"
            "token"
            opened),
      record { committed = d; working = d; is_committed = true },
    ))
    × (get_by_email (some 1) "bob@example.org" d.users ≡ (
      ok (
          some (
            map_to_entity (
              created numbered plain
                (λ s. some 8)
                1
                newcomer
                "salt"
                "battery staple"
                "token"
                opened))),
      d.users,
    ))
register_returns_example =
    register_returns numbered plain (λ s. some 8) 1 newcomer "salt" "battery staple" "token" opened
      with_bob refl (unfold is_blank in refl) refl refl (unfold new_user in refl) (refl, refl, refl)
      (unfold assign_role python_codebase.Authorization.Roles.get_role_by_name
          python_codebase.Authorization.Policies.add_policy
          python_codebase.Authorization.Policies.is_rule in_tenant tenant_column
          python_codebase.Result.scalar_one_or_none in
        refl)

-- The id of the command is a text.
abbrev leaving : LogoutUserCommand
leaving = record { user_id = "7"; access_token = "first" }

abbrev sessions : Session SessionDb
sessions =
    let db : SessionDb = record { sessions = []; next_id = 1 } in
    record { committed = db; working = db; is_committed = false }

logout_blocked_example :
    let (result, s', r') =
      logout one_key
        (signer "access")
        settings
        strict
        to_int
        (some 1)
        leaving
        0
        (sessions, false) in
    ((x : Error) × (result ≡ err x)) × (s'.committed ≡ sessions.committed) × (r' ≡ false)
logout_blocked_example =
    logout_blocked one_key (signer "access") settings strict to_int (some 1) leaving data_error 0
      sessions false refl
