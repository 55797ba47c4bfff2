-- ===== src/Accounts/Starting.antt =====
-- A login that succeeds.
use python_codebase.Prelude.{
  ℕ, suc, ◌+◌, ◌≡◌, refl, String, true, false, not, some, [], ◌∷◌, ◌++◌, is_blank, filter, any,
  str_eq,
}
use python_codebase.Result.{ok}
use python_codebase.Sql.{tenant_column}
use python_codebase.Session.{Session}
use python_codebase.Session.Atomicity.{transaction_lem}
use python_codebase.Lockout.{LockoutSettings, is_of, minutes, record_successful_login, clear}
use python_codebase.Users.{UserModel, map_to_entity, get_by_email}
use python_codebase.Tokens.{UserSession, row, insert, save as save_session}
use python_codebase.Tokens.Refresh.{TokenPair, Draw}
use python_codebase.Accounts.{AccountDb, save_audit, record_event}
use python_codebase.Accounts.Login.{
  LoginContext, LoginUserCommand, login_event, new_refresh_token, tokens_of, audit_login,
  success_block, ensure_unlocked, by_user, login,
}
use python_codebase.Accounts.Credentials.{Wired}

module _ (c : LoginContext) (t : ℕ) (settings : LockoutSettings) (m : UserModel)
    (command : LoginUserCommand) (draw : Draw) (s : Session AccountDb) where
  abbrev pub pair : TokenPair
  pair = tokens_of c (some m.id) draw

  abbrev pub hash : String
  hash = c.platform.sha256 pair.refresh_token

  -- The row of the new session.
  abbrev pub begun : UserSession
  begun =
      row (new_refresh_token m.id hash (draw.now + minutes c.settings.refresh_token_expire_minutes))
        t s.working.sessions.next_id

  -- The tables after a login.
  abbrev pub admitted : AccountDb
  admitted = record s.working {
    attempts = filter (λ a. not (is_of (some t) command.username a)) s.working.attempts;
    sessions = record {
      sessions = s.working.sessions.sessions ++ begun ∷ [];
      next_id = suc s.working.sessions.next_id;
    };
    audit_logs =
        s.working.audit_logs
        ++ record {
          event = login_event command.username "success" (some (c.platform.str m.id));
          tenant_id = t;
        }
          ∷ [];
  }

  success_block_lem :
      Wired c t settings
      → c.driver.uuid_key ≡ ok tt
      → any (λ x. str_eq x.refresh_token_hash hash) s.working.sessions.sessions ≡ false
      → success_block c command.username (some m.id) draw s.working ≡ (ok pair, admitted)
  unfolding success_block audit_login record_event save_audit tenant_column record_successful_login
      clear save_session insert new_refresh_token
  success_block_lem wired key fresh = rw (wired.0, wired.1, wired.2, fresh, key) refl

  -- A login with the right password of an account that is not locked returns two tokens and
  -- commits: the account's failed attempts are gone, one session and one audit record are new. It is
  -- relied on that the driver takes the record's key, and that no session has the hash of the new
  -- token.
  pub login_succeeds :
      Wired c t settings
      → c.driver.uuid_key ≡ ok tt
      → is_blank command.username ≡ false
      → is_blank command.password ≡ false
      → ensure_unlocked c command.username draw.now s ≡ (ok tt, s)
      → get_by_email c.tenant_id command.username s.working.users
        ≡ (ok (some (map_to_entity m)), s.working.users)
      → c.passwords.verify command.password m.password_hash ≡ true
      → any (λ x. str_eq x.refresh_token_hash hash) s.working.sessions.sessions ≡ false
      → login c command draw s
        ≡ (ok pair, record { committed = admitted; working = admitted; is_committed = true })
  unfolding login
  login_succeeds wired key name password unlocked read right fresh =
      rw
        (
          name,
          password,
          unlocked,
          read,
          by_user,
          right,
          transaction_lem (success_block c command.username (some m.id) draw) s,
          success_block_lem wired key fresh,
        )
        refl
