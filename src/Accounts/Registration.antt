-- ===== src/Accounts/Registration.antt =====
-- `RegisterUserCommandHandler` (src/modules/user/application/auth/register_user/handler.py) and
-- `DetailUserQueryHandler` (src/modules/user/application/detail_user/handler.py).
use python_codebase.Prelude.{len, ℕ, String, Option, none, is_blank, is_some, ltb}
use python_codebase.Result.{value_error, user_already_exists, user_not_found}
use python_codebase.State.{pure, from_result, raise_if, or_raise, ◌>>=◌, ◌>>◌}
use python_codebase.Session.{Exec, Query, lift, transaction}
use python_codebase.Tokens.{Platform}
use python_codebase.Users.{User, UserDb, get_by_email, get_by_id_with_relations}
use python_codebase.Users.Saving.{new_user, save}
use python_codebase.Authorization.Roles.{assign_role}
use python_codebase.Accounts.{AccountDb, on_users, on_authorization}
use python_codebase.Accounts.Login.{Passwords, text_of}

pub record RegisterUserCommand : Type 0 where
  pub email : String
  pub password : String

pub record UserRegisteredEvent : Type 0 where
  pub user_id : String
  pub email : String
  pub verification_token : String

-- What the handler returns, and the event that it publishes; a handler of an event that raises
-- does not reach the publisher.
pub record Registered : Type 0 where
  pub user : User
  pub published : UserRegisteredEvent

-- `salt` and `verification_token` are drawn outside; `to_int` is Python's `int` of a text.
module _ (p : Platform) (passwords : Passwords) (to_int : String → Option ℕ)
    (tenant_id : Option ℕ) where
  -- `User.create` with the hashed password
  abbrev pub registrant : RegisterUserCommand → String → User
  registrant command hashed = new_user command.email hashed none "local"

  -- The block of the unit of work: the commit stands before the publication, which does not raise.
  unfoldable pub register_block : RegisterUserCommand → String → String → Query AccountDb Registered
  register_block command hashed verification_token = do
    saved_user ← on_users (save tenant_id (registrant command hashed))
    on_authorization (assign_role tenant_id to_int (text_of p saved_user.id) "user")
    pure (record {
      user = saved_user;
      published = record {
        user_id = text_of p saved_user.id;
        email = saved_user.email;
        verification_token = verification_token;
      };
    })

  -- `execute`
  unfoldable pub register : RegisterUserCommand → String → String → Exec AccountDb Registered
  register command salt verification_token = do
    raise_if (is_blank command.password) (value_error "Password is required")
    raise_if (ltb (len command.password) 8)
        (value_error "Password must contain at least 8 characters")
    existing ← lift (on_users (get_by_email tenant_id command.email))
    raise_if (is_some existing) user_already_exists
    hashed ← from_result (passwords.hash salt command.password)
    transaction (register_block command hashed verification_token)

module _ (tenant_id : Option ℕ) where
  -- `DetailUserQueryHandler.execute`
  unfoldable pub detail_user : Option ℕ → Query UserDb User
  detail_user user_id = do
    k ← or_raise user_id (value_error "User id is required")
    user ← get_by_id_with_relations tenant_id k
    or_raise user user_not_found
