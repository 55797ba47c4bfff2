-- ===== src/TwoFactor.antt =====
-- `TwoFactorAuthService` (src/core/security/two_factor_auth.py).
-- `time.time()` is whole seconds; the drawn secrets and codes are arguments.
pub mod Codes
pub mod Backup
pub mod Loading
pub mod Mail
pub mod Handlers
mod Tests
use Prim.Native.String.{◌++◌ as append}
use python_codebase.Prelude.{
  ℕ, ◌+◌, String, Bool, true, false, not, ◌&&◌, Option, none, some, List, [], ◌∷◌, ltb, str_eq,
  if◌then◌else◌,
}
use python_codebase.Result.{Result, value_error}
use python_codebase.State.{pure, raise, from_result, modify, raise_if, or_raise, ◌>>=◌, ◌>>◌}
use python_codebase.Session.{Exec, Query, commit, with_unit, lift, transaction}
use python_codebase.Users.{User, UserSecurity, UserDb, get_by_id_with_relations, save_security}
use python_codebase.TwoFactor.Codes.{comma, colon, between, split, join_commas, contains, spend}

-- pyotp, and Python's `str` and `int` of a number; `to_int` is none for its ValueError.
pub record Platform : Type 0 where
  -- `pyotp.TOTP(secret).verify(code, valid_window=1)` at a time
  pub verify_totp : String → String → ℕ → Bool
  -- secret, name, issuer
  pub provisioning_uri : String → String → String → String
  pub str : ℕ → String
  pub to_int : String → Option ℕ

pub record TotpSetup : Type 0 where
  pub secret : String
  pub uri : String
  pub qr_code_data : String

-- `method` of `verify_2fa_code`; `other` is any other text.
pub data Method : Type 0 where
  totp backup email other : Method

-- A text that is true in Python: neither None nor empty.
abbrev pub present : Option String → Option String
present none = none
present (some String.[]) = none
present (some (String.◌∷◌ c s)) = some (String.◌∷◌ c s)

abbrev is_present : Option String → Bool
is_present none = false
is_present (some String.[]) = false
is_present (some (String.◌∷◌ c s)) = true

abbrev or_default : String → String → String
or_default String.[] default = default
or_default (String.◌∷◌ c s) default = String.◌∷◌ c s

abbrev pub concat : List String → String
concat [] = ""
concat (s ∷ rest) = append s (concat rest)

abbrev pub email_prefix : String
email_prefix = "email_code"

-- `f"email_code:{code}:{timestamp}"`
unfoldable pub email_secret : String → String → String
email_secret code timestamp = between colon email_prefix (between colon code timestamp)

abbrev pub parts3 : List String → Option (String × String × String)
parts3 (a ∷ b ∷ c ∷ []) = some (a, b, c)
parts3 _ = none

-- `stored.startswith("email_code:")`, of a text that is split at its colons: there is a colon, and
-- what stands before the first is the prefix.
abbrev pub starts_with_prefix : List String → Bool
starts_with_prefix (a ∷ b ∷ rest) = str_eq a email_prefix
starts_with_prefix _ = false

-- Is the code of a disable a backup code?
abbrev pub is_backup_code : Option String → String → Bool
is_backup_code none code = false
is_backup_code (some codes) code = contains code (split comma codes)

module _ (tenant_id : Option ℕ) where
  -- The first lines of most methods.
  unfoldable pub load : ℕ → Query UserDb (User × UserSecurity)
  load user_id = do
    found ← get_by_id_with_relations tenant_id user_id
    user ← or_raise found (value_error "User not found")
    security ← or_raise user.security (value_error "User not found")
    pure (user, security)

module _ (p : Platform) where
  abbrev pub is_totp_code : Option String → String → ℕ → Bool
  is_totp_code none code now = false
  is_totp_code (some secret) code now = p.verify_totp secret code now

  -- The checks of `verify_email_2fa_code` on the stored text.
  unfoldable pub check_email_code : Option String → String → ℕ → Query UserDb (Unit {0})
  check_email_code stored_secret code now = do
    stored ← or_raise (present stored_secret) (value_error "No pending email verification code")
    raise_if (not (starts_with_prefix (split colon stored)))
        (value_error "No pending email verification code")
    parts ← or_raise (parts3 (split colon stored)) (value_error "Invalid code format")
    timestamp ← or_raise (p.to_int parts.2) (value_error "invalid literal for int() with base 10")
    raise_if (ltb (timestamp + 600) now) (value_error "Code has expired")
    raise_if (not (str_eq parts.1 code)) (value_error "Invalid code")

  module _ (tenant_id : Option ℕ) where
    unfoldable pub setup_totp : String → ℕ → String → Exec UserDb TotpSetup
    setup_totp jwt_issuer user_id secret = transaction (do
      loaded ← load tenant_id user_id
      save_security tenant_id
          (record loaded.1 { two_factor_secret = some secret; two_factor_enabled = false })
      let issuer = or_default jwt_issuer "TodoApp" in
          pure (record {
            secret = secret;
            uri = p.provisioning_uri secret loaded.0.email issuer;
            qr_code_data = concat (
                "otpauth://totp/" ∷ issuer ∷ ":" ∷ loaded.0.email ∷ "?secret=" ∷ secret ∷ "&issuer="
                ∷ issuer ∷ []);
          }))

    unfoldable pub verify_totp_setup : ℕ → String → ℕ → List String → Exec UserDb (List String)
    verify_totp_setup user_id code now backup_codes = transaction (do
      loaded ← load tenant_id user_id
      secret ←
          or_raise (present loaded.1.two_factor_secret)
            (value_error "TOTP not set up. Call setup_totp first.")
      raise_if (not (p.verify_totp secret code now)) (value_error "Invalid TOTP code")
      save_security tenant_id (record loaded.1 {
        two_factor_enabled = true;
        two_factor_backup_codes = some (join_commas backup_codes);
      })
      pure backup_codes)

    unfoldable pub disable_totp : ℕ → String → ℕ → Exec UserDb Bool
    disable_totp user_id code now = transaction (do
      loaded ← load tenant_id user_id
      raise_if (not loaded.1.two_factor_enabled) (value_error "2FA is not enabled")
      raise_if
          (if is_backup_code (present loaded.1.two_factor_backup_codes) code
            then false
            else not (is_totp_code (present loaded.1.two_factor_secret) code now))
          (value_error "Invalid verification code")
      save_security tenant_id (record loaded.1 {
        two_factor_enabled = false;
        two_factor_secret = none;
        two_factor_backup_codes = none;
      })
      pure true)

    -- `send_email` takes the address, the subject and the code that the mail shows; it may raise,
    -- after the commit.
    abbrev send :
        Option (String → String → String → Result (Unit {0})) → ℕ → String → ℕ → Exec UserDb Bool
    send none user_id code now = raise (value_error "Email service not configured")
    send (some send_email) user_id code now = with_unit (do
      found ← lift (get_by_id_with_relations tenant_id user_id)
      user ← or_raise found (value_error "User not found")
      security ← or_raise user.security (value_error "User security not found")
      lift (
          save_security tenant_id
            (record security { two_factor_secret = some (email_secret code (p.str now)) }))
      modify commit
      from_result (send_email user.email "Your Verification Code" code)
      pure true)

    unfoldable pub send_email_2fa_code :
        Option (String → String → String → Result (Unit {0})) → ℕ → String → ℕ → Exec UserDb Bool
    send_email_2fa_code = send

    unfoldable pub verify_email_2fa_code : ℕ → String → ℕ → Exec UserDb Bool
    verify_email_2fa_code user_id code now = transaction (do
      loaded ← load tenant_id user_id
      check_email_code loaded.1.two_factor_secret code now
      save_security tenant_id (record loaded.1 { two_factor_secret = none })
      pure true)

    abbrev by_totp : UserSecurity → String → ℕ → Exec UserDb Bool
    by_totp security code now = do
      secret ←
          or_raise
            (if security.two_factor_enabled then present security.two_factor_secret else none)
            (value_error "TOTP 2FA is not enabled")
      pure (p.verify_totp secret code now)

    abbrev store_spent : UserSecurity → Option String → Exec UserDb Bool
    store_spent security none = pure false
    store_spent security (some codes) = do
      transaction
          (save_security tenant_id (record security { two_factor_backup_codes = some codes }))
      pure true

    abbrev by_backup : UserSecurity → String → Exec UserDb Bool
    by_backup security code = do
      codes ←
          or_raise (present security.two_factor_backup_codes)
            (value_error "No backup codes available")
      store_spent security (spend codes code)

    -- A user without an id is not found.
    abbrev by_email : Option ℕ → String → ℕ → Exec UserDb Bool
    by_email none code now = raise (value_error "User not found")
    by_email (some user_id) code now = verify_email_2fa_code user_id code now

    abbrev by_method : Method → User → UserSecurity → String → ℕ → Exec UserDb Bool
    by_method totp user security code now = by_totp security code now
    by_method backup user security code now = by_backup security code
    by_method email user security code now = by_email user.id code now
    by_method other user security code now = pure false

    unfoldable pub verify_2fa_code : User → String → Method → ℕ → Exec UserDb Bool
    verify_2fa_code user code method now = do
      security ← or_raise user.security (value_error "User security not found")
      by_method method user security code now

    unfoldable pub regenerate_backup_codes :
        ℕ → String → ℕ → List String → Exec UserDb (List String)
    regenerate_backup_codes user_id verify_code now backup_codes = transaction (do
      loaded ← load tenant_id user_id
      raise_if (not loaded.1.two_factor_enabled)
          (value_error "2FA must be enabled to regenerate backup codes")
      raise_if
          (is_present loaded.1.two_factor_secret
            && not (is_totp_code (present loaded.1.two_factor_secret) verify_code now))
          (value_error "Invalid TOTP code")
      save_security tenant_id
          (record loaded.1 { two_factor_backup_codes = some (join_commas backup_codes) })
      pure backup_codes)
