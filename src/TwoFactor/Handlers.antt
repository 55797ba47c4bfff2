-- ===== src/TwoFactor/Handlers.antt =====
-- The handlers of src/modules/user/application/auth/two_factor/handler.py over the service.
use python_codebase.Prelude.{ℕ, String, Bool, Option, List}
use python_codebase.Result.{Result, value_error}
use python_codebase.State.{or_raise, ◌>>=◌}
use python_codebase.Session.{Exec, lift}
use python_codebase.Users.{UserDb, get_by_id_with_relations}
use python_codebase.TwoFactor.{
  Platform, Method, TotpSetup, setup_totp, verify_totp_setup, disable_totp, send_email_2fa_code,
  verify_email_2fa_code, verify_2fa_code, regenerate_backup_codes,
}

pub record VerifyCommand : Type 0 where
  pub user_id : ℕ
  pub code : String

pub record RegenerateBackupCodesCommand : Type 0 where
  pub user_id : ℕ
  pub verify_code : String

pub record Verify2faCommand : Type 0 where
  pub user_id : ℕ
  pub code : String
  pub method : Method

module _ (p : Platform) (tenant_id : Option ℕ) where
  unfoldable pub handle_setup_totp : String → ℕ → String → Exec UserDb TotpSetup
  handle_setup_totp jwt_issuer user_id secret = setup_totp p tenant_id jwt_issuer user_id secret

  unfoldable pub handle_verify_totp_setup :
      VerifyCommand → ℕ → List String → Exec UserDb (List String)
  handle_verify_totp_setup command now codes =
      verify_totp_setup p tenant_id command.user_id command.code now codes

  unfoldable pub handle_disable_totp : VerifyCommand → ℕ → Exec UserDb Bool
  handle_disable_totp command now = disable_totp p tenant_id command.user_id command.code now

  unfoldable pub handle_send_email_2fa_code :
      Option (String → String → String → Result (Unit {0})) → ℕ → String → ℕ → Exec UserDb Bool
  handle_send_email_2fa_code email_service user_id code now =
      send_email_2fa_code p tenant_id email_service user_id code now

  unfoldable pub handle_verify_email_2fa_code : VerifyCommand → ℕ → Exec UserDb Bool
  handle_verify_email_2fa_code command now =
      verify_email_2fa_code p tenant_id command.user_id command.code now

  unfoldable pub handle_regenerate_backup_codes :
      RegenerateBackupCodesCommand → ℕ → List String → Exec UserDb (List String)
  handle_regenerate_backup_codes command now codes =
      regenerate_backup_codes p tenant_id command.user_id command.verify_code now codes

  unfoldable pub handle_verify_2fa : Verify2faCommand → ℕ → Exec UserDb Bool
  handle_verify_2fa command now = do
    found ← lift (get_by_id_with_relations tenant_id command.user_id)
    user ← or_raise found (value_error "User not found")
    verify_2fa_code p tenant_id user command.code command.method now
