-- ===== src/TwoFactor/Tests.antt =====
-- A user with two backup codes.
use Prim.Native.Nat.{ℕ, zero, suc, ◌+◌}
use Prim.Native.Char.{char}
use mathlib.Core.Path.{◌≡◌, refl, ap}
use mathlib.Core.Logic.{◌≢◌}
use mathlib.Core.List.{List, [], ◌∷◌}
use mathlib.Core.Option.{none, some}
use python_codebase.Prelude.{String, true, false, str_eq, ltb, arith, if◌then◌else◌}
use python_codebase.Result.{Result, ok, err, value_error}
use python_codebase.Session.{Session}
use python_codebase.Users.{User, UserModel, UserSecurity, UserDb, map_to_entity}
use python_codebase.TwoFactor.{
  Platform, backup, verify_2fa_code, send_email_2fa_code, verify_email_2fa_code,
}
use python_codebase.TwoFactor.Codes.{colon, remove, has_char}
use python_codebase.Sql.{in_tenant}
use python_codebase.TwoFactor.Loading.{Stored}
use python_codebase.TwoFactor.Mail.{ReadsNumbers, mailed_code_lem, mailed_code_once}
use python_codebase.TwoFactor.Backup.{stored, with_codes, with_security, backup_code_spent}

-- A stand-in for pyotp: the code of a secret is the secret.
abbrev platform : Platform
platform = record {
  verify_totp = λ secret code now. str_eq secret code;
  provisioning_uri = λ secret name issuer. secret;
  str = λ n. "0";
  to_int = λ s. some 0;
}

abbrev codes : List String
codes = "a1b2c3d4" ∷ "00ff00ff" ∷ []

abbrev security : UserSecurity
security = record {
  user_id = 7;
  failed_login_attempts = 0;
  locked_until = none;
  password_changed_at = none;
  two_factor_enabled = true;
  two_factor_secret = some "JBSWY3DP";
  two_factor_backup_codes = some "a1b2c3d4,00ff00ff";
}

abbrev ann_row : UserModel
ann_row = record {
  id = 7;
  email = "ann@example.org";
  username = none;
  password_hash = "x";
  auth_provider = "local";
  external_id = none;
  status = "active";
  tenant_id = 1;
}

abbrev ann : User
ann = map_to_entity ann_row

abbrev db : UserDb
db = record {
  users = ann_row ∷ [];
  profiles = [];
  settings = [];
  security = record { fields = security; tenant_id = 1 } ∷ [];
  next_id = 8;
}

abbrev opened : Session UserDb
opened = record { committed = db; working = db; is_committed = false }

backup_code_spent_example :
    let (r, s') =
      verify_2fa_code platform
        (some 1)
        (with_security ann (with_codes security codes))
        "00ff00ff"
        backup
        5
        opened in
    let left = with_codes security (remove "00ff00ff" codes) in
    (r ≡ ok true)
    × (stored 7 s'.committed ≡ some left)
    × ((verify_2fa_code platform (some 1) (with_security ann left) "00ff00ff" backup 6 s').0
        ≢ ok true)
backup_code_spent_example =
    backup_code_spent platform (some 1) ann security (record { fields = security; tenant_id = 1 })
      "a1b2c3d4" ("00ff00ff" ∷ []) "00ff00ff" 5 6 opened refl
      (unfold has_char in ((refl, refl), ((refl, refl), tt))) refl (unfold remove in refl)

-- Numbers in tallies, which `to_int` counts.
abbrev tally : ℕ → String
tally zero = String.[]
tally (suc n) = String.◌∷◌ (char 49 tt) (tally n)

abbrev count : String → ℕ
count String.[] = 0
count (String.◌∷◌ c s) = suc (count s)

abbrev tallies : Platform
tallies = record platform { str = tally; to_int = λ s. some (count s) }

count-tally : (n : ℕ) → count (tally n) ≡ n
count-tally zero = refl
count-tally (suc n) = omega (arith, count-tally n)

tally_plain : (n : ℕ) → has_char colon (tally n) ≡ false
unfolding has_char
tally_plain zero = refl
tally_plain (suc n) = tally_plain n

tallies-ReadsNumbers : ReadsNumbers tallies
tallies-ReadsNumbers n = (ap some (count-tally n), tally_plain n)

abbrev mailer : String → String → String → Result (Unit {0})
mailer to subject code = ok tt

db-Stored : Stored (some 1) ann_row security db
unfolding in_tenant
db-Stored = (refl, (record { fields = security; tenant_id = 1 }, refl, refl))

mailed_code_once_example :
    let s1 = (send_email_2fa_code tallies (some 1) (some mailer) 7 "4f09c1" 1000 opened).1 in
    let (r, s2) = verify_email_2fa_code tallies (some 1) 7 "4f09c1" 1600 s1 in
    (r ≡ ok true)
    × (stored 7 s2.committed ≡ some (record security { two_factor_secret = none }))
    × ((verify_email_2fa_code tallies (some 1) 7 "4f09c1" 1601 s2).0
        ≡ err (value_error "No pending email verification code"))
mailed_code_once_example =
    mailed_code_once tallies tallies-ReadsNumbers (some 1) ann_row security mailer "4f09c1" 1000
      1600 opened "4f09c1" 1601 db-Stored refl (unfold has_char in refl) (omega arith)

mailed_code_lem_example :
    let (sending, s1) = send_email_2fa_code tallies (some 1) (some mailer) 7 "4f09c1" 1000 opened in
    (sending ≡ ok true)
    × ((verify_email_2fa_code tallies (some 1) 7 "4f09c1" 1601 s1).0 ≡ (
        if ltb (1000 + 600) 1601
        then err (value_error "Code has expired")
        else (if str_eq "4f09c1" "4f09c1" then ok true else err (value_error "Invalid code"))))
mailed_code_lem_example =
    mailed_code_lem tallies tallies-ReadsNumbers (some 1) ann_row security mailer "4f09c1" 1000 1601
      opened "4f09c1" db-Stored refl (unfold has_char in refl)
