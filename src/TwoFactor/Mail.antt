-- ===== src/TwoFactor/Mail.antt =====
-- A mailed code, from its sending to its verification.
use text.Mathlib.TextPositions.{eq_refl}
use python_codebase.Prelude.{
  ℕ, ◌+◌, ◌≤◌, ◌≡◌, refl, ap, ◌∙◌, String, true, false, Option, none, some, [], ◌∷◌, ltb, arith,
  inl, inr, Bool-cases, if◌then◌else◌, str_eq,
}
use python_codebase.Result.{Result, ok, err, value_error}
use python_codebase.Session.{Session, with_unit}
use python_codebase.Session.Atomicity.{transaction_lem}
use python_codebase.Users.{UserModel, UserSecurity, UserDb}
use python_codebase.TwoFactor.Codes.{colon, between, split, has_char, split-between, split_word}
use python_codebase.TwoFactor.{
  Platform, present, email_secret, email_prefix, send_email_2fa_code, check_email_code,
  verify_email_2fa_code,
}
use python_codebase.TwoFactor.Backup.{stored, saved}
use python_codebase.TwoFactor.Loading.{
  Stored, get_by_id-Stored, load-Stored, user_id-Stored, Stored-saved, save-Stored,
}

-- What the service relies on: `int` reads back what `str` writes, which has no colon.
abbrev pub ReadsNumbers : Platform → Type 0
ReadsNumbers p = (n : ℕ) → (p.to_int (p.str n) ≡ some n) × (has_char colon (p.str n) ≡ false)

parts-email_secret :
    (code timestamp : String)
    → has_char colon code ≡ false
    → has_char colon timestamp ≡ false
    → split colon (email_secret code timestamp) ≡ email_prefix ∷ code ∷ timestamp ∷ []
unfolding email_secret
parts-email_secret code timestamp h k =
    split-between colon email_prefix (between colon code timestamp) (unfold has_char in refl)
    ∙ ap (λ rest. email_prefix ∷ rest)
        (split-between colon code timestamp h
          ∙ ap (λ rest. code ∷ rest) (split_word colon timestamp k))

present-email_secret :
    (code timestamp : String)
    → present (some (email_secret code timestamp)) ≡ some (email_secret code timestamp)
unfolding email_secret
present-email_secret code timestamp = refl

module _ (p : Platform) (reads : ReadsNumbers p) where
  check_sent :
      (code answer : String) (sent now : ℕ) (db : UserDb)
      → has_char colon code ≡ false
      → check_email_code p (some (email_secret code (p.str sent))) answer now db ≡ (
          if ltb (sent + 600) now
          then (err (value_error "Code has expired"), db)
          else (if str_eq code answer then (ok tt, db) else (err (value_error "Invalid code"), db)))
  unfolding check_email_code
  check_sent code answer sent now db plain =
      rw
        (
          present-email_secret code (p.str sent),
          parts-email_secret code (p.str sent) plain (reads sent).1,
          (reads sent).0,
        )
        (elim (Bool-cases (ltb (sent + 600) now)) [
          | inl late ↦ rw late refl
          | inr early ↦ elim (Bool-cases (str_eq code answer)) [
            | inl same ↦ rw (early, same) refl
            | inr other ↦ rw (early, other) refl
          ]
        ])

-- What a send leaves, where the mail goes out.
abbrev mailed : Session UserDb → UserSecurity → Session UserDb
mailed s new = record {
  committed = saved new s.working;
  working = saved new s.working;
  is_committed = true;
}

module _ (p : Platform) (reads : ReadsNumbers p) (t : Option ℕ) (u : UserModel)
    (security : UserSecurity) (send_email : String → String → String → Result (Unit {0}))
    (code : String) (sent now : ℕ) (s : Session UserDb) where
  -- The record with a mailed code.
  abbrev pending : UserSecurity
  pending = record security { two_factor_secret = some (email_secret code (p.str sent)) }

  abbrev cleared : UserSecurity
  cleared = record security { two_factor_secret = none }

  send-Stored :
      Stored t u security s.working
      → send_email u.email "Your Verification Code" code ≡ ok tt
      → send_email_2fa_code p t (some send_email) u.id code sent s ≡ (ok true, mailed s pending)
  unfolding send_email_2fa_code with_unit
  send-Stored h goes =
      rw
        (
          get_by_id-Stored t u security s.working h,
          h.1.1,
          h.1.2,
          save-Stored t u security pending s.working h (user_id-Stored t u security s.working h),
          goes,
        )
        refl

  verify-pending :
      (answer : String)
      → Stored t u security s.working
      → has_char colon code ≡ false
      → let s1 = mailed s pending in
        verify_email_2fa_code p t u.id answer now s1 ≡ (
          if ltb (sent + 600) now
          then (err (value_error "Code has expired"), record s1 { is_committed = false })
          else (if str_eq code answer
              then (ok true, mailed s1 cleared)
              else (err (value_error "Invalid code"), record s1 { is_committed = false })))
  unfolding verify_email_2fa_code
  verify-pending answer h plain =
      let db = saved pending s.working in
      let same = user_id-Stored t u security s.working h in
      let h1 = Stored-saved t u security pending s.working h same in
      rw
        (
          transaction_lem _ (mailed s pending),
          load-Stored t u pending db h1,
          check_sent p reads code answer sent now db plain,
        )
        (elim (Bool-cases (ltb (sent + 600) now)) [
          | inl late ↦ rw late refl
          | inr early ↦ elim (Bool-cases (str_eq code answer)) [
            | inl right ↦ rw (early, right, save-Stored t u pending cleared db h1 same) refl
            | inr wrong ↦ rw (early, wrong) refl
          ]
        ])

  -- Where the service holds the user and one security record, and the mail with the code goes out,
  -- the code, which has no colon, is the one answer that is accepted, up to 600 seconds after it
  -- was drawn and at no later time.
  pub mailed_code_lem :
      (answer : String)
      → Stored t u security s.working
      → send_email u.email "Your Verification Code" code ≡ ok tt
      → has_char colon code ≡ false
      → let (sending, s1) = send_email_2fa_code p t (some send_email) u.id code sent s in
        (sending ≡ ok true)
        × ((verify_email_2fa_code p t u.id answer now s1).0 ≡ (
            if ltb (sent + 600) now
            then err (value_error "Code has expired")
            else (if str_eq code answer then ok true else err (value_error "Invalid code"))))
  mailed_code_lem answer h goes plain = rw (send-Stored h goes) (
    refl,
    rw (verify-pending answer h plain) (elim (Bool-cases (ltb (sent + 600) now)) [
      | inl late ↦ rw late refl
      | inr early ↦ elim (Bool-cases (str_eq code answer)) [
        | inl right ↦ rw (early, right) refl
        | inr wrong ↦ rw (early, wrong) refl
      ]
    ]),
  )

  verify-cleared :
      (answer : String) (later : ℕ) (s2 : Session UserDb)
      → Stored t u cleared s2.working
      → (verify_email_2fa_code p t u.id answer later s2).0
        ≡ err (value_error "No pending email verification code")
  unfolding verify_email_2fa_code check_email_code
  verify-cleared answer later s2 h =
      rw (transaction_lem _ s2, load-Stored t u cleared s2.working h) refl

  -- A mailed code that is verified in time is used up: whatever is answered later is refused. The
  -- record that is then stored has no secret, and is otherwise the one before the sending: an
  -- enabled two-factor authentication stays enabled, without the secret of its authenticator app.
  pub mailed_code_once :
      (answer : String) (later : ℕ)
      → Stored t u security s.working
      → send_email u.email "Your Verification Code" code ≡ ok tt
      → has_char colon code ≡ false
      → now ≤ sent + 600
      → let s1 = (send_email_2fa_code p t (some send_email) u.id code sent s).1 in
        let (r, s2) = verify_email_2fa_code p t u.id code now s1 in
        (r ≡ ok true)
        × (stored u.id s2.committed ≡ some (record security { two_factor_secret = none }))
        × ((verify_email_2fa_code p t u.id answer later s2).0
            ≡ err (value_error "No pending email verification code"))
  mailed_code_once answer later h goes plain intime =
      let db = saved pending s.working in
      let same = user_id-Stored t u security s.working h in
      let h1 = Stored-saved t u security pending s.working h same in
      let h2 = Stored-saved t u pending cleared db h1 same in
      let early : ltb (sent + 600) now ≡ false = ground arith in
      let s2 = mailed (mailed s pending) cleared in
      rw (send-Stored h goes) (
        rw (verify-pending code h plain, early, eq_refl code)
          (refl, rw (h2.1.1, h2.1.2) refl, verify-cleared answer later s2 h2))
