-- ===== src/Lockout/Threshold.antt =====
-- When an account is locked, and when it is not.
use text.Mathlib.TextPositions.{eq_refl}
use python_codebase.Prelude.{
  ℕ, ◌+◌, ◌-◌, ◌≤◌, ◌<◌, ◌≡◌, refl, ap, ◌∙◌, String, Bool, true, false, not, Option, none, some,
  List, [], ◌∷◌, ◌++◌, leb, filter, length, arith, inl, inr, All, Bool-cases, if◌then◌else◌,
}
use python_codebase.Result.{ok, err, value_error}
use python_codebase.Sql.{in_tenant_own}
use python_codebase.Lockout.{
  LoginAttempt, Attempts, LockoutSettings, LockoutService, minutes, later, latest_lock, is_of,
  is_recent, is_locked, get_locked_until, clear, ensure_login_allowed, record_failed_login,
  record_successful_login,
}
use python_codebase.Lockout.Counting.{
  count, lock, failure, record_failed_login_lem, count-failure, lock-failure, length-filter_append,
}

pub is_locked-later :
    (o : Option ℕ) (until now : ℕ) → now < until → is_locked (later o (some until)) now ≡ true
is_locked-later none until now h = ground arith
is_locked-later (some u) until now h = ground arith

filter_disjoint :
    (p : LoginAttempt → Bool) (db : Attempts) → filter p (filter (λ a. not (p a)) db) ≡ []
filter_disjoint p [] = refl
filter_disjoint p (a ∷ db) = ground (arith, filter_disjoint p db)

filter_idem : (p : LoginAttempt → Bool) (db : Attempts) → filter p (filter p db) ≡ filter p db
filter_idem p [] = refl
filter_idem p (a ∷ db) = ground (arith, filter_idem p db)

-- A row that is recent is of the account.
recent-le-all :
    (t : Option ℕ) (email : String) (since : ℕ) (db : Attempts)
    → length (filter (is_recent t email since) db) ≤ length (filter (is_of t email) db)
recent-le-all t email since [] = omega arith
recent-le-all t email since (a ∷ db) = ground (arith, recent-le-all t email since db)

module _ (t : ℕ) (email : String) (settings : LockoutSettings) where
  abbrev pub service : LockoutService
  service = record { repository = some (some t); settings = settings }

  lock-clean : (db : Attempts) → filter (is_of (some t) email) db ≡ [] → lock t email db ≡ none
  unfolding latest_lock
  lock-clean [] h = refl
  lock-clean (a ∷ db) h = elim (Bool-cases (is_of (some t) email a)) [
    | inl e ↦ cc (rw e at h)
    | inr e ↦ rw e (lock-clean db (rw e at h))
  ]

  -- The store after failed logins at these times.
  abbrev pub fail_at : List ℕ → Attempts → Attempts
  fail_at [] db = db
  fail_at (now ∷ times) db = fail_at times (record_failed_login service email now db).1

  pub ensure-lock :
      (now : ℕ) (db : Attempts)
      → ensure_login_allowed service email now db ≡ (
          if is_locked (lock t email db) now
          then (err (value_error "Account is temporarily locked"), db)
          else (ok tt, db))
  unfolding ensure_login_allowed get_locked_until
  ensure-lock now db = ground arith

  count-fail_at :
      (since : ℕ) (times : List ℕ) (db : Attempts)
      → All (λ now. since ≤ now) times
      → count t email since (fail_at times db) ≡ count t email since db + length times
  count-fail_at since [] db h = omega arith
  count-fail_at since (now ∷ times) db h = rw (record_failed_login_lem t email settings now db) (
      omega (
        arith,
        count-fail_at since times (db ++ failure t email settings now db ∷ []) h.1,
        count-failure t email settings now since db h.0,
      ))

  -- Whatever the store holds: once the last of the failures comes, with at least `max_attempts`
  -- in the window that ends with it, a login of the account is refused until the lock's time,
  -- counted from that last failure, is over.
  pub locked_after_max_attempts :
      (times : List ℕ) (last now : ℕ) (db : Attempts)
      → All (λ time. last - minutes settings.window_minutes ≤ time) times
      → settings.max_attempts ≤ length times + 1
      → now < last + minutes settings.duration_minutes
      → let db' = (record_failed_login service email last (fail_at times db)).1 in
        ensure_login_allowed service email now db'
        ≡ (err (value_error "Account is temporarily locked"), db')
  locked_after_max_attempts times last now db recent enough early =
      let before = fail_at times db in
      let counted = count-fail_at (last - minutes settings.window_minutes) times db recent in
      let at_max : leb settings.max_attempts
            (count t email (last - minutes settings.window_minutes) before + 1)
          ≡ true =
        ground (arith, counted) in
      rw (record_failed_login_lem t email settings last before) (
        rw
          (
            ensure-lock now (before ++ failure t email settings last before ∷ []),
            lock-failure t email settings last before,
            at_max,
          )
          (rw
            (is_locked-later (lock t email before) (last + minutes settings.duration_minutes) now
              early)
            refl))

  failures-failure :
      (now : ℕ) (db : Attempts)
      → length (filter (is_of (some t) email) (db ++ failure t email settings now db ∷ []))
        ≡ length (filter (is_of (some t) email) db) + 1
  failures-failure now db =
      rw
        (
          length-filter_append (is_of (some t) email) db (failure t email settings now db),
          eq_refl email,
          in_tenant_own t,
        )
        refl

  lock-fail_at :
      (times : List ℕ) (db : Attempts)
      → lock t email db ≡ none
      → length (filter (is_of (some t) email) db) + length times < settings.max_attempts
      → lock t email (fail_at times db) ≡ none
  lock-fail_at [] db h few = h
  lock-fail_at (now ∷ times) db h few =
      let since = now - minutes settings.window_minutes in
      let below : leb settings.max_attempts (count t email since db + 1) ≡ false =
        ground (arith, recent-le-all (some t) email since db) in
      rw (record_failed_login_lem t email settings now db) (
        lock-fail_at times (db ++ failure t email settings now db ∷ [])
          (lock-failure t email settings now db ∙ rw (h, below) refl)
          (omega (arith, failures-failure now db)))

  -- From a store with no attempts of the account on record, fewer than `max_attempts` failures, at
  -- whatever times, never lock it.
  pub open_below_max_attempts :
      (times : List ℕ) (now : ℕ) (db : Attempts)
      → filter (is_of (some t) email) db ≡ []
      → length times < settings.max_attempts
      → ensure_login_allowed service email now (fail_at times db) ≡ (ok tt, fail_at times db)
  open_below_max_attempts times now db clean few =
      rw
        (
          ensure-lock now (fail_at times db),
          lock-fail_at times db (lock-clean db clean) (rw clean (omega arith)),
        )
        refl

  -- A successful login forgets the account's failures, whatever the store holds: the account is
  -- open at any time, its count starts from nothing, and the attempts of every other account stay.
  pub record_successful_login_clears :
      (now since : ℕ) (db : Attempts)
      → let db' = (record_successful_login service email db).1 in
        (ensure_login_allowed service email now db' ≡ (ok tt, db'))
        × (count t email since db' ≡ 0)
        × (filter (λ a. not (is_of (some t) email a)) db'
            ≡ filter (λ a. not (is_of (some t) email a)) db)
  unfolding record_successful_login clear
  record_successful_login_clears now since db =
      let p = is_of (some t) email in
      let left = filter (λ a. not (p a)) db in
      (
        rw (ensure-lock now left, lock-clean left (filter_disjoint p db)) refl,
        omega (arith, recent-le-all (some t) email since left, ap length (filter_disjoint p db)),
        filter_idem (λ a. not (p a)) db,
      )
