-- ===== src/Lockout/Counting.antt =====
-- How one recorded failure changes the counts and the lock that the repository reads.
use mathlib.Core.List.{append-nil}
use text.Mathlib.TextPositions.{eq_refl}
use python_codebase.Prelude.{
  ℕ, ◌+◌, ◌-◌, ◌≤◌, ◌≡◌, refl, ap, String, Bool, true, false, ◌&&◌, Option, none, some, [], ◌∷◌,
  ◌++◌, filter, length, is_some, arith, inl, inr, Bool-cases, Option-cases, sym, if◌then◌else◌,
}
use python_codebase.Result.{ok}
use python_codebase.Sql.{in_tenant_own, tenant_column}
use python_codebase.Lockout.{
  LoginAttempt, Attempts, LockoutSettings, minutes, later, latest_lock, is_of, is_recent, lock_at,
  count_failures_since, record_failure, record_failed_login,
}

module _ (p : LoginAttempt → Bool) where
  pub length-filter_append :
      (db : Attempts) (a : LoginAttempt)
      → length (filter p (db ++ a ∷ [])) ≡ length (filter p db) + (if p a then 1 else 0)
  length-filter_append [] a = ground arith
  length-filter_append (x ∷ db) a = ground (arith, length-filter_append db a)

  pub filter_append :
      (db : Attempts) (a : LoginAttempt)
      → filter p (db ++ a ∷ []) ≡ filter p db ++ (if p a then a ∷ [] else [])
  filter_append [] a = refl
  filter_append (x ∷ db) a = elim (Bool-cases (p x)) [
    | inl e ↦ rw e (ap (λ xs. x ∷ xs) (filter_append db a))
    | inr e ↦ rw e (filter_append db a)
  ]

later-none : (o : Option ℕ) → later o none ≡ o
later-none none = refl
later-none (some a) = refl

later_assoc : (a b c : Option ℕ) → later a (later b c) ≡ later (later a b) c
later_assoc none b c = refl
later_assoc (some a) none c = refl
later_assoc (some a) (some b) none = refl
later_assoc (some a) (some b) (some c) = ap some (omega arith)

pub latest_lock-append :
    (db : Attempts) (a : LoginAttempt)
    → latest_lock (db ++ a ∷ []) ≡ later (latest_lock db) a.locked_until
unfolding latest_lock
latest_lock-append [] a = later-none a.locked_until
latest_lock-append (x ∷ db) a =
    rw (latest_lock-append db a) (later_assoc x.locked_until (latest_lock db) a.locked_until)

module _ (t : ℕ) (email : String) where
  abbrev pub count : ℕ → Attempts → ℕ
  count since db = length (filter (is_recent (some t) email since) db)

  abbrev pub lock : Attempts → Option ℕ
  lock db = latest_lock (filter (λ a. is_of (some t) email a && is_some a.locked_until) db)

  -- The row that a failure writes.
  abbrev pub failure : LockoutSettings → ℕ → Attempts → LoginAttempt
  failure settings now db = record {
    email = email;
    occurred_at = now;
    locked_until = lock_at settings (count (now - minutes settings.window_minutes) db) now;
    tenant_id = t;
  }

  pub record_failed_login_lem :
      (settings : LockoutSettings) (now : ℕ) (db : Attempts)
      → record_failed_login
          (record { repository = some (some t); settings = settings })
          email
          now
          db
        ≡ (ok tt, db ++ failure settings now db ∷ [])
  unfolding record_failed_login count_failures_since record_failure tenant_column
  record_failed_login_lem settings now db = refl

  pub count-failure :
      (settings : LockoutSettings) (now since : ℕ) (db : Attempts)
      → since ≤ now
      → count since (db ++ failure settings now db ∷ []) ≡ count since db + 1
  count-failure settings now since db h =
      rw
        (
          length-filter_append (is_recent (some t) email since) db (failure settings now db),
          eq_refl email,
          in_tenant_own t,
        )
        (ground arith)

  lock-append :
      (db : Attempts) (a : LoginAttempt)
      → is_of (some t) email a ≡ true
      → lock (db ++ a ∷ []) ≡ later (lock db) a.locked_until
  lock-append db a h =
      let q = λ (x : LoginAttempt). is_of (some t) email x && is_some x.locked_until in
      elim (Option-cases a.locked_until) [
        | inl e ↦
            let skipped : q a ≡ false = rw (h, e) refl in
            rw (filter_append q db a, skipped, append-nil (filter q db), e)
              (sym (later-none (lock db)))
        | inr (u, e) ↦
            let kept : q a ≡ true = rw (h, e) refl in
            rw (filter_append q db a, kept) (latest_lock-append (filter q db) a)
      ]

  -- The lock of the new row counts with those that were there.
  pub lock-failure :
      (settings : LockoutSettings) (now : ℕ) (db : Attempts)
      → lock (db ++ failure settings now db ∷ [])
        ≡ later (lock db) (lock_at settings (count (now - minutes settings.window_minutes) db) now)
  lock-failure settings now db =
      lock-append db (failure settings now db) (rw (eq_refl email, in_tenant_own t) refl)
