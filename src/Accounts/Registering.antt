-- ===== src/Accounts/Registering.antt =====
-- A user from the registration to the first login.
use text.Mathlib.TextPositions.{eq_refl}
use python_codebase.Prelude.{
  ℕ, len, suc, ◌≡◌, refl, ap, arith, String, Bool, true, false, ◌&&◌, ◌||◌, Option, none, some,
  List, [], ◌∷◌, ◌++◌, inl, inr, is_blank, is_truthy, ltb, filter, any, ◌==◌, str_eq, Bool-cases,
}
use python_codebase.Result.{ok, scalar_one_or_none}
use python_codebase.Sql.{in_tenant, in_tenant_own, tenant_column}
use python_codebase.Session.{Session}
use python_codebase.Session.Atomicity.{transaction_lem}
use python_codebase.Tokens.{Platform}
use python_codebase.Users.{User, UserModel, UserDb, map_to_entity, get_by_email, get_by_id}
use python_codebase.Users.Saving.{
  new_user, new_row, default_profile, default_settings, default_security, clashes, save,
  insert_user, create_default_related_records,
}
use python_codebase.Authorization.{AuthorizationDb}
use python_codebase.Authorization.Roles.{assign_role}
use python_codebase.Accounts.{AccountDb}
use python_codebase.Accounts.Login.{Passwords}
use python_codebase.Accounts.Registration.{
  RegisterUserCommand, Registered, registrant, register_block, register,
}

-- No row has the key NULL.
filter-false : (ms : List UserModel) → filter (λ m. false) ms ≡ []
filter-false [] = refl
filter-false (m ∷ ms) = filter-false ms

filter-append :
    (p : UserModel → Bool) (ms ns : List UserModel)
    → filter p (ms ++ ns) ≡ filter p ms ++ filter p ns
filter-append p [] ns = refl
filter-append p (m ∷ ms) ns = elim (Bool-cases (p m)) [
  | inl y ↦ rw y (ap (λ xs. m ∷ xs) (filter-append p ms ns))
  | inr n ↦ rw n (filter-append p ms ns)
]

-- Where no row clashes with a user, none has its email.
without_email :
    (user : User) (k : ℕ) (q : UserModel → Bool) (ms : List UserModel)
    → any (λ m. m.id == k || clashes user m) ms ≡ false
    → filter (λ m. str_eq m.email user.email && q m) ms ≡ []
without_email user k q [] e = refl
without_email user k q (m ∷ ms) e =
    let rest : any (λ x. x.id == k || clashes user x) ms ≡ false = ground arith in
    let other : str_eq m.email user.email ≡ false = ground arith in
    rw other (without_email user k q ms rest)

-- The tables of the users after a new one is inserted with the next key.
module _ (t : ℕ) (user : User) (db : UserDb) where
  abbrev pub inserted : UserDb
  inserted = record {
    users = db.users ++ new_row user t db.next_id ∷ [];
    profiles = db.profiles ++ record { fields = default_profile db.next_id; tenant_id = t } ∷ [];
    settings = db.settings ++ record { fields = default_settings db.next_id; tenant_id = t } ∷ [];
    security = db.security ++ record { fields = default_security db.next_id; tenant_id = t } ∷ [];
    next_id = suc db.next_id;
  }

  -- The next key is new in every table.
  abbrev pub NextIsNew : Type 0
  NextIsNew =
      (any (λ m. m.fields.user_id == db.next_id) db.profiles ≡ false)
      × (any (λ m. m.fields.user_id == db.next_id) db.settings ≡ false)
      × (any (λ m. m.fields.user_id == db.next_id) db.security ≡ false)

  pub save-new :
      user.id ≡ none
      → is_truthy (some t) ≡ true
      → any (λ m. m.id == db.next_id || clashes user m) db.users ≡ false
      → NextIsNew
      → save (some t) user db ≡ (ok (map_to_entity (new_row user t db.next_id)), inserted)
  unfolding save get_by_id insert_user create_default_related_records tenant_column
      scalar_one_or_none
  save-new fresh truthy free new =
      rw (fresh, filter-false db.users, truthy, free, new.0, new.1, new.2) refl

module _ (p : Platform) (passwords : Passwords) (to_int : String → Option ℕ) (t : ℕ)
    (command : RegisterUserCommand) (salt hashed verification_token : String)
    (s : Session AccountDb) where
  abbrev pub created : UserModel
  created =
      new_row (registrant p passwords to_int (some t) command hashed) t s.working.users.next_id

  abbrev pub registered : Registered
  registered = record {
    user = map_to_entity created;
    published = record {
      user_id = p.str created.id;
      email = command.email;
      verification_token = verification_token;
    };
  }

  -- The tables after a registration, where the roles' tables are then `a`.
  abbrev pub with_user : AuthorizationDb → AccountDb
  with_user a = record s.working {
    users = inserted t (registrant p passwords to_int (some t) command hashed) s.working.users;
    authorization = a;
  }

  -- In a tenant, a registration with a password that is not blank, has eight characters or more and
  -- can be hashed, of an email and a key that no row has, where the role "user" can be assigned,
  -- returns the new user and publishes its event, and commits the user with the three default
  -- records; the user is then found by the email.
  pub register_returns :
      (a : AuthorizationDb)
      → is_truthy (some t) ≡ true
      → is_blank command.password ≡ false
      → ltb (len command.password) 8 ≡ false
      → passwords.hash salt command.password ≡ ok hashed
      → any
          (λ m.
            m.id == s.working.users.next_id
            || clashes (registrant p passwords to_int (some t) command hashed) m)
          s.working.users.users
        ≡ false
      → NextIsNew t (registrant p passwords to_int (some t) command hashed) s.working.users
      → assign_role (some t) to_int (p.str s.working.users.next_id) "user" s.working.authorization
        ≡ (ok tt, a)
      → let d = with_user a in
        (register p passwords to_int (some t) command salt verification_token s
          ≡ (ok registered, record { committed = d; working = d; is_committed = true }))
        × (get_by_email (some t) command.email d.users
            ≡ (ok (some (map_to_entity created)), d.users))
  unfolding register register_block new_user get_by_email scalar_one_or_none
  register_returns a truthy filled long hashes free new assigned =
      let user = registrant p passwords to_int (some t) command hashed in
      let users = s.working.users.users in
      let q = λ (m : UserModel). in_tenant (some t) m.tenant_id in
      let absent : filter (λ m. str_eq m.email command.email && q m) users ≡ [] =
        without_email user s.working.users.next_id q users free in
      let block : register_block p passwords to_int (some t) command hashed verification_token
            s.working
          ≡ (ok registered, with_user a) =
        rw (save-new t user s.working.users refl truthy free new, assigned) refl in
      (
        rw
            (
              filled,
              long,
              absent,
              hashes,
              transaction_lem
                  (register_block p passwords to_int (some t) command hashed verification_token) s,
              block,
            )
            refl,
        rw
            (
              filter-append (λ m. str_eq m.email command.email && q m) users (created ∷ []),
              absent,
              eq_refl command.email,
              in_tenant_own t,
            )
            refl,
      )
