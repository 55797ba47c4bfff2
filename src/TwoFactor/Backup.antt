-- ===== src/TwoFactor/Backup.antt =====
-- A backup code lets its user in once.
use python_codebase.Prelude.{
  ℕ, ◌≡◌, ◌≢◌, refl, String, Bool, true, false, Option, none, some, List, [], ◌∷◌, map, ◌==◌,
  ==_iff, All, arith, inl, inr, Bool-cases, if◌then◌else◌,
}
use python_codebase.Result.{ok, scalar_one_or_none}
use python_codebase.Session.{Session}
use python_codebase.Session.Atomicity.{transaction_lem}
use python_codebase.Users.{
  User, UserSecurity, UserSecurityModel, UserDb, rows_of, first_fields, overwrite_security,
  save_security,
}
use python_codebase.TwoFactor.Codes.{
  join_commas, comma, remove, contains, spend, has_char, split-join_commas, All-remove,
}
use python_codebase.TwoFactor.{Platform, backup, present, verify_2fa_code}

-- The security record that is stored for a user.
abbrev pub stored : ℕ → UserDb → Option UserSecurity
stored user_id db = first_fields (rows_of user_id db.security)

abbrev pub is_empty : String → Bool
is_empty String.[] = true
is_empty (String.◌∷◌ c s) = false

-- A backup code: neither empty nor with a comma.
abbrev pub IsCode : String → Type 0
IsCode c = (has_char comma c ≡ false) × (is_empty c ≡ false)

-- The tables after a save over a row.
abbrev pub saved : UserSecurity → UserDb → UserDb
saved security db = record db { security = map (overwrite_security security) db.security }

pub rows_of-overwrite :
    (security : UserSecurity) (ms : List UserSecurityModel)
    → rows_of security.user_id (map (overwrite_security security) ms)
      ≡ map (overwrite_security security) (rows_of security.user_id ms)
rows_of-overwrite security [] = refl
rows_of-overwrite security (m ∷ ms) = ground (arith, rows_of-overwrite security ms)

pub user_id-rows_of :
    (k : ℕ) (ms : List UserSecurityModel) (m : UserSecurityModel) (rest : List UserSecurityModel)
    → rows_of k ms ≡ m ∷ rest
    → m.fields.user_id ≡ k
user_id-rows_of k [] m rest e = cc
user_id-rows_of k (x ∷ ms) m rest e = elim (Bool-cases (x.fields.user_id == k)) [
  | inl here ↦ ground (arith, e)
  | inr there ↦ user_id-rows_of k ms m rest (rw there at e)
]

module _ (t : Option ℕ) (security : UserSecurity) (db : UserDb) (m : UserSecurityModel)
    (only : rows_of security.user_id db.security ≡ m ∷ []) where
  pub save_existing : save_security t security db ≡ (ok tt, saved security db)
  unfolding save_security scalar_one_or_none
  save_existing = rw only refl

  pub stored-saved : stored security.user_id (saved security db) ≡ some security
  stored-saved =
      let here : (m.fields.user_id == security.user_id) ≡ true =
        (==_iff m.fields.user_id security.user_id).1
          (user_id-rows_of security.user_id db.security m [] only) in
      rw (rows_of-overwrite security db.security, only, here) refl

pub present-join_commas :
    (x : String) (xs : List String)
    → is_empty x ≡ false
    → present (some (join_commas (x ∷ xs))) ≡ some (join_commas (x ∷ xs))
unfolding join_commas
present-join_commas String.[] xs h = cc
present-join_commas (String.◌∷◌ c x) [] h = refl
present-join_commas (String.◌∷◌ c x) (y ∷ ys) h = refl

All-no_comma : (cs : List String) → All IsCode cs → All (λ c. has_char comma c ≡ false) cs
All-no_comma [] h = tt
All-no_comma (c ∷ cs) h = (h.0.0, All-no_comma cs h.1)

pub spend-join_commas :
    (x : String) (xs : List String) (code : String)
    → All IsCode (x ∷ xs)
    → spend (join_commas (x ∷ xs)) code
      ≡ (if contains code (x ∷ xs) then some (join_commas (remove code (x ∷ xs))) else none)
unfolding spend
spend-join_commas x xs code h = rw (split-join_commas x xs h.0.0 (All-no_comma xs h.1)) refl

abbrev pub with_codes : UserSecurity → List String → UserSecurity
with_codes security cs = record security { two_factor_backup_codes = some (join_commas cs) }

abbrev pub with_security : User → UserSecurity → User
with_security user security = record user { security = some security }

module _ (p : Platform) (t : Option ℕ) (user : User) (security : UserSecurity) (code : String)
    (now : ℕ) (s : Session UserDb) where
  refused :
      (cs : List String)
      → All IsCode cs
      → contains code cs ≡ false
      → (verify_2fa_code p t (with_security user (with_codes security cs)) code backup now s).0
        ≢ ok true
  unfolding verify_2fa_code join_commas
  refused [] h gone = λ e. cc
  refused (y ∷ ys) h gone =
      rw (present-join_commas y ys h.0.1, spend-join_commas y ys code h, gone) (λ e. cc)

-- Where the user's record, of which one row is stored, holds the codes `cs`, without empty ones,
-- commas or repetitions: a code among them is accepted, the codes that are then stored are the
-- others, and the same code is not accepted again, at whatever time.
pub backup_code_spent :
    (p : Platform) (t : Option ℕ) (user : User) (security : UserSecurity) (m : UserSecurityModel)
    (x : String) (xs : List String) (code : String) (now later : ℕ) (s : Session UserDb)
    → rows_of security.user_id s.working.security ≡ m ∷ []
    → All IsCode (x ∷ xs)
    → contains code (x ∷ xs) ≡ true
    → contains code (remove code (x ∷ xs)) ≡ false
    → let (r, s') =
        verify_2fa_code p t (with_security user (with_codes security (x ∷ xs))) code backup now s in
      let left = with_codes security (remove code (x ∷ xs)) in
      (r ≡ ok true)
      × (stored security.user_id s'.committed ≡ some left)
      × ((verify_2fa_code p t (with_security user left) code backup later s').0 ≢ ok true)
unfolding verify_2fa_code
backup_code_spent p t user security m x xs code now later s only h here gone =
    let left = with_codes security (remove code (x ∷ xs)) in
    let again =
      refused p t user security code later
        (record {
          committed = saved left s.working;
          working = saved left s.working;
          is_committed = true;
        })
        (remove code (x ∷ xs)) (All-remove IsCode code (x ∷ xs) h) gone in
    rw
      (
        present-join_commas x xs h.0.1,
        spend-join_commas x xs code h,
        here,
        transaction_lem (save_security t left) s,
        save_existing t left s.working m only,
      )
      (refl, stored-saved t left s.working m only, unfold verify_2fa_code in again)
