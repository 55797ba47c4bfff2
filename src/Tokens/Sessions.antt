-- ===== src/Tokens/Sessions.antt =====
-- The table of sessions: what a hash finds, under the writes of the repository.
use mathlib.Core.Path.{subst}
use python_codebase.Prelude.{
  ℕ, ◌≡◌, ◌≢◌, refl, ap, sym, ◌∙◌, String, Bool, false, ◌&&◌, List, [], ◌∷◌, ◌++◌, map, ◌⊎◌, inl,
  inr, filter, any, All, ◌==◌, str_eq, eq_iff, arith, Bool-cases,
}
use python_codebase.Tokens.{RefreshToken, UserSession, overwrite}

abbrev head_or : UserSession → List UserSession → UserSession
head_or d [] = d
head_or d (x ∷ xs) = x

pub cons-injective :
    (x y : UserSession) (xs ys : List UserSession)
    → ◌≡◌ {A = List UserSession} (x ∷ xs) (y ∷ ys)
    → x ≡ y
cons-injective x y xs ys e = ap (head_or x) e

-- The rows with a hash, and those with a key.
abbrev pub with_hash : String → List UserSession → List UserSession
with_hash h = filter (λ m. str_eq m.refresh_token_hash h)

abbrev pub with_id : ℕ → List UserSession → List UserSession
with_id k = filter (λ m. m.id == k)

-- The two unique indexes.
abbrev pub HasUniqueKeys : List UserSession → Type 0
HasUniqueKeys [] = Unit
HasUniqueKeys (m ∷ ms) =
    All (λ (x : UserSession). (x.id ≢ m.id) × (x.refresh_token_hash ≢ m.refresh_token_hash)) ms
    × HasUniqueKeys ms

without_id :
    (m : UserSession) (ms : List UserSession)
    → All (λ (x : UserSession). (x.id ≢ m.id) × (x.refresh_token_hash ≢ m.refresh_token_hash)) ms
    → with_id m.id ms ≡ []
without_id m [] h = refl
without_id m (x ∷ ms) h = ground (arith, without_id m ms h.1)

without_hash :
    (m : UserSession) (ms : List UserSession)
    → All (λ (x : UserSession). (x.id ≢ m.id) × (x.refresh_token_hash ≢ m.refresh_token_hash)) ms
    → with_hash m.refresh_token_hash ms ≡ []
without_hash m [] h = refl
without_hash m (x ∷ ms) h =
    ground (arith, without_hash m ms h.1, eq_iff x.refresh_token_hash m.refresh_token_hash)

-- A row that is the only one with its hash and the only one with its key.
abbrev pub Only : String → UserSession → List UserSession → Type 0
Only h m ms = (with_hash h ms ≡ m ∷ []) × (with_id m.id ms ≡ m ∷ [])

-- What all rows have, those with a hash have.
pub All-with_hash :
    (P : UserSession → Type 0) (h : String) (ms : List UserSession) (x : UserSession)
    (rest : List UserSession)
    → All P ms
    → with_hash h ms ≡ x ∷ rest
    → P x
All-with_hash P h [] x rest a e = cc
All-with_hash P h (m ∷ ms) x rest a e = elim (Bool-cases (str_eq m.refresh_token_hash h)) [
  | inl here ↦
      let first : m ≡ x = cons-injective m x (with_hash h ms) rest (rw here at e) in
      subst P first a.0
  | inr there ↦ All-with_hash P h ms x rest a.1 (rw there at e)
]

pub with_hash-cases :
    (h : String) (ms : List UserSession)
    → HasUniqueKeys ms
    → (with_hash h ms ≡ []) ⊎ ((m : UserSession) × Only h m ms)
with_hash-cases h [] u = inl refl
with_hash-cases h (m ∷ ms) u = elim (Bool-cases (str_eq m.refresh_token_hash h)) [
  | inl here ↦
      let same : m.refresh_token_hash ≡ h = (eq_iff m.refresh_token_hash h).0 here in
      inr (
        m,
        (
          rw here (ap (λ xs. m ∷ xs) (rw same at (without_hash m ms u.0))),
          ground (arith, without_id m ms u.0),
        ),
      )
  | inr there ↦ elim (with_hash-cases h ms u.1) [
    | inl absent ↦ inl (rw there absent)
    | inr (x, only) ↦
        let apart : x.id ≢ m.id =
          (All-with_hash
            (λ (y : UserSession). (y.id ≢ m.id) × (y.refresh_token_hash ≢ m.refresh_token_hash)) h
            ms x [] u.0 only.0).0 in
        inr (x, (rw there only.0, ground (arith, only.1)))
  ]
]

keep_others :
    (token : RefreshToken) (t k : ℕ) (ms : List UserSession)
    → with_id k ms ≡ []
    → map (overwrite token t k) ms ≡ ms
keep_others token t k [] e = refl
keep_others token t k (m ∷ ms) e = elim (Bool-cases (m.id == k)) [
  | inl here ↦ cc (rw here at e)
  | inr there ↦ rw there (ap (λ xs. m ∷ xs) (keep_others token t k ms (rw there at e)))
]

keep_found :
    (token : RefreshToken) (t k : ℕ) (h : String) (ms : List UserSession)
    → with_id k ms ≡ []
    → map (overwrite token t k) (with_hash h ms) ≡ with_hash h ms
keep_found token t k h [] e = refl
keep_found token t k h (m ∷ ms) e = elim (Bool-cases (m.id == k)) [
  | inl here ↦ cc (rw here at e)
  | inr there ↦ elim (Bool-cases (str_eq m.refresh_token_hash h)) [
    | inl y ↦ rw y (rw there (ap (λ xs. m ∷ xs) (keep_found token t k h ms (rw there at e))))
    | inr n ↦ rw n (keep_found token t k h ms (rw there at e))
  ]
]

-- Writing over the row with a key, with the hash that it has, keeps what each hash finds.
pub with_hash-overwrite :
    (token : RefreshToken) (t k : ℕ) (h : String) (m : UserSession) (ms : List UserSession)
    → with_id k ms ≡ m ∷ []
    → token.token_hash ≡ m.refresh_token_hash
    → with_hash h (map (overwrite token t k) ms) ≡ map (overwrite token t k) (with_hash h ms)
with_hash-overwrite token t k h m [] e same = refl
with_hash-overwrite token t k h m (x ∷ ms) e same = elim (Bool-cases (x.id == k)) [
  | inl here ↦
      let rest : with_id k ms ≡ [] = ground (arith, rw here at e) in
      let hash : x.refresh_token_hash ≡ m.refresh_token_hash =
        ap (λ (y : UserSession). y.refresh_token_hash)
          (cons-injective x m (with_id k ms) [] (rw here at e)) in
      let equal : token.token_hash ≡ x.refresh_token_hash = same ∙ sym hash in
      let hashes : str_eq token.token_hash h ≡ str_eq x.refresh_token_hash h =
        ap (λ z. str_eq z h) equal in
      elim (Bool-cases (str_eq x.refresh_token_hash h)) [
        | inl y ↦
            rw (here, keep_others token t k ms rest, hashes ∙ y, y)
              (rw (here, keep_found token t k h ms rest) refl)
        | inr n ↦
            rw (here, keep_others token t k ms rest, hashes ∙ n, n)
              (sym (keep_found token t k h ms rest))
      ]
  | inr there ↦ elim (Bool-cases (str_eq x.refresh_token_hash h)) [
    | inl y ↦
        rw (there, y)
          (rw there (ap (λ xs. x ∷ xs) (with_hash-overwrite token t k h m ms (rw there at e) same)))
    | inr n ↦ rw (there, n) (with_hash-overwrite token t k h m ms (rw there at e) same)
  ]
]

pub filter-with_hash :
    (h : String) (p : UserSession → Bool) (ms : List UserSession)
    → filter (λ m. str_eq m.refresh_token_hash h && p m) ms ≡ filter p (with_hash h ms)
filter-with_hash h p [] = refl
filter-with_hash h p (m ∷ ms) = elim (Bool-cases (str_eq m.refresh_token_hash h)) [
  | inl y ↦ rw y (elim (Bool-cases (p m)) [
    | inl q ↦ rw q (ap (λ xs. m ∷ xs) (filter-with_hash h p ms))
    | inr q ↦ rw q (filter-with_hash h p ms)
  ])
  | inr n ↦ rw n (filter-with_hash h p ms)
]

pub none-All :
    (n : String) (ms : List UserSession)
    → any (λ x. str_eq x.refresh_token_hash n) ms ≡ false
    → All (λ (x : UserSession). str_eq x.refresh_token_hash n ≡ false) ms
none-All n [] e = tt
none-All n (m ∷ ms) e = elim (Bool-cases (str_eq m.refresh_token_hash n)) [
  | inl y ↦ cc (rw y at e)
  | inr other ↦ (other, none-All n ms (rw other at e))
]

pub without-hash :
    (n : String) (ms : List UserSession)
    → any (λ x. str_eq x.refresh_token_hash n) ms ≡ false
    → with_hash n ms ≡ []
without-hash n [] e = refl
without-hash n (m ∷ ms) e = elim (Bool-cases (str_eq m.refresh_token_hash n)) [
  | inl y ↦ cc (rw y at e)
  | inr other ↦ rw other (without-hash n ms (rw other at e))
]

pub hash-with_hash :
    (h : String) (ms : List UserSession) (m : UserSession) (rest : List UserSession)
    → with_hash h ms ≡ m ∷ rest
    → m.refresh_token_hash ≡ h
hash-with_hash h [] m rest e = cc
hash-with_hash h (x ∷ ms) m rest e = elim (Bool-cases (str_eq x.refresh_token_hash h)) [
  | inl y ↦
      ap (λ (z : UserSession). z.refresh_token_hash)
        (sym (cons-injective x m (with_hash h ms) rest (rw y at e)))
      ∙ (eq_iff x.refresh_token_hash h).0 y
  | inr n ↦ hash-with_hash h ms m rest (rw n at e)
]

pub with_hash-append :
    (h : String) (ms ns : List UserSession)
    → with_hash h (ms ++ ns) ≡ with_hash h ms ++ with_hash h ns
with_hash-append h [] ns = refl
with_hash-append h (m ∷ ms) ns = elim (Bool-cases (str_eq m.refresh_token_hash h)) [
  | inl y ↦ rw y (ap (λ xs. m ∷ xs) (with_hash-append h ms ns))
  | inr n ↦ rw n (with_hash-append h ms ns)
]
