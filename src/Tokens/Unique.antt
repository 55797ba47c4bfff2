-- ===== src/Tokens/Unique.antt =====
-- The two unique indexes of the sessions, under every write.
use python_codebase.Prelude.{
  ℕ, suc, ◌<◌, ◌≡◌, ◌≢◌, refl, ap, sym, ◌∙◌, false, not, ◌&&◌, List, [], ◌∷◌, ◌++◌, map, inl, inr,
  any, All, ◌==◌, str_eq, eq_iff, arith, Bool-cases, Option,
}
use python_codebase.Sql.{in_tenant}
use python_codebase.Tokens.{RefreshToken, UserSession, overwrite, revoke_of}
use python_codebase.Tokens.Sessions.{with_id, HasUniqueKeys, cons-injective}

-- Two rows with other ids and other hashes.
abbrev pub Apart : UserSession → UserSession → Type 0
Apart m x = (x.id ≢ m.id) × (x.refresh_token_hash ≢ m.refresh_token_hash)

-- The write keeps the keys of a row.
abbrev pub Keeps : (UserSession → UserSession) → UserSession → Type 0
Keeps f x = ((f x).id ≡ x.id) × ((f x).refresh_token_hash ≡ x.refresh_token_hash)

Apart-map :
    (f : UserSession → UserSession) (m : UserSession) (ms : List UserSession)
    → Keeps f m
    → All (Keeps f) ms
    → All (Apart m) ms
    → All (Apart (f m)) (map f ms)
Apart-map f m [] k ks a = tt
Apart-map f m (x ∷ ms) k ks a = (
  (λ e. a.0.0 (sym ks.0.0 ∙ e ∙ k.0), λ e. a.0.1 (sym ks.0.1 ∙ e ∙ k.1)),
  Apart-map f m ms k ks.1 a.1,
)

pub HasUniqueKeys-map :
    (f : UserSession → UserSession) (ms : List UserSession)
    → All (Keeps f) ms
    → HasUniqueKeys ms
    → HasUniqueKeys (map f ms)
HasUniqueKeys-map f [] ks u = tt
HasUniqueKeys-map f (m ∷ ms) ks u =
    (Apart-map f m ms ks.0 ks.1 u.0, HasUniqueKeys-map f ms ks.1 u.1)

-- Every id is below the next one.
abbrev pub Below : ℕ → List UserSession → Type 0
Below n = All (λ (x : UserSession). x.id < n)

pub Below-map :
    (f : UserSession → UserSession) (n : ℕ) (ms : List UserSession)
    → All (Keeps f) ms
    → Below n ms
    → Below n (map f ms)
Below-map f n [] ks b = tt
Below-map f n (m ∷ ms) ks b = (omega (arith, ks.0.0, b.0), Below-map f n ms ks.1 b.1)

pub Below-append :
    (n : ℕ) (ms : List UserSession) (r : UserSession)
    → Below n ms
    → r.id ≡ n
    → Below (suc n) (ms ++ r ∷ [])
Below-append n [] r b e = (omega (arith, e), tt)
Below-append n (m ∷ ms) r b e = (omega (arith, b.0), Below-append n ms r b.1 e)

Apart-append :
    (m r : UserSession) (ms : List UserSession)
    → All (Apart m) ms
    → Apart m r
    → All (Apart m) (ms ++ r ∷ [])
Apart-append m r [] a h = (h, tt)
Apart-append m r (x ∷ ms) a h = (a.0, Apart-append m r ms a.1 h)

pub HasUniqueKeys-append :
    (n : ℕ) (ms : List UserSession) (r : UserSession)
    → HasUniqueKeys ms
    → Below n ms
    → r.id ≡ n
    → any (λ x. str_eq x.refresh_token_hash r.refresh_token_hash) ms ≡ false
    → HasUniqueKeys (ms ++ r ∷ [])
HasUniqueKeys-append n [] r u b e new = (tt, tt)
HasUniqueKeys-append n (m ∷ ms) r u b e new =
    let other : str_eq m.refresh_token_hash r.refresh_token_hash ≡ false = ground arith in
    let rest : any (λ x. str_eq x.refresh_token_hash r.refresh_token_hash) ms ≡ false =
      ground arith in
    let apart : Apart m r = (
      λ same. omega (arith, same, e, b.0),
      λ same.
          ground (arith, other, (eq_iff m.refresh_token_hash r.refresh_token_hash).1 (sym same)),
    ) in
    (Apart-append m r ms u.0 apart, HasUniqueKeys-append n ms r u.1 b.1 e rest)

pub Keeps-revoke_of :
    (t : Option ℕ) (k : ℕ) (ms : List UserSession) → All (Keeps (revoke_of t k)) ms
Keeps-revoke_of t k [] = tt
Keeps-revoke_of t k (m ∷ ms) =
    let rest = Keeps-revoke_of t k ms in
    elim (Bool-cases (m.user_id == k && not m.is_revoked && in_tenant t m.tenant_id)) [
      | inl y ↦ rw y ((refl, refl), rest)
      | inr n ↦ rw n ((refl, refl), rest)
    ]

Keeps-others :
    (token : RefreshToken) (t k : ℕ) (ms : List UserSession)
    → with_id k ms ≡ []
    → All (Keeps (overwrite token t k)) ms
Keeps-others token t k [] e = tt
Keeps-others token t k (m ∷ ms) e = elim (Bool-cases (m.id == k)) [
  | inl here ↦ cc (rw here at e)
  | inr there ↦ (rw there (refl, refl), Keeps-others token t k ms (rw there at e))
]

-- Writing over the one row with a key, with the hash that it has.
pub Keeps-overwrite :
    (token : RefreshToken) (t k : ℕ) (m : UserSession) (ms : List UserSession)
    → with_id k ms ≡ m ∷ []
    → token.token_hash ≡ m.refresh_token_hash
    → All (Keeps (overwrite token t k)) ms
Keeps-overwrite token t k m [] e same = tt
Keeps-overwrite token t k m (x ∷ ms) e same = elim (Bool-cases (x.id == k)) [
  | inl here ↦
      let rest : with_id k ms ≡ [] = ground (arith, rw here at e) in
      let hash : x.refresh_token_hash ≡ m.refresh_token_hash =
        ap (λ (y : UserSession). y.refresh_token_hash)
          (cons-injective x m (with_id k ms) [] (rw here at e)) in
      (rw here (refl, same ∙ sym hash), Keeps-others token t k ms rest)
  | inr there ↦ (rw there (refl, refl), Keeps-overwrite token t k m ms (rw there at e) same)
]
