-- ===== src/Tokens/Revoking.antt =====
-- The update of `revoke_by_user_id` on the rows.
use python_codebase.Prelude.{
  ℕ, ◌≡◌, refl, ap, String, true, not, ◌&&◌, Option, List, [], ◌∷◌, map, inl, inr, ◌==◌, str_eq,
  Bool-cases,
}
use python_codebase.Sql.{in_tenant}
use python_codebase.Tokens.{UserSession, revoke_of}
use python_codebase.Tokens.Sessions.{with_hash}

-- The update keeps every hash.
pub with_hash-revoke :
    (t : Option ℕ) (k : ℕ) (h : String) (ms : List UserSession)
    → with_hash h (map (revoke_of t k) ms) ≡ map (revoke_of t k) (with_hash h ms)
with_hash-revoke t k h [] = refl
with_hash-revoke t k h (m ∷ ms) =
    elim (Bool-cases (m.user_id == k && not m.is_revoked && in_tenant t m.tenant_id)) [
      | inl changed ↦ elim (Bool-cases (str_eq m.refresh_token_hash h)) [
        | inl y ↦
            rw (changed, y)
              (rw changed
                (ap (λ xs. record m { is_revoked = true } ∷ xs) (with_hash-revoke t k h ms)))
        | inr n ↦ rw (changed, n) (with_hash-revoke t k h ms)
      ]
      | inr kept ↦ elim (Bool-cases (str_eq m.refresh_token_hash h)) [
        | inl y ↦ rw (kept, y) (rw kept (ap (λ xs. m ∷ xs) (with_hash-revoke t k h ms)))
        | inr n ↦ rw (kept, n) (with_hash-revoke t k h ms)
      ]
    ]

pub tenant-revoke_of :
    (t : Option ℕ) (k : ℕ) (m : UserSession) → (revoke_of t k m).tenant_id ≡ m.tenant_id
tenant-revoke_of t k m =
    elim (Bool-cases (m.user_id == k && not m.is_revoked && in_tenant t m.tenant_id)) [
      | inl y ↦ rw y refl
      | inr n ↦ rw n refl
    ]

-- A revoked row stays revoked.
pub revoke_of_revoked :
    (t : Option ℕ) (k : ℕ) (m : UserSession)
    → m.is_revoked ≡ true
    → (revoke_of t k m).is_revoked ≡ true
revoke_of_revoked t k m old =
    elim (Bool-cases (m.user_id == k && not m.is_revoked && in_tenant t m.tenant_id)) [
      | inl y ↦ rw y refl
      | inr n ↦ rw n old
    ]
