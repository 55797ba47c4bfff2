-- ===== src/Pagination/Order.antt =====
-- `order_desc` sorts, and commutes with a filter.
use python_codebase.Prelude.{
  ℕ, ◌≡◌, ◌≢◌, true, false, List, [], ◌∷◌, inl, inr, arith, All, Bool-cases,
}
use python_codebase.Pagination.{is_older, insert_desc, order_desc}

module _ {A : Type 0} (created_at id : A → ℕ) where
  -- `x` stands before `y` in the newest-first order.
  abbrev pub Before : A → A → Type 0
  Before x y = is_older created_at id (created_at x) (id x) y ≡ true

  -- Newest first, no two rows alike in time and id.
  abbrev pub IsSorted : List A → Type 0
  IsSorted [] = Unit
  IsSorted (x ∷ xs) = All (Before x) xs × IsSorted xs

  -- The primary key.
  abbrev pub HasUniqueIds : List A → Type 0
  HasUniqueIds [] = Unit
  HasUniqueIds (x ∷ xs) = All (λ y. id x ≢ id y) xs × HasUniqueIds xs

  pub Before-trans : (x y z : A) → Before x y → Before y z → Before x z
  unfolding is_older
  Before-trans x y z h k = ground arith

  pub Before-total :
      (x y : A) → id x ≢ id y → is_older created_at id (created_at x) (id x) y ≡ false → Before y x
  unfolding is_older
  Before-total x y ne h = ground arith

  pub All-Before : (x y : A) (zs : List A) → Before x y → All (Before y) zs → All (Before x) zs
  All-Before x y [] h k = tt
  All-Before x y (z ∷ zs) h k = (Before-trans x y z h k.0, All-Before x y zs h k.1)

  All-insert_desc :
      (P : A → Type 0) (x : A) (xs : List A)
      → P x
      → All P xs
      → All P (insert_desc created_at id x xs)
  unfolding insert_desc
  All-insert_desc P x [] p h = (p, tt)
  All-insert_desc P x (y ∷ ys) p h =
      elim (Bool-cases (is_older created_at id (created_at x) (id x) y)) [
        | inl e ↦ rw e (p, h)
        | inr e ↦ rw e (h.0, All-insert_desc P x ys p h.1)
      ]

  insert_desc-IsSorted :
      (x : A) (xs : List A)
      → All (λ y. id x ≢ id y) xs
      → IsSorted xs
      → IsSorted (insert_desc created_at id x xs)
  unfolding insert_desc
  insert_desc-IsSorted x [] u s = (tt, tt)
  insert_desc-IsSorted x (y ∷ ys) u s =
      elim (Bool-cases (is_older created_at id (created_at x) (id x) y)) [
        | inl e ↦ rw e ((e, All-Before x y ys e s.0), s)
        | inr e ↦ rw e (
          All-insert_desc (Before y) x ys (Before-total x y u.0 e) s.0,
          insert_desc-IsSorted x ys u.1 s.1,
        )
      ]

  pub All-order_desc :
      (P : A → Type 0) (xs : List A) → All P xs → All P (order_desc created_at id xs)
  unfolding order_desc
  All-order_desc P [] h = tt
  All-order_desc P (x ∷ xs) h =
      All-insert_desc P x (order_desc created_at id xs) h.0 (All-order_desc P xs h.1)

  -- With unique ids the order is strict.
  pub order_desc-IsSorted : (xs : List A) → HasUniqueIds xs → IsSorted (order_desc created_at id xs)
  unfolding order_desc
  order_desc-IsSorted [] u = tt
  order_desc-IsSorted (x ∷ xs) u =
      insert_desc-IsSorted x (order_desc created_at id xs)
        (All-order_desc (λ y. id x ≢ id y) xs u.0) (order_desc-IsSorted xs u.1)
