-- ===== src/Pagination/Segments.antt =====
-- The query of a cursor finds the part of the newest-first list that follows the cursor's row.
use native.Mathlib.Numerals.{add-one}
use python_codebase.Prelude.{
  ℕ, suc, ◌-◌, ◌<◌, ◌≡◌, ◌≢◌, refl, sym, ap, Bool, true, false, some, List, [], ◌∷◌, ◌++◌, inl, inr,
  arith, filter, All, Bool-cases, length, take, zero, length-take, ltb, if◌then◌else◌,
}
use python_codebase.Pagination.{
  is_older, insert_desc, order_desc, Cursor, direction_next, get_page, apply_cursor_pagination,
}
use python_codebase.Pagination.Order.{
  Before, IsSorted, HasUniqueIds, All-Before, order_desc-IsSorted,
}

pub take-take {ℓ} : {A : Type ℓ} (n : ℕ) (xs : List A) → take n (take (suc n) xs) ≡ take n xs
take-take zero xs = refl
take-take (suc n) [] = refl
take-take (suc n) (x ∷ xs) = ap (λ ys. x ∷ ys) (take-take n xs)

-- One row more than the limit shows that there are more.
pub more_rows {ℓ} :
    {A : Type ℓ} (n : ℕ) (xs : List A) → ltb n (length (take (suc n) xs)) ≡ ltb n (length xs)
more_rows n xs = ground (arith, length-take (suc n) xs)

module _ {A : Type 0} (created_at id : A → ℕ) where
  All-filter : (P : A → Type 0) (p : A → Bool) (xs : List A) → All P xs → All P (filter p xs)
  All-filter P p [] h = tt
  All-filter P p (x ∷ xs) h = elim (Bool-cases (p x)) [
    | inl e ↦ rw e (h.0, All-filter P p xs h.1)
    | inr e ↦ rw e (All-filter P p xs h.1)
  ]

  insert_desc_head :
      (x : A) (xs : List A)
      → All (Before created_at id x) xs
      → insert_desc created_at id x xs ≡ x ∷ xs
  unfolding insert_desc
  insert_desc_head x [] h = refl
  insert_desc_head x (y ∷ ys) h = rw h.0

  filter-insert_desc :
      (p : A → Bool) (x : A) (xs : List A)
      → IsSorted created_at id xs
      → filter p (insert_desc created_at id x xs)
        ≡ (if p x then insert_desc created_at id x (filter p xs) else filter p xs)
  unfolding insert_desc
  filter-insert_desc p x [] s = refl
  filter-insert_desc p x (y ∷ ys) s =
      elim (Bool-cases (is_older created_at id (created_at x) (id x) y)) [
        | inl e ↦ rw e (
            ap (λ zs. if p x then zs else filter p (y ∷ ys))
              (sym (
                insert_desc_head x (filter p (y ∷ ys)) (
                  All-filter (Before created_at id x) p (y ∷ ys)
                    (e, All-Before created_at id x y ys e s.0)))))
        | inr e ↦ rw e (elim (Bool-cases (p y)) [
          | inl py ↦ rw (py, e) (ground (arith, filter-insert_desc p x ys s.1))
          | inr py ↦ rw py (filter-insert_desc p x ys s.1)
        ])
      ]

  pub All-filter_unique :
      (p : A → Bool) (xs : List A)
      → HasUniqueIds created_at id xs
      → HasUniqueIds created_at id (filter p xs)
  All-filter_unique p [] u = tt
  All-filter_unique p (x ∷ xs) u = elim (Bool-cases (p x)) [
    | inl e ↦ rw e (All-filter (λ y. id x ≢ id y) p xs u.0, All-filter_unique p xs u.1)
    | inr e ↦ rw e (All-filter_unique p xs u.1)
  ]

  -- Sorting what the filter keeps is filtering what is sorted.
  pub order_desc-filter :
      (p : A → Bool) (xs : List A)
      → HasUniqueIds created_at id xs
      → order_desc created_at id (filter p xs) ≡ filter p (order_desc created_at id xs)
  unfolding order_desc
  order_desc-filter p [] u = refl
  order_desc-filter p (x ∷ xs) u =
      rw
        (
          filter-insert_desc p x (order_desc created_at id xs)
              (order_desc-IsSorted created_at id xs u.1),
          ← order_desc-filter p xs u.1,
        )
        (elim (Bool-cases (p x)) [ inl e ↦ rw e | inr e ↦ rw e ])

  pub All-middle : (P : A → Type 0) (xs : List A) (y : A) (zs : List A) → All P (xs ++ y ∷ zs) → P y
  All-middle P [] y zs h = h.0
  All-middle P (x ∷ xs) y zs h = All-middle P xs y zs h.1

  keep_everything : (p : A → Bool) (xs : List A) → All (λ x. p x ≡ true) xs → filter p xs ≡ xs
  keep_everything p [] h = refl
  keep_everything p (x ∷ xs) h = rw h.0 (ap (λ ys. x ∷ ys) (keep_everything p xs h.1))

  is_older_self : (x : A) → is_older created_at id (created_at x) (id x) x ≡ false
  unfolding is_older
  is_older_self x = ground arith

  is_older_asym :
      (a x : A) → Before created_at id a x → is_older created_at id (created_at x) (id x) a ≡ false
  unfolding is_older
  is_older_asym a x h = ground arith

  -- In a sorted list the rows older than one of its rows are those that stand behind it.
  pub filter-is_older :
      (xs : List A) (x : A) (ys : List A)
      → IsSorted created_at id (xs ++ x ∷ ys)
      → filter (is_older created_at id (created_at x) (id x)) (xs ++ x ∷ ys) ≡ ys
  filter-is_older [] x ys s =
      rw (is_older_self x) (keep_everything (is_older created_at id (created_at x) (id x)) ys s.0)
  filter-is_older (a ∷ xs) x ys s =
      rw (is_older_asym a x (All-middle (Before created_at id a) xs x ys s.0))
        (filter-is_older xs x ys s.1)

  -- The cursor that a page with last row `x` hands out.
  abbrev pub next_cursor : A → Cursor
  next_cursor x = record {
    created_at = some (created_at x);
    id = some (id x);
    direction = some direction_next;
  }

  query-next_cursor :
      (rows : List A) (x : A)
      → 0 < id x
      → apply_cursor_pagination created_at id (next_cursor x) rows
        ≡ order_desc created_at id (filter (is_older created_at id (created_at x) (id x)) rows)
  unfolding apply_cursor_pagination
  query-next_cursor rows x pos = let e : id x ≡ suc (id x - 1) = omega arith in rw e

  -- The page at the cursor of row `x`: with unique ids and a cursor id that is not 0, it is what
  -- follows `x` in the newest-first order, cut at the limit, with the exact answer whether more
  -- rows follow.
  pub get_page-next_cursor :
      (rows xs : List A) (x : A) (ys : List A) (limit : ℕ)
      → HasUniqueIds created_at id rows
      → 0 < id x
      → order_desc created_at id rows ≡ xs ++ x ∷ ys
      → get_page created_at id (next_cursor x) limit rows ≡ (take limit ys, ltb limit (length ys))
  unfolding get_page
  get_page-next_cursor rows xs x ys limit u pos e =
      rw
        (
          query-next_cursor rows x pos,
          order_desc-filter (is_older created_at id (created_at x) (id x)) rows u,
          e,
          filter-is_older xs x ys (rw e at (order_desc-IsSorted created_at id rows u)),
          add-one limit,
        )
        (rw (take-take limit ys, more_rows limit ys))
