-- ===== src/Pagination/Previous.antt =====
-- The query of a previous link finds the rows just before the cursor's row: the oldest-first order is
-- the newest-first one in reverse.
use native.Mathlib.Numerals.{add-one}
use mathlib.Core.List.{reverse, reverse-append}
use python_codebase.Prelude.{
  ℕ, suc, ◌-◌, ◌<◌, ◌≡◌, ◌≢◌, refl, sym, ap, ◌∙◌, true, false, some, List, [], ◌∷◌, ◌++◌, inl, inr,
  arith, filter, All, Bool-cases, length, drop, ltb, reverse-take, length-reverse,
}
use python_codebase.Pagination.{
  is_older, is_newer, insert_desc, insert_asc, order_desc, order_asc, Cursor, direction_prev,
  get_page, apply_cursor_pagination,
}
use python_codebase.Pagination.Order.{
  Before, IsSorted, HasUniqueIds, All-Before, Before-total, All-order_desc, order_desc-IsSorted,
}
use python_codebase.Pagination.Segments.{
  take-take, more_rows, order_desc-filter, All-middle, All-filter_unique,
}

module _ {A : Type 0} (created_at id : A → ℕ) where
  is_newer-Before :
      (x y : A) → Before created_at id x y → is_newer created_at id (created_at x) (id x) y ≡ false
  unfolding is_older is_newer
  is_newer-Before x y h = ground arith

  Before-is_newer :
      (x y : A) → Before created_at id x y → is_newer created_at id (created_at y) (id y) x ≡ true
  unfolding is_older is_newer
  Before-is_newer x y h = ground arith

  -- A row older than the last of a list goes in before it.
  insert_asc-append :
      (x y : A) (zs : List A)
      → Before created_at id y x
      → insert_asc created_at id x (zs ++ y ∷ []) ≡ insert_asc created_at id x zs ++ y ∷ []
  unfolding insert_asc
  insert_asc-append x y [] h = rw (Before-is_newer y x h) refl
  insert_asc-append x y (z ∷ zs) h =
      elim (Bool-cases (is_newer created_at id (created_at x) (id x) z)) [
        | inl e ↦ rw e refl
        | inr e ↦ rw e (ap (λ ws. z ∷ ws) (insert_asc-append x y zs h))
      ]

  All-snoc : (P : A → Type 0) (xs : List A) (x : A) → All P xs → P x → All P (xs ++ x ∷ [])
  All-snoc P [] x h p = (p, tt)
  All-snoc P (y ∷ xs) x h p = (h.0, All-snoc P xs x h.1 p)

  All-reverse : (P : A → Type 0) (xs : List A) → All P xs → All P (reverse xs)
  All-reverse P [] h = tt
  All-reverse P (x ∷ xs) h =
      rw (reverse-append (x ∷ []) xs) (All-snoc P (reverse xs) x (All-reverse P xs h.1) h.0)

  -- A row newer than all of a list goes in behind them.
  insert_asc_last :
      (x : A) (zs : List A)
      → All (Before created_at id x) zs
      → insert_asc created_at id x zs ≡ zs ++ x ∷ []
  unfolding insert_asc
  insert_asc_last x [] h = refl
  insert_asc_last x (z ∷ zs) h =
      rw (is_newer-Before x z h.0) (ap (λ ws. z ∷ ws) (insert_asc_last x zs h.1))

  insert_asc-reverse :
      (x : A) (ys : List A)
      → All (λ y. id x ≢ id y) ys
      → IsSorted created_at id ys
      → insert_asc created_at id x (reverse ys) ≡ reverse (insert_desc created_at id x ys)
  unfolding insert_asc insert_desc
  insert_asc-reverse x [] u s = refl
  insert_asc-reverse x (y ∷ ys) u s =
      elim (Bool-cases (is_older created_at id (created_at x) (id x) y)) [
        | inl e ↦ rw e (
            insert_asc_last x (reverse (y ∷ ys)) (
              All-reverse (Before created_at id x) (y ∷ ys)
                (e, All-Before created_at id x y ys e s.0))
            ∙ sym (reverse-append (x ∷ []) (y ∷ ys)))
        | inr e ↦ rw e (
            ap (insert_asc created_at id x) (reverse-append (y ∷ []) ys)
            ∙ insert_asc-append x y (reverse ys) (Before-total created_at id x y u.0 e)
            ∙ ap (λ ws. ws ++ y ∷ []) (insert_asc-reverse x ys u.1 s.1)
            ∙ sym (reverse-append (y ∷ []) (insert_desc created_at id x ys)))
      ]

  -- The oldest-first order is the newest-first one in reverse.
  order_asc-reverse :
      (xs : List A)
      → HasUniqueIds created_at id xs
      → order_asc created_at id xs ≡ reverse (order_desc created_at id xs)
  unfolding order_asc order_desc
  order_asc-reverse [] u = refl
  order_asc-reverse (x ∷ xs) u =
      ap (insert_asc created_at id x) (order_asc-reverse xs u.1)
      ∙ insert_asc-reverse x (order_desc created_at id xs)
          (All-order_desc created_at id (λ y. id x ≢ id y) xs u.0)
          (order_desc-IsSorted created_at id xs u.1)

  drop_everything :
      (x : A) (ys : List A)
      → All (Before created_at id x) ys
      → filter (is_newer created_at id (created_at x) (id x)) ys ≡ []
  drop_everything x [] h = refl
  drop_everything x (y ∷ ys) h = rw (is_newer-Before x y h.0) (drop_everything x ys h.1)

  is_newer_self : (x : A) → is_newer created_at id (created_at x) (id x) x ≡ false
  unfolding is_newer
  is_newer_self x = ground arith

  -- In a sorted list the rows newer than one of its rows are those that stand before it.
  filter-is_newer :
      (xs : List A) (x : A) (ys : List A)
      → IsSorted created_at id (xs ++ x ∷ ys)
      → filter (is_newer created_at id (created_at x) (id x)) (xs ++ x ∷ ys) ≡ xs
  filter-is_newer [] x ys s = rw (is_newer_self x) (drop_everything x ys s.0)
  filter-is_newer (a ∷ xs) x ys s =
      rw (Before-is_newer a x (All-middle created_at id (Before created_at id a) xs x ys s.0))
        (ap (λ ws. a ∷ ws) (filter-is_newer xs x ys s.1))

  -- The cursor that a page with first row `x` hands out.
  abbrev pub prev_cursor : A → Cursor
  prev_cursor x = record {
    created_at = some (created_at x);
    id = some (id x);
    direction = some direction_prev;
  }

  query-prev_cursor :
      (rows xs : List A) (x : A) (ys : List A)
      → HasUniqueIds created_at id rows
      → 0 < id x
      → order_desc created_at id rows ≡ xs ++ x ∷ ys
      → apply_cursor_pagination created_at id (prev_cursor x) rows ≡ reverse xs
  unfolding apply_cursor_pagination
  query-prev_cursor rows xs x ys u pos e =
      let some_id : id x ≡ suc (id x - 1) = omega arith in
      let newer = is_newer created_at id (created_at x) (id x) in
      let kept : filter newer (order_desc created_at id rows) ≡ xs =
        ap (filter newer) e
        ∙ filter-is_newer xs x ys (rw e at (order_desc-IsSorted created_at id rows u)) in
      let found : order_asc created_at id (filter newer rows) ≡ reverse xs =
        order_asc-reverse (filter newer rows) (All-filter_unique created_at id newer rows u)
        ∙ ap reverse (order_desc-filter created_at id newer rows u ∙ kept) in
      rw some_id (rw (← some_id) found)

  -- The page at the previous cursor of row `x`: the `limit` rows that stand just before `x` in the
  -- newest-first order, in that order, with the exact answer whether more rows stand before them.
  pub get_page-prev_cursor :
      (rows xs : List A) (x : A) (ys : List A) (limit : ℕ)
      → HasUniqueIds created_at id rows
      → 0 < id x
      → order_desc created_at id rows ≡ xs ++ x ∷ ys
      → get_page created_at id (prev_cursor x) limit rows
        ≡ (drop (length xs - limit) xs, ltb limit (length xs))
  unfolding get_page
  get_page-prev_cursor rows xs x ys limit u pos e =
      rw (query-prev_cursor rows xs x ys u pos e, add-one limit)
        (rw (
          take-take limit (reverse xs),
          more_rows limit (reverse xs),
          reverse-take limit xs,
          length-reverse xs,
        ))
