-- ===== src/Pagination/Walk.antt =====
-- A client that follows the next cursors sees every row once, in order.
use native.Mathlib.Numerals.{add-one}
use native.Mathlib.Nat.{suc-mul}
use mathlib.Core.Option
use mathlib.Core.Option.{Option, none, some}
use mathlib.Core.List.{append_assoc, append-nil}
use python_codebase.Prelude.{
  ℕ, zero, suc, ◌-◌, ◌+◌, ◌*◌, ◌≤◌, ◌<◌, ◌≡◌, refl, sym, ap, List, [], ◌∷◌, ◌++◌, inl, inr, true,
  arith, All, Bool-cases, length, take, drop, take-append-drop, length-drop, ltb, if◌then◌else◌,
}
use python_codebase.Pagination.{order_desc, insert_desc, Cursor, get_page, apply_cursor_pagination}
use python_codebase.Pagination.Order.{HasUniqueIds, All-order_desc}
use python_codebase.Pagination.Segments.{
  All-middle, next_cursor, get_page-next_cursor, take-take, more_rows,
}

module _ {ℓ} {A : Type ℓ} where
  take_all : (n : ℕ) (xs : List A) → length xs ≤ n → take n xs ≡ xs
  take_all zero [] h = refl
  take_all zero (x ∷ xs) h = absurd (omega arith)
  take_all (suc n) [] h = refl
  take_all (suc n) (x ∷ xs) h = ap (λ ys. x ∷ ys) (take_all n xs (omega arith))

-- A full page before the others makes one more page.
one_more :
    (n l k r : ℕ)
    → l < k
    → r ≡ k - l
    → n * suc l ≤ r - 1
    → r ≤ suc l + n * suc l
    → (suc n * suc l ≤ suc k - 1) × (suc k ≤ suc l + suc n * suc l)
one_more n l k r more rest few enough =
    let e = suc-mul n (suc l) in (omega (arith, e), omega (arith, e))

module _ {A : Type 0} where
  -- `todos[-1]`
  abbrev pub last : List A → Option A
  last [] = none
  last (x ∷ []) = some x
  last (x ∷ y ∷ rest) = last (y ∷ rest)

  -- A list that is not empty ends in its last element.
  last-append :
      (x : A) (xs : List A)
      → (zs : List A) × (z : A) × (x ∷ xs ≡ zs ++ z ∷ []) × (last (x ∷ xs) ≡ some z)
  last-append x [] = ([], x, refl, refl)
  last-append x (y ∷ ys) =
      let (zs, z, e, l) = last-append y ys in (x ∷ zs, z, ap (λ ws. x ∷ ws) e, l)

  -- The rows of some pages.
  abbrev pub concat : List (List A) → List A
  concat [] = []
  concat (xs ∷ xss) = xs ++ concat xss

  -- The walk has ended; its pages are the rows `ys`, and as many as they need at the limit.
  abbrev Covers : ℕ → List A → Option (List (List A)) → Type 0
  Covers limit ys walked =
      (p : List A) × (ps : List (List A)) × (walked ≡ some (p ∷ ps))
      × (concat (p ∷ ps) ≡ ys)
      × (length ps * limit ≤ length ys - 1)
      × (length ys ≤ limit + length ps * limit)

  more_pages :
      (l : ℕ) (y : A) (ys : List A) (walked further : Option (List (List A)))
      → ltb (suc l) (length (y ∷ ys)) ≡ true
      → walked ≡ Option.map (λ pages. take (suc l) (y ∷ ys) ∷ pages) further
      → Covers (suc l) (drop l ys) further
      → Covers (suc l) (y ∷ ys) walked
  more_pages l y ys walked further more step (p, ps, e, rows_of, few, enough) =
      let (fewer, enough_pages) =
        one_more (length ps) l (length ys) (length (drop l ys)) (ground arith) (length-drop l ys)
          few enough in
      (
        take (suc l) (y ∷ ys),
        p ∷ ps,
        rw (step, e) refl,
        rw rows_of (take-append-drop (suc l) (y ∷ ys)),
        fewer,
        enough_pages,
      )

module _ {A : Type 0} (created_at id : A → ℕ) where
  -- The request without a cursor: the router passes None for the three parts.
  abbrev pub first_page : Cursor
  first_page = record { created_at = none; id = none; direction = none }

  length-insert_desc :
      (x : A) (xs : List A) → length (insert_desc created_at id x xs) ≡ suc (length xs)
  unfolding insert_desc
  length-insert_desc x [] = refl
  length-insert_desc x (y ∷ ys) = ground (arith, length-insert_desc x ys)

  pub length-order_desc : (xs : List A) → length (order_desc created_at id xs) ≡ length xs
  unfolding order_desc
  length-order_desc [] = refl
  length-order_desc (x ∷ xs) =
      rw (length-insert_desc x (order_desc created_at id xs), length-order_desc xs)

  follow : List A → Option A → (A → Option (List (List A))) → Option (List (List A))
  follow items none rest = some (items ∷ [])
  follow items (some x) rest = Option.map (λ pages. items ∷ pages) (rest x)

  -- The pages that a client gets: it asks again, with the cursor of the last row, while the answer
  -- says that there are more and is not empty (`if has_more and len(todos) > 0`). `none` is a
  -- client that still asks when the fuel has run out.
  pub walk : ℕ → Cursor → ℕ → List A → Option (List (List A))
  walk zero cursor limit rows = none
  walk (suc fuel) cursor limit rows =
      let (items, has_more) = get_page created_at id cursor limit rows in
      let further =
        follow items (last items) (λ x. walk fuel (next_cursor created_at id x) limit rows) in
      if has_more then further else some (items ∷ [])

  module _ (rows : List A) (l : ℕ) (u : HasUniqueIds created_at id rows)
      (pos : All (λ x. 0 < id x) rows) where
    -- From any page that is the next part of the order, the walk ends with the pages of the rest.
    walk_rest :
        (fuel : ℕ) (cursor : Cursor) (seen ys : List A)
        → order_desc created_at id rows ≡ seen ++ ys
        → get_page created_at id cursor (suc l) rows ≡ (take (suc l) ys, ltb (suc l) (length ys))
        → length ys < fuel
        → Covers (suc l) ys (walk fuel cursor (suc l) rows)
    unfolding walk follow
    walk_rest zero cursor seen ys e page enough = absurd (omega arith)
    walk_rest (suc fuel) cursor seen [] e page enough =
        ([], [], ground (arith, page), refl, omega arith, omega arith)
    walk_rest (suc fuel) cursor seen (y ∷ ys) e page enough =
        elim (Bool-cases (ltb (suc l) (length (y ∷ ys)))) [
          | inl more ↦
              let (zs, z, ez, lz) = last-append y (take l ys) in
              let rest = drop l ys in
              let whole : y ∷ ys ≡ (zs ++ z ∷ []) ++ rest =
                rw (← ez) (sym (take-append-drop (suc l) (y ∷ ys))) in
              let order : order_desc created_at id rows ≡ (seen ++ zs) ++ z ∷ rest =
                rw (e, whole) (simp append_assoc) in
              let zpos : 0 < id z =
                All-middle created_at id (λ x. 0 < id x) (seen ++ zs) z rest
                  (rw order at (All-order_desc created_at id (λ x. 0 < id x) rows pos)) in
              let further = walk fuel (next_cursor created_at id z) (suc l) rows in
              more_pages l y ys (walk (suc fuel) cursor (suc l) rows) further more
                (rw (page, more, lz) refl)
                (walk_rest fuel (next_cursor created_at id z) ((seen ++ zs) ++ z ∷ []) rest
                  (rw order (simp append_assoc))
                  (get_page-next_cursor created_at id rows (seen ++ zs) z rest (suc l) u zpos order)
                  (omega (arith, length-drop l ys)))
          | inr less ↦ (
            y ∷ ys,
            [],
            rw (page, less, take_all (suc l) (y ∷ ys) (ground arith)) refl,
            append-nil (y ∷ ys),
            omega arith,
            ground arith,
          )
        ]

  walk-Covers :
      (rows : List A) (limit fuel : ℕ)
      → HasUniqueIds created_at id rows
      → All (λ x. 0 < id x) rows
      → 0 < limit
      → length rows < fuel
      → Covers limit (order_desc created_at id rows) (walk fuel first_page limit rows)
  unfolding get_page apply_cursor_pagination
  walk-Covers rows zero fuel u pos some_limit enough = absurd (omega arith)
  walk-Covers rows (suc l) fuel u pos some_limit enough =
      let page : get_page created_at id first_page (suc l) rows ≡ (
        take (suc l) (order_desc created_at id rows),
        ltb (suc l) (length (order_desc created_at id rows)),
      ) =
        rw (add-one (suc l)) (
          rw (
            take-take (suc l) (order_desc created_at id rows),
            more_rows (suc l) (order_desc created_at id rows),
          )) in
      walk_rest rows l u pos fuel first_page [] (order_desc created_at id rows) refl page
        (rw (length-order_desc rows) enough)

  -- With unique positive ids, a limit of at least one row and fuel for more requests than there are
  -- rows, a client that follows the next cursors from the first page on comes to a page without
  -- one, and the pages that it has got are, one after the other, all the rows, newest first: none
  -- is skipped and none is seen twice.
  pub walk_complete :
      (rows : List A) (limit fuel : ℕ)
      → HasUniqueIds created_at id rows
      → All (λ x. 0 < id x) rows
      → 0 < limit
      → length rows < fuel
      → (pages : List (List A)) × (walk fuel first_page limit rows ≡ some pages)
        × (concat pages ≡ order_desc created_at id rows)
  walk_complete rows limit fuel u pos some_limit enough =
      let (p, ps, walked, all_rows, few, enough_pages) =
        walk-Covers rows limit fuel u pos some_limit enough in
      (p ∷ ps, walked, all_rows)

  -- Under the same conditions the client stops, and asks exactly as often as the rows need: for one
  -- page, and for one more for each full page that has a row behind it.
  pub walk_stops :
      (rows : List A) (limit fuel : ℕ)
      → HasUniqueIds created_at id rows
      → All (λ x. 0 < id x) rows
      → 0 < limit
      → length rows < fuel
      → (p : List A) × (more : List (List A)) × (walk fuel first_page limit rows ≡ some (p ∷ more))
        × (length more * limit ≤ length rows - 1)
        × (length rows ≤ limit + length more * limit)
  walk_stops rows limit fuel u pos some_limit enough =
      let (p, ps, walked, all_rows, few, enough_pages) =
        walk-Covers rows limit fuel u pos some_limit enough in
      let size = length-order_desc rows in
      (p, ps, walked, rw (← size) few, rw (← size) enough_pages)
