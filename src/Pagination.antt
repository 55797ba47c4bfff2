-- ===== src/Pagination.antt =====
-- Cursor pagination, as `SQLAlchemyTodoRepository.get_by_user_cursor` and
-- `SQLAlchemyCasbinPolicyRepository._apply_cursor_pagination` with its callers do it, over rows
-- that have a creation time and an id.
mod Tests
pub mod Order
pub mod Samples
pub mod Segments
pub mod Codec
pub mod Links
pub mod Previous
pub mod Walk
use mathlib.Core.List.{reverse}
use python_codebase.Prelude.{
  ℕ, suc, ◌+◌, Bool, true, false, ◌&&◌, ◌||◌, Option, none, some, List, [], ◌∷◌, ltb, ◌==◌, length,
  take, filter, is_truthy, if◌then◌else◌,
}

-- src/shared/utils/cursor.py
pub data CursorDirection : Type 0 where
  direction_next direction_prev : CursorDirection

-- The decoded cursor: `cursor_created_at`, `cursor_id` and `direction` of one call.
pub record Cursor : Type 0 where
  pub created_at : Option ℕ
  pub id : Option ℕ
  pub direction : Option CursorDirection

module _ {A : Type 0} (created_at id : A → ℕ) where
  -- created_at < c OR (created_at = c AND id < i)
  unfoldable pub is_older : ℕ → ℕ → A → Bool
  is_older c i row = ltb (created_at row) c || (created_at row == c && ltb (id row) i)

  -- created_at > c OR (created_at = c AND id > i)
  unfoldable pub is_newer : ℕ → ℕ → A → Bool
  is_newer c i row = ltb c (created_at row) || (created_at row == c && ltb i (id row))

  unfoldable pub insert_desc : A → List A → List A
  insert_desc x [] = x ∷ []
  insert_desc x (y ∷ ys) =
      let rest = insert_desc x ys in
      if is_older (created_at x) (id x) y then x ∷ y ∷ ys else y ∷ rest

  -- ORDER BY created_at DESC, id DESC
  unfoldable pub order_desc : List A → List A
  order_desc [] = []
  order_desc (x ∷ xs) = insert_desc x (order_desc xs)

  unfoldable pub insert_asc : A → List A → List A
  insert_asc x [] = x ∷ []
  insert_asc x (y ∷ ys) =
      let rest = insert_asc x ys in
      if is_newer (created_at x) (id x) y then x ∷ y ∷ ys else y ∷ rest

  -- ORDER BY created_at ASC, id ASC
  unfoldable pub order_asc : List A → List A
  order_asc [] = []
  order_asc (x ∷ xs) = insert_asc x (order_asc xs)

  abbrev by_direction : Option CursorDirection → ℕ → ℕ → List A → List A
  by_direction (some direction_next) c i rows = order_desc (filter (is_older c i) rows)
  by_direction _ c i rows = order_asc (filter (is_newer c i) rows)

  -- `if cursor_created_at and cursor_id`: an id of 0 counts as none.
  abbrev by_cursor : Option ℕ → Option ℕ → Option CursorDirection → List A → List A
  by_cursor (some c) (some (suc i)) direction rows = by_direction direction c (suc i) rows
  by_cursor _ _ direction rows = order_desc rows

  -- The filter and the order of the query.
  unfoldable pub apply_cursor_pagination : Cursor → List A → List A
  apply_cursor_pagination cursor rows = by_cursor cursor.created_at cursor.id cursor.direction rows

  abbrev in_order : Option CursorDirection → List A → List A
  in_order (some direction_prev) models = reverse models
  in_order _ models = models

  -- `limit + 1` rows are fetched, to see if there are more; at most `limit` are returned.
  unfoldable pub get_page : Cursor → ℕ → List A → List A × Bool
  unfolding apply_cursor_pagination
  get_page cursor limit rows =
      let models = take (limit + 1) (apply_cursor_pagination cursor rows) in
      (in_order cursor.direction (take limit models), ltb limit (length models))
