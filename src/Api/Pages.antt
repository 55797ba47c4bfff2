-- ===== src/Api/Pages.antt =====
-- What the three list routes share: the cursor of the query and the links of the answer
-- (src/core/schemas/response.py, src/shared/utils/cursor.py).
use python_codebase.Prelude.{ℕ, String, Bool, false, true, Option, none, some, List, [], ◌∷◌}
use python_codebase.Result.{Result, ok, err}
use python_codebase.State.{State, pure, from_result, ◌>>=◌}
use python_codebase.Pagination.{Cursor, CursorDirection, direction_next, direction_prev}
use python_codebase.Pagination.Codec.{decoded, encode_cursor, decode_cursor}
use python_codebase.Api.{Context}

-- `CursorMeta` with the data of `CursorPaginatedResponse`
pub record Page (A : Type 0) : Type 0 where
  pub data_ : List A
  pub next_cursor : Option String
  pub prev_cursor : Option String
  pub has_next : Bool
  pub has_prev : Bool
  pub limit : ℕ

-- `if cursor:`
abbrev pub given : Option String → Option String
given none = none
given (some String.[]) = none
given (some (String.◌∷◌ x s)) = some (String.◌∷◌ x s)

abbrev pub last? : {A : Type 0} → List A → Option A
last? [] = none
last? (x ∷ []) = some x
last? (x ∷ y ∷ rest) = last? (y ∷ rest)

abbrev pub head? : {A : Type 0} → List A → Option A
head? [] = none
head? (x ∷ rest) = some x

-- The answers of a list, or the first exception that one raises.
abbrev and_then : {A : Type 0} → Result A → Result (List A) → Result (List A)
and_then (err e) rest = err e
and_then (ok a) (err e) = err e
and_then (ok a) (ok as_) = ok (a ∷ as_)

abbrev pub collect : {A B : Type 0} → (A → Result B) → List A → Result (List B)
collect f [] = ok []
collect f (x ∷ xs) = let rest = collect f xs in and_then (f x) rest

module _ (c : Context) {S : Type 0} where
  -- The first lines of a list route; `start` is its direction without a cursor.
  abbrev pub read_cursor : Option CursorDirection → Option String → State S Cursor
  read_cursor start none = pure (record { created_at = none; id = none; direction = start })
  read_cursor start (some text) = do
    parts ← from_result (decode_cursor c.codec text)
    pure (decoded parts)

  -- `encode_cursor` of an item, by what the item gives for its creation time and its id.
  module _ {A : Type 0} (position : A → State S (ℕ × ℕ)) where
    abbrev pub encode_item : CursorDirection → Option A → State S (Option String)
    encode_item direction none = pure none
    encode_item direction (some x) = do
      at ← position x
      text ← from_result (encode_cursor c.codec at.0 at.1 direction)
      pure (some text)

    -- `if has_more and items:` for the next cursor
    abbrev pub next_link : Bool → List A → State S (Option String)
    next_link false items = pure none
    next_link true items = encode_item direction_next (last? items)

    -- `if cursor and items:` for the previous one
    abbrev pub prev_link : Option String → List A → State S (Option String)
    prev_link none items = pure none
    prev_link (some cursor) items = encode_item direction_prev (head? items)
