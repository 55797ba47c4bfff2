-- ===== src/Pagination/Codec.antt =====
-- The text of a cursor: `encode_cursor` and `decode_cursor` (src/shared/utils/cursor.py), with the
-- Base64, JSON and ISO time of the standard library as parameters.
use python_codebase.Prelude.{
  ℕ, String, Option, none, some, List, [], ◌∷◌, ◌≡◌, str_eq, if◌then◌else◌,
}
use python_codebase.Result.{Result, ok, err, value_error}
use python_codebase.Pagination.{Cursor, CursorDirection, direction_next, direction_prev}

-- A value of a JSON object: a text, a natural number, or any other by its source.
pub data FieldValue : Type 0 where
  text : String → FieldValue
  number : ℕ → FieldValue
  other : String → FieldValue

-- The functions of Python. `bytes` are the text of the characters with their codes; `none` is an
-- exception. `loads` is `none` also for what is no object, where `cursor_data["t"]` raises, and
-- `to_int`, the built-in `int`, for a negative number: no row has one.
pub record Codec : Type 0 where
  pub encode : String → String
  pub decode : String → Option String
  pub urlsafe_b64encode : String → String
  pub urlsafe_b64decode : String → Option String
  pub dumps : List (String × FieldValue) → String
  pub loads : String → Option (List (String × FieldValue))
  pub isoformat : ℕ → String
  pub fromisoformat : String → Option ℕ
  pub to_int : FieldValue → Option ℕ

infixl 5 ◌>>=◌
abbrev ◌>>=◌ {ℓ κ} : {A : Type ℓ} {B : Type κ} → Option A → (A → Option B) → Option B
none >>= f = none
some x >>= f = f x

-- `dir.value`
abbrev pub value : CursorDirection → String
value direction_next = "next"
value direction_prev = "prev"

-- `CursorDirection(...)` of a text
abbrev named : String → Option CursorDirection
named s =
    if str_eq s "next"
    then some direction_next
    else if str_eq s "prev"
    then some direction_prev
    else none

-- `cursor_data[key]`, where a missing key raises
abbrev get_item : String → List (String × FieldValue) → Option FieldValue
get_item key [] = none
get_item key (field ∷ fields) =
    let rest = get_item key fields in if str_eq field.0 key then some field.1 else rest

-- What is no text raises, in `fromisoformat` and in `CursorDirection(...)`.
abbrev as_text : FieldValue → Option String
as_text (text s) = some s
as_text (number n) = none
as_text (other s) = none

module _ (c : Codec) where
  abbrev pub cursor_data : ℕ → ℕ → CursorDirection → List (String × FieldValue)
  cursor_data created_at id dir =
      ("t", text (c.isoformat created_at)) ∷ ("id", number id) ∷ ("dir", text (value dir)) ∷ []

  abbrev raised : {A : Type 0} → Option A → Result A
  raised none = err (value_error "Invalid cursor format")
  raised (some x) = ok x

  -- The last `.decode()` raises UnicodeDecodeError, a ValueError, where it raises.
  unfoldable pub encode_cursor : ℕ → ℕ → CursorDirection → Result String
  encode_cursor created_at id dir =
      raised (c.decode (c.urlsafe_b64encode (c.encode (c.dumps (cursor_data created_at id dir)))))

  unfoldable pub read_fields : List (String × FieldValue) → Option (ℕ × ℕ × CursorDirection)
  read_fields fields = do
    t ← get_item "t" fields
    s ← as_text t
    created_at ← c.fromisoformat s
    d ← get_item "dir" fields
    v ← as_text d
    dir ← named v
    i ← get_item "id" fields
    id ← c.to_int i
    some (created_at, id, dir)

  -- Whatever raises, the answer is ValueError.
  unfoldable pub decode_cursor : String → Result (ℕ × ℕ × CursorDirection)
  unfolding read_fields
  decode_cursor cursor = raised (do
    bytes ← c.urlsafe_b64decode (c.encode cursor)
    json_str ← c.decode bytes
    fields ← c.loads json_str
    read_fields fields)

-- The three parts of the query that the routes read from a cursor.
abbrev pub decoded : ℕ × ℕ × CursorDirection → Cursor
decoded parts = record { created_at = some parts.0; id = some parts.1; direction = some parts.2 }

-- What Python documents of these functions, for what `encode_cursor` gives them.
pub record IsStandard (c : Codec) : Type 0 where
  pub fromisoformat-isoformat : (t : ℕ) → c.fromisoformat (c.isoformat t) ≡ some t
  pub to_int-number : (n : ℕ) → c.to_int (number n) ≡ some n
  pub loads-dumps :
      (t i : ℕ) (d : CursorDirection)
      → c.loads (c.dumps (cursor_data c t i d)) ≡ some (cursor_data c t i d)
  pub decode-encode : (s : String) → c.decode (c.encode s) ≡ some s
  pub b64decode-b64encode : (b : String) → c.urlsafe_b64decode (c.urlsafe_b64encode b) ≡ some b
  -- The text of Base64 is ASCII.
  pub encode-decode :
      (b : String)
      → (s : String) × (c.decode (c.urlsafe_b64encode b) ≡ some s)
        × (c.encode s ≡ c.urlsafe_b64encode b)
