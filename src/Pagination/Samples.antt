-- ===== src/Pagination/Samples.antt =====
-- A codec for the tests: a time is as many characters, Base64 puts one character before the bytes,
-- and a JSON object is the letter of its direction, its time, a full stop and its id in characters.
use Prim.Native.Char.{Char, char, code}
use mathlib.Core.Path.{◌≡◌, refl}
use mathlib.Core.Option.{Option, none, some}
use mathlib.Core.List.{List, [], ◌∷◌}
use python_codebase.Prelude.{ℕ, zero, suc, String, ◌==◌, if◌then◌else◌, len}
use python_codebase.Pagination.{CursorDirection, direction_next, direction_prev}
use python_codebase.Pagination.Codec.{
  Codec, IsStandard, FieldValue, text, number, other, cursor_data,
}

abbrev mark : Char
mark = char 105 tt

abbrev stop : Char
stop = char 46 tt

abbrev marks : ℕ → String
marks zero = String.[]
marks (suc n) = String.◌∷◌ mark (marks n)

-- A time, a full stop and an id.
abbrev line : String → ℕ → String
line String.[] i = String.◌∷◌ stop (marks i)
line (String.◌∷◌ c s) i = String.◌∷◌ c (line s i)

abbrev put_char : Char → String × ℕ → String × ℕ
put_char c (s, n) = (String.◌∷◌ c s, n)

abbrev parts : String → String × ℕ
parts String.[] = (String.[], 0)
parts (String.◌∷◌ c s) =
    let rest = parts s in if code c == 46 then (String.[], len s) else put_char c rest

len-marks : (n : ℕ) → len (marks n) ≡ n
len-marks zero = refl
len-marks (suc n) = rw (len-marks n) refl

parts-line : (t i : ℕ) → parts (line (marks t) i) ≡ (marks t, i)
parts-line zero i = rw (len-marks i) refl
parts-line (suc t) i = rw (parts-line t i) refl

abbrev object : String → String × ℕ → List (String × FieldValue)
object dir (t, i) = ("t", text t) ∷ ("id", number i) ∷ ("dir", text dir) ∷ []

abbrev dumps : List (String × FieldValue) → String
dumps ((_, text t) ∷ (_, number i) ∷ (_, text (String.◌∷◌ c s)) ∷ []) = String.◌∷◌ c (line t i)
dumps _ = String.[]

abbrev loads : String → Option (List (String × FieldValue))
loads String.[] = none
loads (String.◌∷◌ c s) =
    if code c == 110 then some (object "next" (parts s)) else some (object "prev" (parts s))

abbrev tail : String → Option String
tail String.[] = none
tail (String.◌∷◌ c s) = some s

abbrev to_int : FieldValue → Option ℕ
to_int (text s) = none
to_int (number n) = some n
to_int (other s) = none

abbrev pub codec : Codec
codec = record {
  encode = λ s. s;
  decode = some;
  urlsafe_b64encode = λ b. String.◌∷◌ mark b;
  urlsafe_b64decode = tail;
  dumps = dumps;
  loads = loads;
  isoformat = marks;
  fromisoformat = λ s. some (len s);
  to_int = to_int;
}

loads-dumps :
    (t i : ℕ) (d : CursorDirection)
    → loads (dumps (cursor_data codec t i d)) ≡ some (cursor_data codec t i d)
loads-dumps t i direction_next = rw (parts-line t i) refl
loads-dumps t i direction_prev = rw (parts-line t i) refl

pub codec-IsStandard : IsStandard codec
codec-IsStandard = record {
  fromisoformat-isoformat = λ t. rw (len-marks t) refl;
  to_int-number = λ n. refl;
  loads-dumps = loads-dumps;
  decode-encode = λ s. refl;
  b64decode-b64encode = λ b. refl;
  encode-decode = λ b. (String.◌∷◌ mark b, refl, refl);
}
