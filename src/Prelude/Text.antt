-- ===== src/Prelude/Text.antt =====
-- Texts: equality, and the parts of Python's `str` that the program uses.
use Prim.Native.Nat.{ℕ, zero, suc}
use Prim.Native.Char.{Char, char, code}
use Prim.Native.String.{String}
use mathlib.Core.Bool.{Bool, true, false, ◌&&◌, ◌||◌}
use mathlib.Core.Option.{Option, none, some}
use mathlib.Core.List.{List, [], ◌∷◌}
use python_codebase.Prelude.Tests.{leb, ◌==◌, if◌then◌else◌}
use text.Mathlib.Text.{◌==◌ as str_eq}

-- `str.isspace` of one character.
abbrev pub is_space : ℕ → Bool
is_space c =
    (leb 9 c && leb c 13)
    || (leb 28 c && leb c 32)
    || c == 0x85
    || c == 0xa0
    || c == 0x1680
    || (leb 0x2000 c && leb c 0x200a)
    || c == 0x2028
    || c == 0x2029
    || c == 0x202f
    || c == 0x205f
    || c == 0x3000

-- `not s.strip()`: nothing but white space.
unfoldable pub is_blank : String → Bool
is_blank String.[] = true
is_blank (String.◌∷◌ c s) = is_space (code c) && is_blank s

-- What comes after a prefix: `s[len(prefix):]`, where `s.startswith(prefix)`
unfoldable pub after_prefix : String → String → Option String
after_prefix String.[] s = some s
after_prefix (String.◌∷◌ p prefix) String.[] = none
after_prefix (String.◌∷◌ p prefix) (String.◌∷◌ c s) =
    let rest = after_prefix prefix s in if code c == code p then rest else none

abbrev slash : Char
slash = char 47 tt

abbrev strip_char : Char → String → String
strip_char c String.[] = if code c == code slash then String.[] else String.◌∷◌ c String.[]
strip_char c (String.◌∷◌ d s) = String.◌∷◌ c (String.◌∷◌ d s)

-- `s.rstrip("/")`
unfoldable pub rstrip_slash : String → String
rstrip_slash String.[] = String.[]
rstrip_slash (String.◌∷◌ c s) = let rest = rstrip_slash s in strip_char c rest

abbrev pub lstrip : String → String
lstrip String.[] = String.[]
lstrip (String.◌∷◌ c s) = let rest = lstrip s in if is_space (code c) then rest else String.◌∷◌ c s

abbrev unless_space : Char → String → String
unless_space c String.[] = if is_space (code c) then String.[] else String.◌∷◌ c String.[]
unless_space c (String.◌∷◌ d s) = String.◌∷◌ c (String.◌∷◌ d s)

abbrev pub rstrip : String → String
rstrip String.[] = String.[]
rstrip (String.◌∷◌ c s) = let rest = rstrip s in unless_space c rest

-- `s.strip()`
abbrev pub strip : String → String
strip s = rstrip (lstrip s)

abbrev push : Char → List String → List String
push c [] = String.◌∷◌ c String.[] ∷ []
push c (x ∷ xs) = String.◌∷◌ c x ∷ xs

-- `s.split(sep)` at one character, given by its code
abbrev pub split_on : ℕ → String → List String
split_on sep String.[] = "" ∷ []
split_on sep (String.◌∷◌ c s) =
    let rest = split_on sep s in if code c == sep then "" ∷ rest else push c rest

-- `s.split(sep)[0]`
abbrev pub first_part : ℕ → String → String
first_part sep String.[] = ""
first_part sep (String.◌∷◌ c s) =
    let rest = first_part sep s in if code c == sep then "" else String.◌∷◌ c rest

-- `s in set`
abbrev pub is_one_of : List String → String → Bool
is_one_of [] s = false
is_one_of (x ∷ xs) s = str_eq x s || is_one_of xs s

-- `len` of a text
abbrev pub len : String → ℕ
len String.[] = 0
len (String.◌∷◌ c s) = suc (len s)

-- `s[:n]`
abbrev pub first_chars : ℕ → String → String
first_chars zero s = String.[]
first_chars (suc n) String.[] = String.[]
first_chars (suc n) (String.◌∷◌ c s) = String.◌∷◌ c (first_chars n s)
