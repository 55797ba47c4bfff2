-- ===== src/TwoFactor/Codes.antt =====
-- The text of the backup codes: Python's `split`, `join` and `list.remove` on it.
use Prim.Native.Char.{Char, char, code}
use python_codebase.Prelude.{
  ◌≡◌, refl, ap, ◌∙◌, String, Bool, true, false, ◌||◌, Option, none, some, List, [], ◌∷◌, ◌==◌,
  ==_iff, str_eq, any, All, inl, inr, Bool-cases, if◌then◌else◌,
}

abbrev pub comma : Char
comma = char 44 tt

abbrev pub colon : Char
colon = char 58 tt

abbrev pub push : Char → List String → List String
push c [] = (String.◌∷◌ c String.[]) ∷ []
push c (w ∷ ws) = (String.◌∷◌ c w) ∷ ws

-- `s.split(sep)` at a separator of one character
unfoldable pub split : Char → String → List String
split sep String.[] = String.[] ∷ []
split sep (String.◌∷◌ c s) =
    let rest = split sep s in if code c == code sep then String.[] ∷ rest else push c rest

-- `x + sep + rest`
abbrev pub between : Char → String → String → String
between sep String.[] t = String.◌∷◌ sep t
between sep (String.◌∷◌ c x) t = String.◌∷◌ c (between sep x t)

-- `",".join(codes)`
unfoldable pub join_commas : List String → String
join_commas [] = String.[]
join_commas (x ∷ []) = x
join_commas (x ∷ y ∷ rest) = let text = join_commas (y ∷ rest) in between comma x text

-- `codes.remove(code)`, which takes away the first
unfoldable pub remove : String → List String → List String
remove s [] = []
remove s (c ∷ cs) = let rest = remove s cs in if str_eq c s then cs else c ∷ rest

-- `code in codes`
abbrev pub contains : String → List String → Bool
contains s cs = any (λ c. str_eq c s) cs

-- The codes that stay, where the code is one of them.
unfoldable pub spend : String → String → Option String
unfolding split remove join_commas
spend codes s =
    let cs = split comma codes in if contains s cs then some (join_commas (remove s cs)) else none

unfoldable pub has_char : Char → String → Bool
has_char sep String.[] = false
has_char sep (String.◌∷◌ c s) = code c == code sep || has_char sep s

pub split-between :
    (sep : Char) (w t : String)
    → has_char sep w ≡ false
    → split sep (between sep w t) ≡ w ∷ split sep t
unfolding split has_char
split-between sep String.[] t h =
    let same : (code sep == code sep) ≡ true = (==_iff (code sep) (code sep)).1 refl in rw same refl
split-between sep (String.◌∷◌ c w) t h = elim (Bool-cases (code c == code sep)) [
  | inl e ↦ cc (rw e at h)
  | inr e ↦ rw (e, split-between sep w t (rw e at h)) refl
]

pub split_word : (sep : Char) (w : String) → has_char sep w ≡ false → split sep w ≡ w ∷ []
unfolding split has_char
split_word sep String.[] h = refl
split_word sep (String.◌∷◌ c w) h = elim (Bool-cases (code c == code sep)) [
  | inl e ↦ cc (rw e at h)
  | inr e ↦ rw (e, split_word sep w (rw e at h)) refl
]

-- Splitting undoes joining, for codes without a comma.
pub split-join_commas :
    (x : String) (xs : List String)
    → has_char comma x ≡ false
    → All (λ c. has_char comma c ≡ false) xs
    → split comma (join_commas (x ∷ xs)) ≡ x ∷ xs
unfolding join_commas
split-join_commas x [] h hs = split_word comma x h
split-join_commas x (y ∷ ys) h hs =
    split-between comma x (join_commas (y ∷ ys)) h
    ∙ ap (λ rest. x ∷ rest) (split-join_commas y ys hs.0 hs.1)

pub All-remove :
    (P : String → Type 0) (s : String) (cs : List String) → All P cs → All P (remove s cs)
unfolding remove
All-remove P s [] h = tt
All-remove P s (c ∷ cs) h = elim (Bool-cases (str_eq c s)) [
  | inl e ↦ rw e h.1
  | inr e ↦ rw e (h.0, All-remove P s cs h.1)
]
