-- ===== src/Middleware/Csrf.antt =====
-- `CSRFMiddleware` (src/core/middleware/csrf.py) and the services of src/core/security/csrf.py.
-- `compare_digest` raises TypeError where a text is not ASCII; the texts of `secrets` are drawn
-- outside.
use Prim.Native.Char.{Char, char, code}
use Prim.Native.String.{◌++◌ as append}
use python_codebase.Prelude.{
  ◌≡◌, refl, String, Bool, true, false, not, ◌&&◌, Option, none, some, List, [], ◌∷◌, ◌==◌, str_eq,
  get_or, is_one_of, first_chars, ltb, leb, ◌||◌, ℕ, zero, suc, arith, if◌then◌else◌,
}
use text.Mathlib.TextPositions.{eq_refl}
use python_codebase.TwoFactor.Codes.{between, has_char}
use python_codebase.Result.{Result, ok, err, type_error}
use python_codebase.Middleware.{Request, Response, CallNext}

-- `validate_token token cookie_token`, and the text of `generate_token` for a drawn one.
pub record CsrfService : Type 0 where
  pub generate_token : String → String
  pub validate_token : String → String → Result Bool

abbrev pub is_nonempty : String → Bool
is_nonempty String.[] = false
is_nonempty (String.◌∷◌ c s) = true

-- `str.isascii`
abbrev pub is_ascii : String → Bool
is_ascii String.[] = true
is_ascii (String.◌∷◌ c s) = ltb (code c) 128 && is_ascii s

-- `hmac.compare_digest` of two texts
unfoldable pub compare_digest : String → String → Result Bool
compare_digest a b = if is_ascii a && is_ascii b then ok (str_eq a b) else err type_error

-- `DoubleSubmitCSRFService`
unfoldable pub double_submit : CsrfService
double_submit = record {
  generate_token = λ drawn. drawn;
  validate_token = λ token cookie.
      if is_nonempty token && is_nonempty cookie then compare_digest token cookie else ok false;
}

abbrev pub dot : Char
dot = char 46 tt

abbrev pub is_hex : String → Bool
is_hex String.[] = true
is_hex (String.◌∷◌ c s) =
    ((leb 48 (code c) && leb (code c) 57) || (leb 97 (code c) && leb (code c) 102)) && is_hex s

hex-ascii : (s : String) → is_hex s ≡ true → is_ascii s ≡ true
hex-ascii String.[] h = refl
hex-ascii (String.◌∷◌ c s) h = ground (arith, hex-ascii s)

hex-no_dot : (s : String) → is_hex s ≡ true → has_char dot s ≡ false
unfolding has_char
hex-no_dot String.[] h = refl
hex-no_dot (String.◌∷◌ c s) h = ground (arith, hex-no_dot s)

abbrev or_here : Char → String → Option (String × String) → Option (String × String)
or_here c s (some (before, after)) = some (String.◌∷◌ c before, after)
or_here c s none = if code c == code dot then some (String.[], s) else none

-- `s.rsplit(".", 1)`, where it has two parts
unfoldable pub rsplit_dot : String → Option (String × String)
rsplit_dot String.[] = none
rsplit_dot (String.◌∷◌ c s) = or_here c s (rsplit_dot s)

module _ (sha256 : String → String) (secret_key day : String) where
  -- `_sign`; `day` is the text of the days since the epoch
  unfoldable pub sign : String → String
  sign value =
      first_chars 16 (sha256 (append value (append ":" (append secret_key (append ":csrf:" day)))))

  -- `compare_digest(sig, expected) and compare_digest(token, cookie_token)`
  abbrev both : Result Bool → Result Bool → Result Bool
  both (ok true) second = second
  both (ok false) second = ok false
  both (err e) second = err e

  -- A token without a dot raises ValueError, which is caught; TypeError is not.
  abbrev is_signed : String → String → Option (String × String) → Result Bool
  is_signed token cookie none = ok false
  is_signed token cookie (some (raw, sig)) =
      both (compare_digest sig (sign raw)) (compare_digest token cookie)

  -- `SignedCSRFService`
  unfoldable pub signed : CsrfService
  signed = record {
    generate_token = λ raw. between dot raw (sign raw);
    validate_token = λ token cookie. is_signed token cookie (rsplit_dot token);
  }

  no_dot-rsplit : (s : String) → has_char dot s ≡ false → rsplit_dot s ≡ none
  unfolding rsplit_dot has_char
  no_dot-rsplit String.[] h = refl
  no_dot-rsplit (String.◌∷◌ c s) h =
      let other : (code c == code dot) ≡ false = ground arith in
      let rest : has_char dot s ≡ false = ground arith in rw (no_dot-rsplit s rest, other) refl

  rsplit-between :
      (raw s : String) → has_char dot s ≡ false → rsplit_dot (between dot raw s) ≡ some (raw, s)
  unfolding rsplit_dot
  rsplit-between String.[] s h = rw (no_dot-rsplit s h) refl
  rsplit-between (String.◌∷◌ c raw) s h = rw (rsplit-between raw s h) refl

  ascii-between :
      (raw s : String)
      → is_ascii raw ≡ true
      → is_ascii s ≡ true
      → is_ascii (between dot raw s) ≡ true
  ascii-between String.[] s h k = ground arith
  ascii-between (String.◌∷◌ c raw) s h k = ground (arith, ascii-between raw s)

  first_chars-Hex : (n : ℕ) (s : String) → is_hex s ≡ true → is_hex (first_chars n s) ≡ true
  first_chars-Hex zero s h = refl
  first_chars-Hex (suc n) String.[] h = refl
  first_chars-Hex (suc n) (String.◌∷◌ c s) h = ground (arith, first_chars-Hex n s)

  -- A signed token that is sent back on the same day is valid where the cookie is the token and not
  -- with any other ASCII cookie; with a cookie that is not ASCII the check raises TypeError. The
  -- drawn text is ASCII; it is relied on that a hexadecimal digest has hexadecimal digits only.
  pub signed_round_trip :
      (raw cookie : String)
      → is_ascii raw ≡ true
      → ((s : String) → is_hex (sha256 s) ≡ true)
      → signed.validate_token (signed.generate_token raw) cookie ≡ (
          if is_ascii cookie
          then ok (str_eq (signed.generate_token raw) cookie)
          else err type_error)
  unfolding signed sign compare_digest
  signed_round_trip raw cookie drawn digest =
      let sig : is_hex (sign raw) ≡ true =
        first_chars-Hex 16
          (sha256 (append raw (append ":" (append secret_key (append ":csrf:" day)))))
          (digest (append raw (append ":" (append secret_key (append ":csrf:" day))))) in
      let ascii : is_ascii (sign raw) ≡ true = hex-ascii (sign raw) sig in
      let whole : is_ascii (between dot raw (sign raw)) ≡ true =
        ascii-between raw (sign raw) drawn ascii in
      rw
        (
          rsplit-between raw (sign raw) (hex-no_dot (sign raw) sig),
          ascii,
          eq_refl (sign raw),
          whole,
        )
        refl

-- `SAFE_METHODS`
abbrev pub safe_methods : List String
safe_methods = "GET" ∷ "HEAD" ∷ "OPTIONS" ∷ "TRACE" ∷ []

abbrev pub forbidden : Response
forbidden = record {
  status_code = 403;
  body = "{\"detail\":\"CSRF token missing or invalid\"}";
  media_type = some "application/json";
  headers = [];
}

module _ {S : Type 0} (enabled : Bool) (service : CsrfService) (call_next : CallNext S) where
  -- `if not cookie_token`: the value of the cookie that the answer sets
  abbrev new_cookie : Option String → String → Option String
  new_cookie none drawn = some (service.generate_token drawn)
  new_cookie (some cookie) drawn =
      if is_nonempty cookie then none else some (service.generate_token drawn)

  -- A cookie is set on a response, if there is one.
  abbrev set_on : Result Response → Option String → Option String
  set_on (ok response) cookie = cookie
  set_on (err e) cookie = none

  abbrev pass : Request → Option String → S → Result Response × Option String × S
  pass request cookie s =
      let (result, s') = call_next request s in (result, set_on result cookie, s')

  abbrev by_verdict : Request → S → Result Bool → Result Response × Option String × S
  by_verdict request s (err e) = (err e, none, s)
  by_verdict request s (ok true) = pass request none s
  by_verdict request s (ok false) = (ok forbidden, none, s)

  abbrev guard : Request → S → Result Response × Option String × S
  guard request s =
      by_verdict request s
        (service.validate_token (get_or request.csrf_header "") (get_or request.csrf_cookie ""))

  -- `dispatch`: the response, the cookie that is set on it, and the application's state
  unfoldable pub check_csrf : Request → String → S → Result Response × Option String × S
  check_csrf request drawn s =
      if not enabled
      then pass request none s
      else (if is_one_of safe_methods request.method
          then pass request (new_cookie request.csrf_cookie drawn) s
          else guard request s)
