-- ===== src/Middleware/Headers.antt =====
-- The middleware that write the headers of the answer: src/core/middleware/request_id.py,
-- security_headers.py and csp.py, and the two last ones in the order in which
-- src/core/bootstrap/middleware.py adds them. Starlette compares the names of headers in lower case;
-- here a name is spelled one way.
use python_codebase.Prelude.{
  String, true, false, not, ◌||◌, Option, none, some, List, [], ◌∷◌, ◌++◌, ◌≡◌, refl, ◌∙◌, inl, inr,
  filter, str_eq, eq_iff, is_some, after_prefix, ap, Bool-cases, Option-cases, if◌then◌else◌,
}
use text.Mathlib.TextPositions.{eq_refl}
use python_codebase.Result.{Result, ok, err}
use python_codebase.Middleware.{Request, Response, CallNext}

abbrev Headers : Type 0
Headers = List (String × String)

-- `response.headers.get(name)`
abbrev pub header : String → Headers → Option String
header name [] = none
header name (x ∷ xs) = let rest = header name xs in if str_eq x.0 name then some x.1 else rest

-- `response.headers.setdefault(name, value)`
unfoldable pub setdefault : String → String → Headers → Headers
setdefault name value hs = if is_some (header name hs) then hs else hs ++ (name, value) ∷ []

-- `response.headers[name] = value`
unfoldable pub set_header : String → String → Headers → Headers
set_header name value [] = (name, value) ∷ []
set_header name value (x ∷ xs) =
    let rest = set_header name value xs in
    if str_eq x.0 name then (name, value) ∷ filter (λ y. not (str_eq y.0 name)) xs else x ∷ rest

abbrev pub csp : String
csp = "Content-Security-Policy"

-- The policy of `CSPMiddleware` for a path
abbrev pub policy_of : String → String
policy_of path =
    if is_some (after_prefix "/docs" path) || is_some (after_prefix "/redoc" path)
    then "default-src 'self'; script-src 'self' 'unsafe-inline' https://cdn.jsdelivr.net; style-src 'self' 'unsafe-inline' https://cdn.jsdelivr.net; img-src 'self' data: https:; font-src 'self' https:;"
    else "default-src 'self'; object-src 'none'; base-uri 'self'; frame-ancestors 'none';"

abbrev on_headers : (Headers → Headers) → Result Response → Result Response
on_headers f (err e) = err e
on_headers f (ok response) = ok (record response { headers = f response.headers })

abbrev secured : String → Headers → Headers
secured policy hs = setdefault csp policy (
    setdefault "Permissions-Policy" "camera=(), microphone=(), geolocation=()" (
      setdefault "Referrer-Policy" "no-referrer"
        (setdefault "X-Frame-Options" "DENY" (setdefault "X-Content-Type-Options" "nosniff" hs))))

module _ {S : Type 0} (call_next : CallNext S) where
  abbrev with_headers : (Headers → Headers) → Request → S → Result Response × S
  with_headers f request s = let (result, s') = call_next request s in (on_headers f result, s')

  -- `SecurityHeadersMiddleware.dispatch`; the policy is a setting
  unfoldable pub security_headers : String → CallNext S
  security_headers policy = with_headers (secured policy)

  -- `CSPMiddleware.dispatch`
  unfoldable pub content_security : CallNext S
  content_security request = with_headers (set_header csp (policy_of request.path)) request

  -- `RequestIDMiddleware.dispatch`; the UUID is drawn outside
  abbrev request_id_of : Option String → String → String
  request_id_of none drawn = drawn
  request_id_of (some String.[]) drawn = drawn
  request_id_of (some (String.◌∷◌ c s)) drawn = String.◌∷◌ c s

  unfoldable pub request_id : String → CallNext S
  request_id drawn request =
      let id = request_id_of request.request_id_header drawn in
      with_headers (set_header "X-Request-ID" id) (record request { request_id = some id })

header-set_header_self :
    (name value : String) (hs : Headers) → header name (set_header name value hs) ≡ some value
unfolding set_header
header-set_header_self name value [] = rw (eq_refl name) refl
header-set_header_self name value (x ∷ xs) = elim (Bool-cases (str_eq x.0 name)) [
  | inl same ↦ rw (same, eq_refl name) refl
  | inr other ↦ rw (other, other) (header-set_header_self name value xs)
]

same_name :
    (a name other : String)
    → str_eq a name ≡ true
    → str_eq name other ≡ false
    → str_eq a other ≡ false
same_name a name other same h = rw ((eq_iff a name).0 same) h

header-filter :
    (name other : String) (hs : Headers)
    → str_eq name other ≡ false
    → header other (filter (λ y. not (str_eq y.0 name)) hs) ≡ header other hs
header-filter name other [] h = refl
header-filter name other (x ∷ xs) h = elim (Bool-cases (str_eq x.0 name)) [
  | inl same ↦ rw (same, same_name x.0 name other same h) (header-filter name other xs h)
  | inr differs ↦ rw (differs, header-filter name other xs h) refl
]

header-set_header_other :
    (name other value : String) (hs : Headers)
    → str_eq name other ≡ false
    → header other (set_header name value hs) ≡ header other hs
unfolding set_header
header-set_header_other name other value [] h = rw h refl
header-set_header_other name other value (x ∷ xs) h = elim (Bool-cases (str_eq x.0 name)) [
  | inl same ↦ rw (same, h, same_name x.0 name other same h) (header-filter name other xs h)
  | inr differs ↦ rw (differs, header-set_header_other name other value xs h) refl
]

-- The value of a header, or the default where there is none.
abbrev pub or_default : Option String → String → Option String
or_default none value = some value
or_default (some old) value = some old

header-append :
    (name other value : String) (hs : Headers)
    → str_eq name other ≡ false
    → header other (hs ++ (name, value) ∷ []) ≡ header other hs
header-append name other value [] h = rw h refl
header-append name other value (x ∷ xs) h = rw (header-append name other value xs h) refl

header-append_self :
    (name value : String) (hs : Headers)
    → header name hs ≡ none
    → header name (hs ++ (name, value) ∷ []) ≡ some value
header-append_self name value [] h = rw (eq_refl name) refl
header-append_self name value (x ∷ xs) h = elim (Bool-cases (str_eq x.0 name)) [
  | inl same ↦ cc (rw same at h)
  | inr differs ↦ rw differs (header-append_self name value xs (rw differs at h))
]

header-setdefault_self :
    (name value : String) (hs : Headers)
    → header name (setdefault name value hs) ≡ or_default (header name hs) value
unfolding setdefault
header-setdefault_self name value hs = elim (Option-cases (header name hs)) [
  | inl absent ↦ rw absent (header-append_self name value hs absent)
  | inr (old, here) ↦ rw (here, here) refl
]

header-setdefault_other :
    (name other value : String) (hs : Headers)
    → str_eq name other ≡ false
    → header other (setdefault name value hs) ≡ header other hs
unfolding setdefault
header-setdefault_other name other value hs h = elim (Option-cases (header name hs)) [
  | inl absent ↦ rw absent (header-append name other value hs h)
  | inr (old, here) ↦ rw here refl
]

-- As the application adds the two middleware, the policy of an answer is that of `CSPMiddleware` for
-- its path, whatever the setting and the application say; the frame option and the type option are
-- the application's, or DENY and nosniff where it gives none.
answer_headers :
    {S : Type 0} (call_next : CallNext S) (policy : String) (request : Request) (s : S)
    (response : Response)
    → (call_next request s).0 ≡ ok response
    → let given = response.headers in
      (written : Headers) × ((content_security (security_headers call_next policy) request s).0
        ≡ ok (record response { headers = written }))
      × (header csp written ≡ some (policy_of request.path))
      × (header "X-Frame-Options" written ≡ or_default (header "X-Frame-Options" given) "DENY")
      × (header "X-Content-Type-Options" written
          ≡ or_default (header "X-Content-Type-Options" given) "nosniff")
unfolding security_headers content_security
answer_headers call_next policy request s response answered = (
  set_header csp (policy_of request.path) (secured policy response.headers),
  rw answered refl,
  header-set_header_self csp (policy_of request.path) _,
  header-set_header_other csp "X-Frame-Options" _ _ refl
      ∙ header-setdefault_other csp "X-Frame-Options" _ _ refl
      ∙ header-setdefault_other "Permissions-Policy" "X-Frame-Options" _ _ refl
      ∙ header-setdefault_other "Referrer-Policy" "X-Frame-Options" _ _ refl
      ∙ header-setdefault_self "X-Frame-Options" _ _
      ∙ ap (λ o. or_default o "DENY")
          (header-setdefault_other "X-Content-Type-Options" "X-Frame-Options" _ _ refl),
  header-set_header_other csp "X-Content-Type-Options" _ _ refl
      ∙ header-setdefault_other csp "X-Content-Type-Options" _ _ refl
      ∙ header-setdefault_other "Permissions-Policy" "X-Content-Type-Options" _ _ refl
      ∙ header-setdefault_other "Referrer-Policy" "X-Content-Type-Options" _ _ refl
      ∙ header-setdefault_other "X-Frame-Options" "X-Content-Type-Options" _ _ refl
      ∙ header-setdefault_self "X-Content-Type-Options" _ _,
)
