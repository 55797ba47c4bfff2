-- ===== src/Middleware/Idempotency.antt =====
-- `IdempotencyMiddleware` (src/core/middleware/idempotency.py). Redis is an interface; the cached
-- value is the record that the middleware writes as JSON and reads back. Bodies are texts.
use Prim.Native.String.{◌++◌ as append}
use python_codebase.Prelude.{
  ℕ, ◌+◌, ◌<◌, ◌≡◌, refl, String, Bool, true, ◌&&◌, Option, none, some, [], ◌∷◌, inl, inr, ltb, leb,
  str_eq, get_or, Bool-cases, if◌then◌else◌,
}
use python_codebase.Result.{Result, ok, err}
use python_codebase.Middleware.{Request, Response, CallNext}

pub record Cached : Type 0 where
  pub body : String
  pub status_code : ℕ
  pub media_type : Option String
  pub request_body_hash : String

-- A Redis server in a state of type `R`: `get key now` and `setex key ttl value now`.
pub record Redis (R : Type 0) : Type 0 where
  pub get : String → ℕ → R → Option Cached
  pub setex : String → ℕ → Cached → ℕ → R → R

-- A value that is set with a time to live is read until the time is over.
abbrev pub KeepsValues : {R : Type 0} → Redis R → Type 0
KeepsValues {R} redis =
    (key : String) (ttl : ℕ) (value : Cached) (now later : ℕ) (r : R)
    → later < now + ttl
    → redis.get key later (redis.setex key ttl value now r) ≡ some value

-- `if not idempotency_key`: no header, or an empty one
abbrev pub given : Option String → Option String
given none = none
given (some String.[]) = none
given (some (String.◌∷◌ c s)) = some (String.◌∷◌ c s)

-- The answer to a key that was used with another body.
abbrev pub conflict : Response
conflict = record {
  status_code = 409;
  body = "{\"detail\":\"Idempotency-Key was already used with a different request body\"}";
  media_type = some "application/json";
  headers = [];
}

-- The answer from the cache.
abbrev pub replay : Cached → Response
replay cached = record {
  status_code = cached.status_code;
  body = cached.body;
  media_type = cached.media_type;
  headers = ("X-Idempotent-Replay", "true") ∷ [];
}

abbrev pub is_success : Response → Bool
is_success response = leb 200 response.status_code && ltb response.status_code 300

module _ {R S : Type 0} (redis : Redis R) (sha256 : String → String) (ttl : ℕ)
    (call_next : CallNext S) where
  -- `_cache_key`
  unfoldable pub cache_key : Request → String → String
  cache_key request key = append "idempotency:" (
      sha256 (
        append (get_or request.authorization "anonymous")
          (append ":" (append request.path (append ":" key)))))

  -- What the cache keeps of a response.
  abbrev pub cached_of : Request → Response → Cached
  cached_of request response = record {
    body = response.body;
    status_code = response.status_code;
    media_type = response.media_type;
    request_body_hash = sha256 request.body;
  }

  abbrev store_response : Request → String → ℕ → Result Response → R → R
  store_response request key done (err e) r = r
  store_response request key done (ok response) r =
      if is_success response
      then redis.setex (cache_key request key) ttl (cached_of request response) done r
      else r

  abbrev by_cached : Request → String → Option Cached → ℕ → R × S → Result Response × R × S
  by_cached request key (some cached) done (r, s) =
      if str_eq cached.request_body_hash (sha256 request.body)
      then (ok (replay cached), r, s)
      else (ok conflict, r, s)
  by_cached request key none done (r, s) =
      let (result, s') = call_next request s in
      (result, store_response request key done result r, s')

  abbrev pass : Request → R × S → Result Response × R × S
  pass request (r, s) = let (result, s') = call_next request s in (result, r, s')

  abbrev by_key : Request → Option String → ℕ → ℕ → R × S → Result Response × R × S
  by_key request none now done state = pass request state
  by_key request (some key) now done state =
      by_cached request key (redis.get (cache_key request key) now state.0) done state

  -- `dispatch`: the cache is read at `now`, and written at `done`
  unfoldable pub dispatch : Request → ℕ → ℕ → R × S → Result Response × R × S
  dispatch request now done state =
      if str_eq request.method "POST"
      then by_key request (given request.idempotency_key) now done state
      else pass request state

  -- Where a POST with a key that the cache does not hold is answered with success, a POST of
  -- the same authorization to the same path with the same key, before the time to live is over and
  -- whatever its tenant and the rest of it, does not reach the application: its state and the cache
  -- stay as the first request left them; the answer is the first one's where the body has the same
  -- hash, and a conflict otherwise. What is relied on: Redis keeps values.
  pub retry_lem :
      (request again : Request) (key : String) (now done later end : ℕ) (r : R) (s : S)
      (response : Response)
      → KeepsValues redis
      → str_eq request.method "POST" ≡ true
      → str_eq again.method "POST" ≡ true
      → given request.idempotency_key ≡ some key
      → given again.idempotency_key ≡ some key
      → again.authorization ≡ request.authorization
      → again.path ≡ request.path
      → redis.get (cache_key request key) now r ≡ none
      → (call_next request s).0 ≡ ok response
      → is_success response ≡ true
      → later < done + ttl
      → let (result, r', s') = dispatch request now done (r, s) in
        dispatch again later end (r', s') ≡ (
          if str_eq (sha256 request.body) (sha256 again.body)
          then (ok (replay (cached_of request response)), r', s')
          else (ok conflict, r', s'))
  unfolding dispatch cache_key
  retry_lem request again key now done later end r s response keeps post posted keyed kept
        same_caller same_path absent answered fine intime =
      rw (post, posted, keyed, kept, same_caller, same_path, absent, answered, fine)
        (rw (keeps (cache_key request key) ttl (cached_of request response) done later r intime)
          (elim (Bool-cases (str_eq (sha256 request.body) (sha256 again.body))) [
            | inl same ↦ rw same refl
            | inr other ↦ rw other refl
          ]))
