-- ===== src/Api/Stack/Passing.antt =====
-- A middleware calls the rest of the application once, with the request as it came, or not at all.
use python_codebase.Prelude.{
  ℕ, String, Bool, ◌≡◌, refl, Option, get_or, ◌⊎◌, inl, inr, ltb, str_eq, is_one_of, Bool-cases,
  Option-cases,
}
use python_codebase.Tokens.Rotating.{Result-cases}
use python_codebase.TwoFactor.{present}
use python_codebase.Middleware.{Request, CallNext}
use python_codebase.Middleware.Csrf.{CsrfService, safe_methods, check_csrf}
use python_codebase.Middleware.Idempotency.{Redis, given, cache_key, dispatch}
use python_codebase.Middleware.Limits.{has_body, limit_size}

-- The state of the rest of the application: as it was, or as the call leaves it.
abbrev pub Passed : {S : Type 0} → CallNext S → Request → S → S → Type 0
Passed call_next request s after = (after ≡ s) ⊎ (after ≡ (call_next request s).1)

module _ {S : Type 0} (call_next : CallNext S) (request : Request) (s : S) where
  pub limit_size-Passed :
      (to_int : String → Option ℕ) (max : ℕ)
      → Passed call_next request s (limit_size to_int max call_next request s).1
  unfolding limit_size
  limit_size-Passed to_int max = elim (Bool-cases (has_body request)) [
    | inr none_sent ↦ inr (rw none_sent refl)
    | inl sent ↦ elim (Option-cases (present request.content_length)) [
      | inl missing ↦ inl (rw (sent, missing) refl)
      | inr (text, there) ↦ elim (Option-cases (to_int text)) [
        | inl bad ↦ inl (rw (sent, there, bad) refl)
        | inr (n, number) ↦ elim (Bool-cases (ltb max n)) [
          | inl large ↦ inl (rw (sent, there, number, large) refl)
          | inr fits ↦ inr (rw (sent, there, number, fits) refl)
        ]
      ]
    ]
  ]

  pub check_csrf-Passed :
      (enabled : Bool) (service : CsrfService) (drawn : String)
      → Passed call_next request s (check_csrf enabled service call_next request drawn s).2
  unfolding check_csrf
  check_csrf-Passed enabled service drawn = elim (Bool-cases enabled) [
    | inr off ↦ inr (rw off refl)
    | inl on ↦ elim (Bool-cases (is_one_of safe_methods request.method)) [
      | inl safe ↦ inr (rw (on, safe) refl)
      | inr unsafe ↦
          elim (Result-cases (
            service.validate_token (get_or request.csrf_header "")
              (get_or request.csrf_cookie ""))) [
                | inr (e, failed) ↦ inl (rw (on, unsafe, failed) refl)
                | inl (verdict, checked) ↦ elim (Bool-cases verdict) [
                  | inl valid ↦ inr (rw (on, unsafe, checked, valid) refl)
                  | inr forged ↦ inl (rw (on, unsafe, checked, forged) refl)
                ]
              ]
    ]
  ]

  pub dispatch-Passed :
      {C : Type 0} (redis : Redis C) (sha256 : String → String) (ttl now done : ℕ) (c : C)
      → Passed call_next request s (dispatch redis sha256 ttl call_next request now done (c, s)).2
  unfolding dispatch
  dispatch-Passed redis sha256 ttl now done c = elim (Bool-cases (str_eq request.method "POST")) [
    | inr other ↦ inr (rw other refl)
    | inl post ↦ elim (Option-cases (given request.idempotency_key)) [
      | inl without ↦ inr (rw (post, without) refl)
      | inr (key, keyed) ↦
          elim (Option-cases (redis.get (cache_key redis sha256 ttl call_next request key) now c)) [
            | inl absent ↦ inr (rw (post, keyed, absent) refl)
            | inr (cached, there) ↦
                elim (Bool-cases (str_eq cached.request_body_hash (sha256 request.body))) [
                  | inl same ↦ inl (rw (post, keyed, there, same) refl)
                  | inr other ↦ inl (rw (post, keyed, there, other) refl)
                ]
          ]
    ]
  ]
