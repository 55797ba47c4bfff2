-- ===== src/Middleware/Gate.antt =====
-- Who reaches the application.
use python_codebase.Prelude.{
  ℕ, ◌≡◌, refl, ap, String, true, false, Option, some, List, ◌⊎◌, inl, inr, Bool-cases,
  Option-cases,
}
use python_codebase.Tokens.Revocation.{Identity}
use python_codebase.Result.{Result, ok}
use python_codebase.Middleware.{Request, Response, CallNext}
use python_codebase.Middleware.Authentication.{
  Provider, bearer, identified, is_open, first_identity, authenticate, missing_header,
  invalid_token,
}

module _ {R S : Type 0} (providers : List (Provider R)) (call_next : CallNext S) where
  -- The three ways of a request: open, identified, or refused.
  abbrev pub Open : Request → R → S → Result Response × R × S → Type 0
  Open request r s (result, r', s') =
      (is_open request ≡ true) × (r' ≡ r) × ((result, s') ≡ call_next request s)

  abbrev pub Known : Request → ℕ → R → S → Result Response × R × S → Type 0
  Known request now r s (result, r', s') =
      (token : String) × (i : Identity) × (bearer request.authorization ≡ some token)
      × (first_identity providers token now r ≡ (some i, r'))
      × ((result, s') ≡ call_next (identified request i) s)

  abbrev pub Unknown : Request → ℕ → R → S → Result Response × R × S → Type 0
  Unknown request now r s (result, r', s') =
      (is_open request ≡ false)
      × (s' ≡ s)
      × (response : Response) × (result ≡ ok response)
      × (response.status_code ≡ 401)

  -- A request reaches the application as it is where its method is OPTIONS or its path is public;
  -- with the identity that the first provider gives to the token of its header; and in no other
  -- case: then the answer is 401 and the application's state stays.
  pub authenticate-cases :
      (request : Request) (now : ℕ) (r : R) (s : S)
      → let result = authenticate providers call_next request now (r, s) in
        Open request r s result ⊎ (Known request now r s result ⊎ Unknown request now r s result)
  unfolding authenticate
  authenticate-cases request now r s = elim (Bool-cases (is_open request)) [
    | inl e ↦ inl (rw e (refl, refl, refl))
    | inr e ↦ inr (elim (Option-cases (bearer request.authorization)) [
      | inl none_given ↦ inr (rw (e, none_given) (refl, refl, missing_header, refl, refl))
      | inr (token, given) ↦ elim (Option-cases (first_identity providers token now r).0) [
        | inl unknown ↦ inr (rw (e, given, unknown) (refl, refl, invalid_token, refl, refl))
        | inr (i, found) ↦ inl (
            rw (e, given, found)
              (
                token,
                i,
                refl,
                ap (λ (o : Option Identity). (o, (first_identity providers token now r).1)) found,
                refl,
              ))
      ]
    ])
  ]
