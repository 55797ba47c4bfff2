-- ===== src/Middleware/Tenancy.antt =====
-- `TenantMiddleware` (src/core/middleware/tenant.py), over the table of tenants
-- (src/modules/tenants/infrastructure). `tenant_claim` is what python-jose and the claim "tenant_id"
-- give for a token at a time: none where the token is not accepted or the claim is missing.
use Prim.Native.Char.{char, code}
use mathlib.Core.Option
use python_codebase.Prelude.{
  ℕ, suc, ◌≡◌, refl, String, Bool, true, false, not, ◌||◌, Option, none, some, List, [], ◌∷◌, leb,
  filter, ◌==◌, str_eq, is_truthy, is_one_of, after_prefix, rstrip_slash, ◌⊎◌, inl, inr,
  Option-cases, if◌then◌else◌,
}
use python_codebase.Result.{Error, Result, ok, err, scalar_one_or_none}
use python_codebase.TwoFactor.{present}
use python_codebase.Tokens.Rotating.{Result-cases}
use python_codebase.Users.Saving.{same_text}
use python_codebase.Middleware.{Request, Response, CallNext}

pub record TenantModel : Type 0 where
  pub id : ℕ
  pub name : String
  pub slug : String
  pub domain : Option String

abbrev id? : Option TenantModel → Option ℕ
id? none = none
id? (some m) = some m.id

abbrev found_id : Result (Option TenantModel) → Result (Option ℕ)
found_id (ok m) = ok (id? m)
found_id (err e) = err e

-- The two queries of the middleware.
unfoldable pub id_by_slug : String → List TenantModel → Result (Option ℕ)
id_by_slug slug tenants = found_id (scalar_one_or_none (filter (λ m. str_eq m.slug slug) tenants))

unfoldable pub id_by_domain : String → List TenantModel → Result (Option ℕ)
id_by_domain host tenants =
    found_id (scalar_one_or_none (filter (λ m. same_text m.domain (some host)) tenants))

-- `host.count(".")`
abbrev pub count_dots : String → ℕ
count_dots String.[] = 0
count_dots (String.◌∷◌ c s) =
    let rest = count_dots s in if code c == code (char 46 tt) then suc rest else rest

-- A host with a subdomain.
abbrev pub subdomain : Option String → Option String
subdomain none = none
subdomain (some host) = if leb 2 (count_dots host) then some host else none

abbrev bearer_token : Option String → Option String
bearer_token none = none
bearer_token (some header) = after_prefix "Bearer " header

abbrev truthy : Option ℕ → Option ℕ
truthy none = none
truthy (some n) = if is_truthy (some n) then some n else none

abbrev pub not_identified : Response
not_identified = record {
  status_code = 400;
  body = "{\"detail\":\"Tenant not identified. Provide X-Tenant-ID header.\"}";
  media_type = some "application/json";
  headers = [];
}

abbrev pub is_exempt : Request → Bool
is_exempt request =
    str_eq request.method "OPTIONS"
    || is_one_of
        ("/health" ∷ "/live" ∷ "/ready" ∷ "/metrics" ∷ "/docs" ∷ "/redoc" ∷ "/openapi.json" ∷ [])
        (rstrip_slash request.path)

-- A tenant that a query has found by the header or the host, or one that the token claims.
pub data Naming : Type 0 where
  queried claimed : ℕ → Naming

abbrev pub tenant_named : Naming → ℕ
tenant_named (queried k) = k
tenant_named (claimed k) = k

-- The call for the tenant of a token stands in the `try` whose handler goes on to the answer 400, so
-- what it raises is hidden.
abbrev pub outcome_of : Naming → Result Response → Result Response
outcome_of (claimed k) (err e) = ok not_identified
outcome_of naming result = result

module _ (tenants : List TenantModel) (tenant_claim : String → Option ℕ) where
  abbrev by_claim : Option String → Option ℕ
  by_claim none = none
  by_claim (some token) = truthy (tenant_claim token)

  abbrev from_host : Request → Result (Option ℕ) → Result (Option Naming)
  from_host request (ok (some k)) = ok (some (queried k))
  from_host request (ok none) =
      ok (Option.map claimed (by_claim (bearer_token request.authorization)))
  from_host request (err e) = err e

  abbrev by_host : Option String → Result (Option ℕ)
  by_host none = ok none
  by_host (some host) = id_by_domain host tenants

  abbrev from_header : Request → Result (Option ℕ) → Result (Option Naming)
  from_header request (ok (some k)) = ok (some (queried k))
  from_header request (ok none) = from_host request (by_host (subdomain request.host))
  from_header request (err e) = err e

  abbrev by_header : Option String → Result (Option ℕ)
  by_header none = ok none
  by_header (some slug) = id_by_slug slug tenants

  -- The tenant of a request: by its header, or its host, or its token.
  unfoldable pub tenant_of : Request → Result (Option Naming)
  tenant_of request = from_header request (by_header (present request.tenant_header))

  module _ {S : Type 0} (multitenant : Bool) (default_tenant : Option ℕ)
      (call_next : CallNext S) where
    abbrev by_tenant : Request → S → Result (Option Naming) → Result Response × S
    by_tenant request s (err e) = (err e, s)
    by_tenant request s (ok none) = (ok not_identified, s)
    by_tenant request s (ok (some naming)) =
        let (result, s') =
          call_next (record request { tenant_id = some (tenant_named naming) }) s in
        (outcome_of naming result, s')

    -- `dispatch`
    unfoldable pub set_tenant : Request → S → Result Response × S
    set_tenant request s =
        if not multitenant
        then call_next (record request { tenant_id = default_tenant }) s
        else (if is_exempt request
            then call_next request s
            else by_tenant request s (tenant_of request))

    abbrev pub Passed : Naming → Request → S → Result Response × S → Type 0
    Passed naming request s (result, s') =
        let (inner, after) = call_next request s in
        (result ≡ outcome_of naming inner) × (s' ≡ after)

    -- Where several tenants are served, a request that is not exempt reaches the application with
    -- the tenant that its header, its host or its token names, and is answered as it is there, but
    -- with 400 for an exception where the token names it; where none of them names one, it is
    -- answered with 400, and the application's state stays.
    pub set_tenant-cases :
        (request : Request) (s : S)
        → multitenant ≡ true
        → is_exempt request ≡ false
        → ((naming : Naming) × (tenant_of request ≡ ok (some naming))
            × Passed naming
                (record request { tenant_id = some (tenant_named naming) })
                s
                (set_tenant request s))
          ⊎ (((tenant_of request ≡ ok none) × (set_tenant request s ≡ (ok not_identified, s)))
              ⊎ ((e : Error) × (set_tenant request s ≡ (err e, s))))
    unfolding set_tenant
    set_tenant-cases request s many served = elim (Result-cases (tenant_of request)) [
      | inl (found, e) ↦ elim (Option-cases found) [
        | inl absent ↦ inr (inl (rw absent at e, rw (many, served, e, absent) refl))
        | inr (naming, given) ↦
            inl (naming, rw given at e, rw (many, served, e, given) (refl, refl))
      ]
      | inr (e, failed) ↦ inr (inr (e, rw (many, served, failed) refl))
    ]
