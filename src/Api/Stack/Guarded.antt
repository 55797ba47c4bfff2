-- ===== src/Api/Stack/Guarded.antt =====
-- What a request must bring to change the database.
use python_codebase.Prelude.{
  ℕ, String, true, false, Option, none, some, ◌≡◌, refl, ap, ◌∙◌, ◌⊎◌, inl, inr, Option-cases,
}
use python_codebase.Result.{Result, ok, err}
use python_codebase.Tokens.Revocation.{Identity}
use python_codebase.Middleware.{Request, Response}
use python_codebase.Middleware.Authentication.{is_open, bearer, identified, first_identity}
use python_codebase.Middleware.Gate.{authenticate-cases}
use python_codebase.Middleware.Tenancy.{
  Naming, tenant_named, is_exempt, tenant_of, set_tenant-cases,
}
use python_codebase.Api.{AppDb, CurrentUser}
use python_codebase.Middleware.Rate.{apply_global_rate_limit}
use python_codebase.Api.Guarded.{Permitted}
use python_codebase.Api.Guarded.Routes.{serve_guarded}
use python_codebase.Api.Errors.{Reply}
use python_codebase.Api.Endpoints.{Endpoint, Body, needs, serve}
use python_codebase.Api.Stack.{
  Wiring, Moment, to_route, by_route, admitted, limited, cross_origin, crossed, idempotent, checked,
  tenanted, respond,
}
use python_codebase.Api.Stack.Passing.{limit_size-Passed, dispatch-Passed, check_csrf-Passed}

module _ {P C L R : Type 0} (w : Wiring P C L R) (m : Moment) where
  -- A request that reached a route: one that is open to all, or whose caller is permitted.
  abbrev pub Served : Request → AppDb × R → Type 0
  Served request s =
      (e : Endpoint) × (w.route request ≡ some e)
      × ((needs e ≡ none)
          ⊎ ((p : String × String) × (caller : CurrentUser × ℕ) × (needs e ≡ some p)
              × Permitted w.context p.0 p.1 request s.0 caller))

  -- The tables and the revocation keys stay, or the request was served.
  abbrev pub Harmless : Request → L × (AppDb × R) → L × (AppDb × R) → Type 0
  Harmless request s after = (after.1 ≡ s.1) ⊎ Served request s.1

  module _ (request : Request) (s : L × (AppDb × R)) where
    admitted-Harmless :
        (e : Endpoint) (verdict : Result (Unit {0}))
        → w.route request ≡ some e
        → ((admitted w m verdict e request s.1).1 ≡ s.1) ⊎ Served request s.1
    unfolding serve
    admitted-Harmless e (err refused) matched = inl refl
    admitted-Harmless e (ok u) matched = elim (Option-cases (needs e)) [
      | inl open_route ↦ inr (e, matched, inl open_route)
      | inr (p, need) ↦
          elim (serve_guarded w.context w.redis w.message request s.1.0 s.1.1 e p.0 p.1 need) [
            | inl (error, raised) ↦ inl (ap (λ (x : Reply Body × (AppDb × R)). x.1) raised)
            | inr (caller, permitted) ↦ inr (e, matched, inr (p, caller, need, permitted))
          ]
    ]

    by_route-Harmless :
        (o : Option Endpoint)
        → w.route request ≡ o
        → Harmless request s (by_route w m o request s).1
    by_route-Harmless none e = inl refl
    by_route-Harmless (some e) matched =
        admitted-Harmless e (apply_global_rate_limit w.to_int w.limiter w.rate_limit request s.0).0
          matched

    -- What is around the route keeps that.
    around :
        (inner after : L × (AppDb × R))
        → Harmless request s inner
        → (after ≡ s) ⊎ (after ≡ inner)
        → Harmless request s after
    around inner after harmless (inl same) = inl (ap (λ (x : L × (AppDb × R)). x.1) same)
    around inner after (inl kept) (inr called) =
        inl (ap (λ (x : L × (AppDb × R)). x.1) called ∙ kept)
    around inner after (inr served) (inr called) = inr served

    limited-Harmless : Harmless request s (limited w m request s).1
    limited-Harmless =
        around (to_route w m request s).1 (limited w m request s).1
          (by_route-Harmless (w.route request) refl)
          (limit_size-Passed (to_route w m) request s w.to_int w.max_upload_size)

    cross_origin-Harmless :
        (o : Option Response) → Harmless request s (cross_origin w m o request s).1
    cross_origin-Harmless (some response) = inl refl
    cross_origin-Harmless none = limited-Harmless

    idempotent-Harmless : (c : C) → Harmless request s (idempotent w m request (c, s)).1.1
    idempotent-Harmless c =
        around (crossed w m request s).1 (idempotent w m request (c, s)).1.1
          (cross_origin-Harmless (w.preflight request))
          (dispatch-Passed (crossed w m) request s w.cache w.sha256 w.ttl m.now m.done c)

    checked-Harmless : (c : C) → Harmless request s (checked w m request (c, s)).1.1
    checked-Harmless c =
        elim (check_csrf-Passed (idempotent w m) request (c, s) w.csrf_enabled w.csrf m.drawn) [
          | inl same ↦ inl (ap (λ (x : C × (L × (AppDb × R))). x.1.1) same)
          | inr called ↦
              around (idempotent w m request (c, s)).1.1 (checked w m request (c, s)).1.1
                (idempotent-Harmless c) (inr (ap (λ (x : C × (L × (AppDb × R))). x.1) called))
        ]

  -- Who a served request is: the identity that a provider gives to its token, in the tenant that the
  -- request names.
  abbrev pub Answered : Request → P → AppDb × R → P → Type 0
  Answered request p s p' =
      (token : String) × (i : Identity) × (n : Naming) × (bearer request.authorization ≡ some token)
      × (first_identity w.providers token m.now p ≡ (some i, p'))
      × (tenant_of w.tenants w.tenant_claim (identified request i) ≡ ok (some n))
      × Served (record (identified request i) { tenant_id = some (tenant_named n) }) s

  tenanted-cases :
      (request : Request) (c : C) (s : L × (AppDb × R))
      → w.multitenant ≡ true
      → is_exempt request ≡ false
      → ((tenanted w m request (c, s)).1.1.1 ≡ s.1)
        ⊎ ((n : Naming) × (tenant_of w.tenants w.tenant_claim request ≡ ok (some n))
            × Served (record request { tenant_id = some (tenant_named n) }) s.1)
  tenanted-cases request c s many inside =
      elim (set_tenant-cases w.tenants w.tenant_claim w.multitenant w.default_tenant (checked w m)
        request (c, s) many inside) [
          | inl (n, named, passed) ↦
              let here = record request { tenant_id = some (tenant_named n) } in
              elim (checked-Harmless here s c) [
                | inl kept ↦ inl (ap (λ (x : C × (L × (AppDb × R))). x.1.1) passed.1 ∙ kept)
                | inr served ↦ inr (n, named, served)
              ]
          | inr (inl (nameless, stopped)) ↦
              inl (ap (λ (x : Result Response × (C × (L × (AppDb × R)))). x.1.1.1) stopped)
          | inr (inr (e, failed)) ↦
              inl (ap (λ (x : Result Response × (C × (L × (AppDb × R)))). x.1.1.1) failed)
        ]

  -- Where several tenants are served, a request whose path is neither public nor exempt leaves the
  -- tables and the revocation keys as they were, or a provider knows its token, it names a tenant,
  -- and it reaches a route as that user in that tenant: one that requires no permission, or one
  -- whose permission the caller has in the tenant's policies. What the limiter and the idempotency
  -- cache keep in Redis may change.
  pub respond_guarded :
      (request : Request) (p : P) (c : C) (s : L × (AppDb × R))
      → w.multitenant ≡ true
      → is_open request ≡ false
      → is_exempt request ≡ false
      → let (response, p', after) = respond w m request (p, (c, s)) in
        (after.1.1 ≡ s.1) ⊎ Answered request p s.1 p'
  respond_guarded request p c s many closed inside =
      elim (authenticate-cases w.providers (tenanted w m) request m.now p (c, s)) [
        | inl (open_, _, _) ↦ cc (open_, closed)
        | inr (inr (_, same, _, _, _)) ↦ inl (ap (λ (x : C × (L × (AppDb × R))). x.1.1) same)
        | inr (inl (token, i, given, found, called)) ↦
            elim (tenanted-cases (identified request i) c s many inside) [
              | inl kept ↦
                  inl
                    (ap (λ (x : Result Response × (C × (L × (AppDb × R)))). x.1.1.1) called ∙ kept)
              | inr (n, named, served) ↦ inr (token, i, n, given, found, named, served)
            ]
      ]
