-- ===== src/Middleware/Tests.antt =====
-- A counter behind the middleware, which is asked twice with one key.
use text.Mathlib.TextPositions.{eq_refl}
use Prim.Native.Nat.{ℕ, zero, suc, ◌+◌}
use mathlib.Core.Path.{◌≡◌, refl}
use mathlib.Core.List.{[]}
use python_codebase.Result.{ok, err, value_error}
use python_codebase.Middleware.Csrf.{signed, signed_round_trip}
use mathlib.Core.Option.{Option, none, some}
use python_codebase.Accounts.Samples.{lenient, db}
use python_codebase.Middleware.Audit.{
  AuditDb, audit, record_in_session, trace_in_session, audit_keeps_nothing,
}
use python_codebase.Prelude.{String, ◌&&◌, true, ltb, str_eq, arith, if◌then◌else◌}
use python_codebase.Middleware.{Request, Response, CallNext}
use python_codebase.Middleware.Idempotency.{
  Cached, Redis, KeepsValues, conflict, replay, cached_of, dispatch, retry_lem,
}

-- A server that holds one value: its key, and when it ends.
abbrev Slot : Type 0
Slot = Option (String × Cached × ℕ)

abbrev get_slot : String → ℕ → Slot → Option Cached
get_slot key now none = none
get_slot key now (some (k, value, ends)) = if str_eq k key && ltb now ends then some value else none

abbrev one_slot : Redis Slot
one_slot = record { get = get_slot; setex = λ key ttl value now r. some (key, value, now + ttl) }

one_slot-KeepsValues : KeepsValues one_slot
one_slot-KeepsValues key ttl value now later r intime =
    let early : ltb later (now + ttl) ≡ true = ground arith in rw (eq_refl key, early) refl

abbrev created : Response
created = record { status_code = 201; body = "created"; media_type = none; headers = [] }

abbrev count_up : CallNext ℕ
count_up request n = (ok created, n + 1)

abbrev post : Request
post = record {
  method = "POST";
  path = "/api/v1/todos";
  authorization = none;
  idempotency_key = some "k1";
  body = "milk";
  content_length = some "4";
  tenant_header = none;
  host = none;
  csrf_header = none;
  csrf_cookie = none;
  user_id = none;
  auth_provider = none;
  tenant_id = none;
  forwarded_for = none;
  client_host = some "10.0.0.1";
  user_agent = none;
  request_id_header = none;
  path_params = [];
  request_id = none;
}

abbrev elsewhere : Request
elsewhere = record post { body = "bread"; tenant_header = some "other" }

retry_lem_example :
    let (result, r', s') = dispatch one_slot (λ b. b) 60 count_up post 5 6 (none, 0) in
    dispatch one_slot (λ b. b) 60 count_up elsewhere 20 20 (r', s') ≡ (
      if str_eq "milk" "bread"
      then (ok (replay (cached_of one_slot (λ b. b) 60 count_up post created)), r', s')
      else (ok conflict, r', s'))
retry_lem_example =
    retry_lem one_slot (λ b. b) 60 count_up post elsewhere "k1" 5 6 20 20 none 0 created
      one_slot-KeepsValues refl refl refl refl refl refl refl refl refl (omega arith)

signed_round_trip_example :
    (signed (λ s. "0a1b") "key" "20000").validate_token
      ((signed (λ s. "0a1b") "key" "20000").generate_token "raw")
      "other"
    ≡ ok (str_eq ((signed (λ s. "0a1b") "key" "20000").generate_token "raw") "other")
signed_round_trip_example =
    signed_round_trip (λ s. "0a1b") "key" "20000" "raw" "other" refl (λ s. refl)

-- A counter that fails on its second call.
abbrev failing : CallNext ℕ
failing request zero = (ok created, 1)
failing request (suc n) = (err (value_error "again"), suc n + 1)

abbrev audited : AuditDb
audited = record { accounts = db; error_traces = [] }

audit_keeps_nothing_example :
    audit
      (λ n. "status")
      (record_in_session lenient)
      (trace_in_session lenient)
      failing
      post
      (audited, 1)
    ≡ (err (value_error "again"), (audited, 2))
audit_keeps_nothing_example = audit_keeps_nothing lenient (λ n. "status") failing post audited 1
