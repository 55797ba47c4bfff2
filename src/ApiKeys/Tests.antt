-- ===== src/ApiKeys/Tests.antt =====
-- A key, on a server that enforces the lengths of its columns.
use mathlib.Core.Path.{◌≡◌, refl}
use mathlib.Core.List.{[]}
use mathlib.Core.Option.{none, some}
use python_codebase.Prelude.{len, leb, arith}
use python_codebase.Result.{err, data_error}
use python_codebase.ApiKeys.{ApiKeyDb, generate}
use python_codebase.ApiKeys.Lifecycle.{generate_refused}

abbrev db : ApiKeyDb
db = record { keys = []; next_id = 1; now = 10 }

generate_refused_example :
    generate (λ s. s) (some 1) (λ n s. leb (len s) n) "ci" [] none "00112233445566" db
    ≡ (err data_error, db)
generate_refused_example =
    generate_refused (λ s. s) 1 (λ n s. leb (len s) n) "ci" [] none "00112233445566" db
      (λ n s. refl) (omega arith)
