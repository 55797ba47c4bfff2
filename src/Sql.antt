-- ===== src/Sql.antt =====
-- The tenant column of every table, and the tenant filter of every repository
-- (`if self._tenant_id: stmt = stmt.where(Model.tenant_id == self._tenant_id)`).
use python_codebase.Prelude.{ℕ, zero, suc, Bool, true, ◌≡◌, refl, arith, Option, none, some, ◌==◌}
use python_codebase.Result.{Result, ok, err, integrity_error}

-- Does a row of tenant `row` pass the filter of a repository of this tenant? None and 0 are
-- false in Python, so they filter nothing.
unfoldable pub in_tenant : Option ℕ → ℕ → Bool
in_tenant none row = true
in_tenant (some zero) row = true
in_tenant (some (suc t)) row = row == suc t

-- The tenant of a row that the repository writes: the column is not nullable
-- (src/shared/database/mixin/tenant.py), so a flush without a tenant raises.
unfoldable pub tenant_column : Option ℕ → Result ℕ
tenant_column none = err integrity_error
tenant_column (some t) = ok t

pub in_tenant_own : (t : ℕ) → in_tenant (some t) t ≡ true
unfolding in_tenant
in_tenant_own zero = refl
in_tenant_own (suc t) = ground arith
