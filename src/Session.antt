-- ===== src/Session.antt =====
-- src/core/database/unit_of_work.py over one database session: what is committed, what the open
-- transaction sees, and the unit's flag. `D` is the tables that a component uses.
mod Tests
pub mod Atomicity
use python_codebase.Prelude.{Bool, true, false, if◌then◌else◌}
use python_codebase.Result.{Result, ok, err}
use python_codebase.State.{State}

pub record Session (D : Type 0) : Type 0 where
  pub committed : D
  pub working : D
  -- `_committed` of the unit of work
  pub is_committed : Bool

-- A call on the session, as the handlers are.
abbrev pub Exec : Type 0 → Type 0 → Type 0
Exec D A = State (Session D) A

-- A call on the tables alone, as the repositories make.
abbrev pub Query : Type 0 → Type 0 → Type 0
Query D A = State D A

-- `SQLAlchemyUnitOfWork.__aenter__`
abbrev pub enter : {D : Type 0} → Session D → Session D
enter s = record s { is_committed = false }

-- `SQLAlchemyUnitOfWork.commit`
abbrev pub commit : {D : Type 0} → Session D → Session D
commit s = record { committed = s.working; working = s.working; is_committed = true }

-- `SQLAlchemyUnitOfWork.rollback`
abbrev pub rollback : {D : Type 0} → Session D → Session D
rollback s = record s { working = s.committed }

-- `SQLAlchemyUnitOfWork.__aexit__`: it returns False, so an exception goes on.
pub exit : {D A : Type 0} → Result A → Session D → Result A × Session D
exit (err e) s = (err e, rollback s)
exit (ok a) s = (ok a, if s.is_committed then s else rollback s)

-- `async with unit_of_work: body`
unfoldable pub with_unit : {D A : Type 0} → Exec D A → Exec D A
unfolding exit
with_unit body s = let (r, s') = body (enter s) in exit r s'

-- A repository call inside a session.
abbrev pub lift : {D A : Type 0} → Query D A → Exec D A
lift q s = let (r, d) = q s.working in (r, record s { working = d })

abbrev commit_after : {D A : Type 0} → Result A → Session D → Result A × Session D
commit_after (err e) s = (err e, s)
commit_after (ok a) s = (ok a, commit s)

-- The handlers' block: repository calls, then `await unit_of_work.commit()`, then `return`.
unfoldable pub transaction : {D A : Type 0} → Query D A → Exec D A
unfolding with_unit
transaction q = with_unit (λ s. let (r, s') = lift q s in commit_after r s')
