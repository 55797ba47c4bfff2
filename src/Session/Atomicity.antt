-- ===== src/Session/Atomicity.antt =====
-- A block of the unit of work changes the database whole or not at all.
use python_codebase.Prelude.{◌≡◌, refl, true, false, arith}
use python_codebase.Result.{Error, Result, ok, err}
use python_codebase.Session.{Session, Query, transaction}

-- What a transaction leaves, by how its repository calls ended.
abbrev pub outcome : {D A : Type 0} → Session D → Result A × D → Result A × Session D
outcome s (ok a, d) = (ok a, record { committed = d; working = d; is_committed = true })
outcome s (err e, d) =
    (err e, record { committed = s.committed; working = s.committed; is_committed = false })

-- A block that commits at its end leaves the tables of its calls, committed, where they return;
-- where one raises, the exception goes on and every table is as it was last committed.
pub transaction_lem :
    {D A : Type 0} (q : Query D A) (s : Session D) → transaction q s ≡ outcome s (q s.working)
unfolding transaction
transaction_lem q s = ground arith

pub transaction-fails :
    {D A : Type 0} (q : Query D A) (s : Session D) (e : Error)
    → (q s.working).0 ≡ err e
    → transaction q s
      ≡ (err e, record { committed = s.committed; working = s.committed; is_committed = false })
transaction-fails q s e h = rw (transaction_lem q s) (rw h refl)
