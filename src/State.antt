-- ===== src/State.antt =====
-- Calls that read and write a store and may raise. What was written before a raise stays written,
-- so the store comes back beside the exception too.
use python_codebase.Prelude.{Bool, true, false, Option, none, some}
use python_codebase.Result.{Error, Result, ok, err}

abbrev pub State : Type 0 → Type 0 → Type 0
State S A = S → Result A × S

module _ {S A : Type 0} where
  abbrev pub pure : A → State S A
  pure a s = (ok a, s)

  abbrev pub raise : Error → State S A
  raise e s = (err e, s)

  abbrev pub from_result : Result A → State S A
  from_result r s = (r, s)

  abbrev pub gets : (S → A) → State S A
  gets f s = (ok (f s), s)

  -- `if x is None: raise e`, and `x` after it
  abbrev pub or_raise : Option A → Error → State S A
  or_raise none e = raise e
  or_raise (some a) e = pure a

abbrev pub modify : {S : Type 0} → (S → S) → State S (Unit {0})
modify f s = (ok tt, f s)

-- `if c: raise e`
abbrev pub raise_if : {S : Type 0} → Bool → Error → State S (Unit {0})
raise_if true e s = (err e, s)
raise_if false e s = (ok tt, s)

module _ {S A B : Type 0} where
  abbrev pub proceed : Result A → (A → State S B) → State S B
  proceed (ok a) f s = f a s
  proceed (err e) f s = (err e, s)

  infixl 5 ◌>>=◌ ◌>>◌
  abbrev pub ◌>>=◌ : State S A → (A → State S B) → State S B
  ◌>>=◌ m f s = let (r, s') = m s in proceed r f s'

  abbrev pub ◌>>◌ : State S A → State S B → State S B
  m >> k = m >>= λ _. k
