-- ===== src/Todo/Rows.antt =====
-- The rows of the table under the writes of the repository.
use python_codebase.Prelude.{
  ℕ, ◌<◌, ◌≡◌, ◌≢◌, refl, ap, Bool, true, not, ◌&&◌, List, [], ◌∷◌, ◌++◌, map, ◌⊎◌, inl, inr, arith,
  ◌==◌, ==_iff, filter, any, All, Bool-cases,
}
use python_codebase.Todo.{Todo, TodoModel, TodoDb, update_row, write}

-- The primary key, and a sequence that is ahead of it.
abbrev pub HasUniqueIds : List TodoModel → Type 0
HasUniqueIds [] = Unit
HasUniqueIds (m ∷ ms) = All (λ (x : TodoModel). x.id ≢ m.id) ms × HasUniqueIds ms

pub record IsValid (db : TodoDb) : Type 0 where
  pub unique : HasUniqueIds db.todos
  pub below : All (λ (m : TodoModel). m.id < db.next_id) db.todos

abbrev pub by_id : ℕ → List TodoModel → List TodoModel
by_id k = filter (λ m. m.id == k)

-- All rows but the one with this key.
abbrev pub others : ℕ → List TodoModel → List TodoModel
others k = filter (λ m. not (m.id == k))

pub by_id_absent :
    (k : ℕ) (ms : List TodoModel) → All (λ (m : TodoModel). m.id ≢ k) ms → by_id k ms ≡ []
by_id_absent k [] h = refl
by_id_absent k (m ∷ ms) h = ground (arith, by_id_absent k ms h.1)

pub filter-append :
    (p : TodoModel → Bool) (ms ns : List TodoModel)
    → filter p (ms ++ ns) ≡ filter p ms ++ filter p ns
filter-append p [] ns = refl
filter-append p (m ∷ ms) ns = elim (Bool-cases (p m)) [
  | inl e ↦ rw e (ap (λ xs. m ∷ xs) (filter-append p ms ns))
  | inr e ↦ rw e (filter-append p ms ns)
]

pub others-update_row :
    (todo : Todo) (t k : ℕ) (ms : List TodoModel) → others k (update_row todo t k ms) ≡ others k ms
unfolding update_row
others-update_row todo t k [] = refl
others-update_row todo t k (m ∷ ms) = ground (arith, others-update_row todo t k ms)

pub by_id-update_row :
    (todo : Todo) (t k : ℕ) (ms : List TodoModel)
    → by_id k (update_row todo t k ms) ≡ map (write todo t) (by_id k ms)
unfolding update_row
by_id-update_row todo t k [] = refl
by_id-update_row todo t k (m ∷ ms) = ground (arith, by_id-update_row todo t k ms)

-- A filter that asks for the key, and for more, looks at the rows with the key.
pub filter-by_id :
    (k : ℕ) (p : TodoModel → Bool) (ms : List TodoModel)
    → filter (λ m. m.id == k && p m) ms ≡ filter p (by_id k ms)
filter-by_id k p [] = refl
filter-by_id k p (m ∷ ms) = ground (arith, filter-by_id k p ms)

-- With unique keys there is no row with the key, or one.
pub by_id-cases :
    (k : ℕ) (ms : List TodoModel)
    → HasUniqueIds ms
    → (by_id k ms ≡ []) ⊎ ((m : TodoModel) × (by_id k ms ≡ m ∷ []))
by_id-cases k [] u = inl refl
by_id-cases k (m ∷ ms) u = elim (Bool-cases (m.id == k)) [
  | inl e ↦
      let m_id : m.id ≡ k = (==_iff m.id k).0 e in
      inr (m, rw e (ap (λ xs. m ∷ xs) (by_id_absent k ms (rw m_id at u.0))))
  | inr e ↦ rw e (by_id-cases k ms u.1)
]

pub any-by_id :
    (k : ℕ) (ms : List TodoModel) (m : TodoModel) (ns : List TodoModel)
    → by_id k ms ≡ m ∷ ns
    → any (λ x. x.id == k) ms ≡ true
any-by_id k [] m ns e = cc
any-by_id k (x ∷ ms) m ns e = ground (arith, any-by_id k ms m ns)

pub id-by_id :
    (k : ℕ) (ms : List TodoModel) (m : TodoModel) (ns : List TodoModel)
    → by_id k ms ≡ m ∷ ns
    → m.id ≡ k
id-by_id k [] m ns e = cc
id-by_id k (x ∷ ms) m ns e = elim (Bool-cases (x.id == k)) [
  | inl here ↦ ground (arith, e)
  | inr there ↦ id-by_id k ms m ns (rw there at e)
]
