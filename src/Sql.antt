-- ===== src/Sql.antt =====
-- The SQL statement forms that store/src/lib.rs uses, over a table given as the list of its rows
-- in scan order. The statements' conditions are those of the source and are passed in; a unique
-- constraint is the test `clash old new`. The number beside a new table is `rows_affected()`.
pub mod Rows
pub mod Insert
pub mod Order
use zodia.Prelude.{
  ℕ, ◌+◌, Bool, true, false, not, Option, none, some, List, [], ◌∷◌, ◌++◌, any, length, select,
  if◌then◌else◌,
}

module _ {ℓ} {A : Type ℓ} where
  -- INSERT OR IGNORE: nothing happens when a unique constraint fails.
  unfoldable pub insert_or_ignore : (A → A → Bool) → A → List A → List A × ℕ
  insert_or_ignore clash row t = if any (λ old. clash old row) t then (t, 0) else (t ++ row ∷ [], 1)

  -- INSERT ... ON CONFLICT DO UPDATE SET ... WHERE: `merge old` is the updated row, or `none`
  -- where the WHERE clause fails.
  unfoldable pub upsert : (A → A → Bool) → (A → Option A) → A → List A → List A × ℕ
  upsert clash merge row [] = (row ∷ [], 1)
  upsert clash merge row (old ∷ t) =
      let rest = upsert clash merge row t in
      if clash old row
      then (elim (merge old) [ none ↦ (old ∷ t, 0) | some new ↦ (new ∷ t, 1) ])
      else (old ∷ rest.0, rest.1)

  -- DELETE ... WHERE
  unfoldable pub delete : (A → Bool) → List A → List A × ℕ
  delete p t = (select (λ r. not (p r)) t, length (select p t))

  unfoldable pub set_where : (A → Bool) → (A → A) → List A → List A
  set_where p f [] = []
  set_where p f (r ∷ t) = (if p r then f r else r) ∷ set_where p f t

  -- UPDATE ... SET ... WHERE
  unfoldable pub update : (A → Bool) → (A → A) → List A → List A × ℕ
  unfolding set_where
  update p f t = (set_where p f t, length (select p t))

  -- SELECT COUNT(*) ... WHERE
  unfoldable pub count : (A → Bool) → List A → ℕ
  count p t = length (select p t)

  place : (A → A → Bool) → A → List A → List A
  place before x [] = x ∷ []
  place before x (y ∷ ys) = if before x y then x ∷ y ∷ ys else y ∷ place before x ys

  -- ORDER BY, where `before x y` says that `x` may stand ahead of `y`. Equal rows, whose order
  -- SQL leaves open, stay in scan order.
  unfoldable pub order_by : (A → A → Bool) → List A → List A
  unfolding place
  order_by before [] = []
  order_by before (x ∷ xs) = place before x (order_by before xs)
