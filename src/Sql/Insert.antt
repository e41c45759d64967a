-- ===== src/Sql/Insert.antt =====
-- Laws of INSERT OR IGNORE and of the upsert.
use zodia.Prelude.{
  ◌≡◌, ◌+◌, refl, ltb, Bool, true, false, not, ◌&&◌, ◌||◌, Option, none, some, List, [], ◌∷◌, ◌++◌,
  arith, any, find, select, All, All-append, if◌then◌else◌, Bool-cases, Option-cases, inl, inr, Eq,
  ◌==◌, eq_iff, ◌∙◌,
}
use zodia.Sql.{insert_or_ignore, upsert, delete, count, update, set_where}
use zodia.Sql.Rows.{any-append, count-append}

module _ {ℓ} {A : Type ℓ} (clash : A → A → Bool) where
  -- No two rows break the unique constraint.
  abbrev pub Unique : List A → Type 0
  Unique [] = Unit
  Unique (x ∷ xs) = (any (λ y. clash x y) xs ≡ false) × Unique xs

  Unique-append_one :
      (xs : List A) (row : A)
      → Unique xs
      → any (λ old. clash old row) xs ≡ false
      → Unique (xs ++ row ∷ [])
  Unique-append_one [] row u h = (refl, tt)
  Unique-append_one (x ∷ xs) row u h = (
    ground (arith, any-append (λ y. clash x y) xs (row ∷ [])),
    Unique-append_one xs row u.1 (ground arith),
  )

  -- The statement keeps the constraint that it checks.
  pub insert_or_ignore-Unique :
      (row : A) (t : List A) → Unique t → Unique (insert_or_ignore clash row t).0
  unfolding insert_or_ignore
  insert_or_ignore-Unique row t u = elim (Bool-cases (any (λ old. clash old row) t)) [
    | inl e ↦ rw e u
    | inr e ↦ rw e (Unique-append_one t row u e)
  ]

  any-select_none : (q p : A → Bool) (xs : List A) → any q xs ≡ false → any q (select p xs) ≡ false
  unfolding select
  any-select_none q p [] h = refl
  any-select_none q p (x ∷ xs) h = ground (arith, any-select_none q p xs)

  Unique-select : (p : A → Bool) (xs : List A) → Unique xs → Unique (select p xs)
  unfolding select
  Unique-select p [] u = tt
  Unique-select p (x ∷ xs) u = elim (Bool-cases (p x)) [
    | inl e ↦ rw (e, select) (any-select_none (λ y. clash x y) p xs u.0, Unique-select p xs u.1)
    | inr e ↦ rw (e, select) (Unique-select p xs u.1)
  ]

  pub delete-Unique : (p : A → Bool) (t : List A) → Unique t → Unique (delete p t).0
  unfolding delete
  delete-Unique p t u = Unique-select (λ r. not (p r)) t u

  -- An update of columns that the constraint does not read keeps the constraint.
  module _ (p : A → Bool) (f : A → A)
      (same : (x y : A) → (clash (f x) y ≡ clash x y) × (clash x (f y) ≡ clash x y)) where
    any-update : (x : A) (t : List A) → any (clash x) (set_where p f t) ≡ any (clash x) t
    unfolding set_where
    any-update x [] = refl
    any-update x (y ∷ t) = ground (arith, (same x y).1, any-update x t)

    any-touched : (x : A) (t : List A) → any (clash (f x)) t ≡ any (clash x) t
    any-touched x [] = refl
    any-touched x (y ∷ t) = ground (arith, (same x y).0, any-touched x t)

    pub update-Unique : (t : List A) → Unique t → Unique (update p f t).0
    unfolding update set_where
    update-Unique [] u = tt
    update-Unique (x ∷ t) u = elim (Bool-cases (p x)) [
      | inl e ↦
          rw (e, set_where)
            (any-touched x (set_where p f t) ∙ any-update x t ∙ u.0, update-Unique t u.1)
      | inr e ↦ rw (e, set_where) (any-update x t ∙ u.0, update-Unique t u.1)
    ]

module _ {ℓ} {A : Type ℓ} (clash : A → A → Bool) where
  count-one : (q : A → Bool) (row : A) → count q (row ∷ []) ≡ (if q row then 1 else 0)
  unfolding count select
  count-one q row = ground arith

  pub All-insert_or_ignore {κ} :
      (P : A → Type κ) (row : A) (t : List A)
      → P row
      → All P t
      → All P (insert_or_ignore clash row t).0
  unfolding insert_or_ignore
  All-insert_or_ignore P row t h a = elim (Bool-cases (any (λ old. clash old row) t)) [
    | inl e ↦ rw e a
    | inr e ↦ rw e (All-append P t (row ∷ []) a (h, tt))
  ]

  -- What a query sees after the statement.
  pub any-insert_or_ignore :
      (q : A → Bool) (row : A) (t : List A)
      → any q (insert_or_ignore clash row t).0
        ≡ (any q t || (not (any (λ old. clash old row) t) && q row))
  unfolding insert_or_ignore
  any-insert_or_ignore q row t = ground (arith, any-append q t (row ∷ []))

  -- A row is inserted exactly where no row clashes with it.
  pub insert_or_ignore-affected :
      (row : A) (t : List A)
      → ltb 0 (insert_or_ignore clash row t).1 ≡ not (any (λ old. clash old row) t)
  unfolding insert_or_ignore
  insert_or_ignore-affected row t = ground arith

  pub count-insert_or_ignore :
      (q : A → Bool) (row : A) (t : List A)
      → count q (insert_or_ignore clash row t).0
        ≡ count q t + (if ltb 0 (insert_or_ignore clash row t).1 && q row then 1 else 0)
  unfolding insert_or_ignore
  count-insert_or_ignore q row t = ground (arith, count-append q t (row ∷ []), count-one q row)

  -- Afterwards some row clashes with the inserted one.
  pub insert_or_ignore-held :
      (row : A) (t : List A)
      → clash row row ≡ true
      → any (λ old. clash old row) (insert_or_ignore clash row t).0 ≡ true
  insert_or_ignore-held row t same =
      ground (arith, any-insert_or_ignore (λ old. clash old row) row t)

  -- The second of two equal inserts is ignored.
  pub insert_or_ignore_again :
      (row row' : A) (t : List A)
      → clash row row' ≡ true
      → ((old : A) → clash old row ≡ true → clash old row' ≡ true)
      → (insert_or_ignore clash row' (insert_or_ignore clash row t).0)
        ≡ ((insert_or_ignore clash row t).0, 0)
  insert_or_ignore_again row row' t same follows =
      ignored (insert_or_ignore clash row t).0 (found t)
    where
      ignored :
          (u : List A)
          → any (λ old. clash old row') u ≡ true
          → insert_or_ignore clash row' u ≡ (u, 0)
      ignored u h = unfold insert_or_ignore in rw h refl

      imp :
          (u : List A) → any (λ old. clash old row) u ≡ true → any (λ old. clash old row') u ≡ true
      imp [] h = cc
      imp (x ∷ xs) h = ground (arith, follows x, imp xs)

      found : (u : List A) → any (λ old. clash old row') (insert_or_ignore clash row u).0 ≡ true
      found u = ground (arith, any-insert_or_ignore (λ old. clash old row') row u, imp u)

-- A table with a key: the row that a key leads to after each statement.
module _ {ℓ κ} {A : Type ℓ} {K : Type κ} ⦃e : Eq K⦄ (key : A → K) where
  abbrev pub same_key : A → A → Bool
  same_key a b = key a == key b

  abbrev pub at_key : K → List A → Option A
  at_key k t = find (λ r. key r == k) t

  abbrev pub merged : (A → Option A) → A → Option A → Option A
  merged merge row none = some row
  merged merge row (some old) = elim (merge old) [ none ↦ some old | some new ↦ some new ]

  -- An upsert writes at the key of its row and nowhere else.
  pub at_key-upsert :
      (merge : A → Option A) (kept : (old new : A) → merge old ≡ some new → key new ≡ key old)
      (row : A) (k : K) (t : List A)
      → at_key k (upsert same_key merge row t).0
        ≡ (if key row == k then merged merge row (at_key k t) else at_key k t)
  unfolding upsert
  at_key-upsert merge kept row k [] = ground arith
  at_key-upsert merge kept row k (old ∷ t) = elim (Option-cases (merge old)) [
    | inl none_new ↦ ground (
      arith,
      none_new,
      at_key-upsert merge kept row k t,
      eq_iff (key old) (key row),
      eq_iff (key row) k,
      eq_iff (key old) k,
    )
    | inr (new, some_new) ↦ ground (
      arith,
      some_new,
      kept old new some_new,
      at_key-upsert merge kept row k t,
      eq_iff (key old) (key row),
      eq_iff (key row) k,
      eq_iff (key old) k,
    )
  ]

  abbrev pub overwritten : (A → A) → A → Option A → A
  overwritten f row none = row
  overwritten f row (some old) = f old

  -- An upsert without a WHERE clause.
  pub at_key-upsert_always :
      (f : A → A) (kept : (r : A) → key (f r) ≡ key r) (row : A) (k : K) (t : List A)
      → at_key k (upsert same_key (λ old. some (f old)) row t).0
        ≡ (if key row == k then some (overwritten f row (at_key k t)) else at_key k t)
  unfolding upsert
  at_key-upsert_always f kept row k [] = ground arith
  at_key-upsert_always f kept row k (old ∷ t) = ground (
    arith,
    kept old,
    at_key-upsert_always f kept row k t,
    eq_iff (key old) (key row),
    eq_iff (key row) k,
    eq_iff (key old) k,
  )

  -- The keyed row is gone exactly when the deletion took it.
  pub at_key-delete :
      (j k : K) (t : List A)
      → at_key k (delete (λ r. key r == j) t).0 ≡ (if j == k then none else at_key k t)
  unfolding delete select
  at_key-delete j k [] = ground arith
  at_key-delete j k (x ∷ t) =
      ground (arith, at_key-delete j k t, eq_iff (key x) j, eq_iff (key x) k, eq_iff j k)

  -- INSERT OR IGNORE on the key alone keeps an older row.
  pub at_key-insert_or_ignore :
      (row : A) (k : K) (t : List A)
      → at_key k (insert_or_ignore same_key row t).0 ≡ elim (at_key k t) [
        | some old ↦ some old
        | none ↦ (if key row == k then some row else none)
      ]
  unfolding insert_or_ignore
  at_key-insert_or_ignore row k [] = ground arith
  at_key-insert_or_ignore row k (x ∷ t) = ground (
    arith,
    at_key-insert_or_ignore row k t,
    eq_iff (key x) (key row),
    eq_iff (key row) k,
    eq_iff (key x) k,
  )

  abbrev pub assigned : (A → A) → Option A → Option A
  assigned f none = none
  assigned f (some r) = some (f r)

  -- An update at a key that leaves the key as it is.
  pub at_key-update :
      (f : A → A) (kept : (r : A) → key (f r) ≡ key r) (k : K) (t : List A)
      → at_key k (update (λ r. key r == k) f t).0 ≡ assigned f (at_key k t)
  unfolding update set_where
  at_key-update f kept k [] = refl
  at_key-update f kept k (x ∷ t) = elim (Bool-cases (key x == k)) [
    | inl e ↦ rw e (rw (kept x, e) refl)
    | inr e ↦ rw (e, e) (at_key-update f kept k t)
  ]
