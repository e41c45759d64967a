-- ===== src/Sql/Rows.antt =====
-- Which rows WHERE, UPDATE, DELETE and COUNT speak of.
use mathlib.Core.List.{Memᴰ}
use mathlib.Core.List.Memᴰ.{head, tail}
use zodia.Prelude.{
  ◌⊎◌, ◌+◌, ◌≤◌, ◌≡◌, refl, Bool, true, false, not, ◌&&◌, ◌||◌, List, [], ◌∷◌, ◌++◌, arith, any,
  length, select, All, Bool-cases, inl, inr,
}
use zodia.Sql.{delete, update, set_where, count}

module _ {ℓ} {A : Type ℓ} where
  pub any-append : (p : A → Bool) (xs ys : List A) → any p (xs ++ ys) ≡ (any p xs || any p ys)
  any-append p [] ys = refl
  any-append p (x ∷ xs) ys = ground (arith, any-append p xs ys)

  pub select-append :
      (p : A → Bool) (xs ys : List A) → select p (xs ++ ys) ≡ select p xs ++ select p ys
  unfolding select
  select-append p [] ys = refl
  select-append p (x ∷ xs) ys = ground (arith, select-append p xs ys)

  -- A selected row passes the test.
  pub select-passes : (p : A → Bool) (xs : List A) → All (λ r. p r ≡ true) (select p xs)
  unfolding select
  select-passes p [] = tt
  select-passes p (x ∷ xs) = ground (arith, select-passes p xs)

  pub All-select {κ} :
      (P : A → Type κ) (p : A → Bool) (xs : List A) → All P xs → All P (select p xs)
  unfolding select
  All-select P p [] h = tt
  All-select P p (x ∷ xs) h = elim (Bool-cases (p x)) [
    | inl e ↦ rw (e, select) (h.0, All-select P p xs h.1)
    | inr e ↦ rw (e, select) (All-select P p xs h.1)
  ]

  pub any-select : (q p : A → Bool) (xs : List A) → any q (select p xs) ≡ any (λ r. p r && q r) xs
  unfolding select
  any-select q p [] = refl
  any-select q p (x ∷ xs) = ground (arith, any-select q p xs)

  pub select-select :
      (q p : A → Bool) (xs : List A) → select q (select p xs) ≡ select (λ r. p r && q r) xs
  unfolding select
  select-select q p [] = refl
  select-select q p (x ∷ xs) = ground (arith, select-select q p xs)

  -- Tests that agree on every row select the same rows.
  pub select-agree :
      (p q : A → Bool) (xs : List A) → All (λ r. p r ≡ q r) xs → select p xs ≡ select q xs
  unfolding select
  select-agree p q [] h = refl
  select-agree p q (x ∷ xs) h = ground (arith, select-agree p q xs h.1)

  pub select-none : (p : A → Bool) (xs : List A) → any p xs ≡ false → select p xs ≡ []
  unfolding select
  select-none p [] h = refl
  select-none p (x ∷ xs) h = ground (arith, select-none p xs)

  pub select-all : (p : A → Bool) (xs : List A) → All (λ r. p r ≡ true) xs → select p xs ≡ xs
  unfolding select
  select-all p [] h = refl
  select-all p (x ∷ xs) h = ground (arith, select-all p xs h.1)

  pub length-select-le : (p : A → Bool) (xs : List A) → length (select p xs) ≤ length xs
  unfolding select
  length-select-le p [] = omega arith
  length-select-le p (x ∷ xs) = ground (arith, length-select-le p xs)

  -- An exact count of zero is the same as no such row.
  pub count-zero : (p : A → Bool) (xs : List A) → any p xs ≡ false → count p xs ≡ 0
  unfolding count select
  count-zero p [] h = refl
  count-zero p (x ∷ xs) h = ground (arith, count-zero p xs)

  pub count-append : (p : A → Bool) (xs ys : List A) → count p (xs ++ ys) ≡ count p xs + count p ys
  unfolding count select
  count-append p [] ys = omega arith
  count-append p (x ∷ xs) ys = ground (arith, count-append p xs ys)

  pub any-delete :
      (q p : A → Bool) (xs : List A) → any q (delete p xs).0 ≡ any (λ r. not (p r) && q r) xs
  unfolding delete
  any-delete q p xs = any-select q (λ r. not (p r)) xs

  pub All-delete {κ} :
      (P : A → Type κ) (p : A → Bool) (xs : List A) → All P xs → All P (delete p xs).0
  unfolding delete
  All-delete P p xs h = All-select P (λ r. not (p r)) xs h

  -- An update keeps a property of all rows that the assignment keeps on the rows it touches.
  pub All-update {κ} :
      (P : A → Type κ) (p : A → Bool) (f : A → A) (keep : (r : A) → P r → P (f r)) (xs : List A)
      → All P xs
      → All P (update p f xs).0
  unfolding update
  All-update P p f keep [] h = tt
  All-update P p f keep (x ∷ xs) h = elim (Bool-cases (p x)) [
    | inl e ↦ rw (e, set_where) (keep x h.0, All-update P p f keep xs h.1)
    | inr e ↦ rw (e, set_where) (h.0, All-update P p f keep xs h.1)
  ]

-- A row at the head that passes the test, and one that does not.
pub opened :
    {A : Type 0} (x : A) (xs : List A) (p q : A → Bool)
    → p x ≡ true
    → All (λ x. q x ≡ true) (select p (x ∷ xs))
    → (q x ≡ true) × All (λ x. q x ≡ true) (select p xs)
unfolding select
opened x xs p q e a = rw e at a

pub passed :
    {A : Type 0} (x : A) (xs : List A) (p q : A → Bool)
    → p x ≡ false
    → All (λ x. q x ≡ true) (select p (x ∷ xs))
    → All (λ x. q x ≡ true) (select p xs)
unfolding select
passed x xs p q e a = rw e at a

-- What holds of the selected rows, said of all rows.
pub All-unselected :
    {A : Type 0} (p q : A → Bool) (xs : List A)
    → All (λ x. q x ≡ true) (select p xs)
    → All (λ x. (not (p x) || q x) ≡ true) xs
unfolding select
All-unselected p q [] a = tt
All-unselected p q (x ∷ xs) a = elim (Bool-cases (p x)) [
  | inl e ↦
      (ground (arith, e, (opened x xs p q e a).0), All-unselected p q xs (opened x xs p q e a).1)
  | inr e ↦ (ground (arith, e), All-unselected p q xs (passed x xs p q e a))
]

-- What holds of the selected rows, said of all rows.
pub All-otherwise {κ} :
    {A : Type 0} (p : A → Bool) (P : A → Type κ) (xs : List A)
    → All P (select p xs)
    → All (λ x. (p x ≡ false) ⊎ P x) xs
unfolding select
All-otherwise p P [] a = tt
All-otherwise p P (x ∷ xs) a = elim (Bool-cases (p x)) [
  | inl e ↦
      let both : P x × All P (select p xs) = rw (e, select) at a in
      (inr both.0, All-otherwise p P xs both.1)
  | inr e ↦ (inl e, All-otherwise p P xs (rw (e, select) at a))
]

widened :
    {A : Type 0} (x : A) (zs ys : List A) → All (λ y. Memᴰ y zs) ys → All (λ y. Memᴰ y (x ∷ zs)) ys
widened x zs [] a = tt
widened x zs (y ∷ ys) a = (tail a.0, widened x zs ys a.1)

-- Every row is among the rows.
pub All-Mem : {A : Type 0} (xs : List A) → All (λ x. Memᴰ x xs) xs
All-Mem [] = tt
All-Mem (x ∷ xs) = (head refl, widened x xs xs (All-Mem xs))

pub All-imp {κ μ} :
    {A : Type 0} (P : A → Type κ) (Q : A → Type μ)
    → ((x : A) → P x → Q x)
    → (xs : List A) → All P xs
    → All Q xs
All-imp P Q f [] a = tt
All-imp P Q f (x ∷ xs) a = (f x a.0, All-imp P Q f xs a.1)

pub All-both {κ μ} :
    {A : Type 0} (P : A → Type κ) (Q : A → Type μ) (xs : List A)
    → All P xs
    → All Q xs
    → All (λ x. P x × Q x) xs
All-both P Q [] a b = tt
All-both P Q (x ∷ xs) a b = ((a.0, b.0), All-both P Q xs a.1 b.1)
