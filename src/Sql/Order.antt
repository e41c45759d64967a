-- ===== src/Sql/Order.antt =====
-- Laws of ORDER BY: the same rows, in order, and unchanged where they are in order already.
use zodia.Prelude.{
  ℕ, zero, suc, ◌≡◌, refl, Bool, true, false, List, [], ◌∷◌, ◌++◌, arith, any, length, take, All,
  Bool-cases, inl, inr,
}
use zodia.Sql.{order_by, place}

module _ {ℓ} {A : Type ℓ} (before : A → A → Bool) where
  -- Each row may stand ahead of all that follow it.
  abbrev pub Ordered : List A → Type 0
  Ordered [] = Unit
  Ordered (x ∷ xs) = All (λ y. before x y ≡ true) xs × Ordered xs

  any-place : (p : A → Bool) (x : A) (ys : List A) → any p (place before x ys) ≡ any p (x ∷ ys)
  unfolding place
  any-place p x [] = refl
  any-place p x (y ∷ ys) = ground (arith, any-place p x ys)

  pub any-order_by : (p : A → Bool) (xs : List A) → any p (order_by before xs) ≡ any p xs
  unfolding order_by
  any-order_by p [] = refl
  any-order_by p (x ∷ xs) = ground (arith, any-place p x (order_by before xs), any-order_by p xs)

  length-place : (x : A) (ys : List A) → length (place before x ys) ≡ suc (length ys)
  unfolding place
  length-place x [] = refl
  length-place x (y ∷ ys) = ground (arith, length-place x ys)

  pub length-order_by : (xs : List A) → length (order_by before xs) ≡ length xs
  unfolding order_by
  length-order_by [] = refl
  length-order_by (x ∷ xs) = omega (arith, length-place x (order_by before xs), length-order_by xs)

  All-place {κ} :
      (P : A → Type κ) (x : A) (ys : List A) → P x → All P ys → All P (place before x ys)
  unfolding place
  All-place P x [] h a = (h, tt)
  All-place P x (y ∷ ys) h a = elim (Bool-cases (before x y)) [
    | inl e ↦ rw (e, place) (h, a)
    | inr e ↦ rw (e, place) (a.0, All-place P x ys h a.1)
  ]

  pub All-order_by {κ} : (P : A → Type κ) (xs : List A) → All P xs → All P (order_by before xs)
  unfolding order_by
  All-order_by P [] a = tt
  All-order_by P (x ∷ xs) a = All-place P x (order_by before xs) a.0 (All-order_by P xs a.1)

  All-unplaced {κ} :
      (P : A → Type κ) (x : A) (ys : List A) → All P (place before x ys) → P x × All P ys
  unfolding place
  All-unplaced P x [] a = (a.0, tt)
  All-unplaced P x (y ∷ ys) a = elim (Bool-cases (before x y)) [
    | inl e ↦ rw (e, place) at a
    | inr e ↦
        let both : P y × All P (place before x ys) = rw (e, place) at a in
        let rest = All-unplaced P x ys both.1 in (rest.0, (both.0, rest.1))
  ]

  -- What holds of the ordered rows holds of the rows.
  pub All-unordered {κ} : (P : A → Type κ) (xs : List A) → All P (order_by before xs) → All P xs
  unfolding order_by
  All-unordered P [] a = tt
  All-unordered P (x ∷ xs) a =
      let rest = All-unplaced P x (order_by before xs) a in (rest.0, All-unordered P xs rest.1)

  -- Rows that are in order are left as they are.
  pub order_by-Ordered : (xs : List A) → Ordered xs → order_by before xs ≡ xs
  unfolding order_by place
  order_by-Ordered [] o = refl
  order_by-Ordered (x ∷ []) o = refl
  order_by-Ordered (x ∷ y ∷ ys) o = rw (order_by-Ordered (y ∷ ys) o.1) (ground arith)

  place-snoc :
      (x m : A) (ys : List A)
      → before x m ≡ true
      → place before x (ys ++ m ∷ []) ≡ place before x ys ++ m ∷ []
  unfolding place
  place-snoc x m [] h = ground (arith, h)
  place-snoc x m (y ∷ ys) h = ground (arith, place-snoc x m ys h)

  -- A row that all others may precede comes last.
  pub order_by-snoc :
      (m : A) (xs : List A)
      → All (λ x. before x m ≡ true) xs
      → order_by before (xs ++ m ∷ []) ≡ order_by before xs ++ m ∷ []
  unfolding order_by place
  order_by-snoc m [] a = refl
  order_by-snoc m (x ∷ xs) a = rw (order_by-snoc m xs a.1) (place-snoc x m (order_by before xs) a.0)

  module _ (total : (x y : A) → before x y ≡ false → before y x ≡ true)
      (trans : (x y z : A) → before x y ≡ true → before y z ≡ true → before x z ≡ true) where
    All-trans :
        (x y : A) (ys : List A)
        → before x y ≡ true
        → All (λ z. before y z ≡ true) ys
        → All (λ z. before x z ≡ true) ys
    All-trans x y [] h a = tt
    All-trans x y (z ∷ zs) h a = (trans x y z h a.0, All-trans x y zs h a.1)

    place-Ordered : (x : A) (ys : List A) → Ordered ys → Ordered (place before x ys)
    unfolding place
    place-Ordered x [] o = (tt, tt)
    place-Ordered x (y ∷ ys) o = elim (Bool-cases (before x y)) [
      | inl e ↦ rw (e, place) ((e, All-trans x y ys e o.0), o)
      | inr e ↦
          rw (e, place)
            (All-place (λ z. before y z ≡ true) x ys (total x y e) o.0, place-Ordered x ys o.1)
    ]

    -- The result is in order.
    pub Ordered-order_by : (xs : List A) → Ordered (order_by before xs)
    unfolding order_by
    Ordered-order_by [] = tt
    Ordered-order_by (x ∷ xs) = place-Ordered x (order_by before xs) (Ordered-order_by xs)

module _ {ℓ} {A : Type ℓ} where
  pub All-take {κ} : (P : A → Type κ) (n : ℕ) (xs : List A) → All P xs → All P (take n xs)
  All-take P zero xs a = tt
  All-take P (suc n) [] a = tt
  All-take P (suc n) (x ∷ xs) a = (a.0, All-take P n xs a.1)

  pub Ordered-take :
      (before : A → A → Bool) (n : ℕ) (xs : List A) → Ordered before xs → Ordered before (take n xs)
  Ordered-take before zero xs o = tt
  Ordered-take before (suc n) [] o = tt
  Ordered-take before (suc n) (x ∷ xs) o =
      (All-take (λ y. before x y ≡ true) n xs o.0, Ordered-take before n xs o.1)
