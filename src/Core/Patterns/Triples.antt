-- ===== src/Core/Patterns/Triples.antt =====
-- The three nested loops: what they find, and that they meet any three planets in some order.
use mathlib.Core.Path.{subst}
use zodia.Prelude.{
  ◌≡◌, Bool, true, false, List, [], ◌∷◌, ◌++◌, any, arith, All, All-append, Bool-cases, inl, inr,
}
use zodia.Sql.Rows.{any-append}
use zodia.Core.Planet.{Planet, planet_eq, planet_eq_iff}
use zodia.Core.Patterns.{with_pair, with_first, each_triple}

module _ {A : Type 0} (f : Planet → Planet → Planet → List A) where
  module _ {ℓ} (P : A → Type ℓ) (each : (p q r : Planet) → All P (f p q r)) where
    All-with_pair : (p q : Planet) (ps : List Planet) → All P (with_pair f p q ps)
    unfolding with_pair
    All-with_pair p q [] = tt
    All-with_pair p q (r ∷ ps) = All-append P (f p q r) _ (each p q r) (All-with_pair p q ps)

    All-with_first : (p : Planet) (ps : List Planet) → All P (with_first f p ps)
    unfolding with_first
    All-with_first p [] = tt
    All-with_first p (q ∷ ps) =
        All-append P (with_pair f p q ps) _ (All-with_pair p q ps) (All-with_first p ps)

    pub All-each_triple : (ps : List Planet) → All P (each_triple f ps)
    unfolding each_triple
    All-each_triple [] = tt
    All-each_triple (p ∷ ps) =
        All-append P (with_first f p ps) _ (All-with_first p ps) (All-each_triple ps)

  module _ (t : A → Bool) where
    -- The test Finds something at the three planets in this order.
    abbrev pub Finds : Planet → Planet → Planet → Type 0
    Finds p q r = any t (f p q r) ≡ true

    any_left : (xs ys : List A) → any t xs ≡ true → any t (xs ++ ys) ≡ true
    any_left xs ys h = ground (arith, h, any-append t xs ys)

    any_right : (xs ys : List A) → any t ys ≡ true → any t (xs ++ ys) ≡ true
    any_right xs ys h = ground (arith, h, any-append t xs ys)

    with_pair-any :
        (p q r : Planet) (ps : List Planet)
        → any (planet_eq r) ps ≡ true
        → Finds p q r
        → any t (with_pair f p q ps) ≡ true
    unfolding with_pair
    with_pair-any p q r [] h g = cc
    with_pair-any p q r (x ∷ ps) h g = elim (Bool-cases (planet_eq r x)) [
      | inl e ↦ any_left (f p q x) _ (subst (Finds p q) ((planet_eq_iff r x).0 e) g)
      | inr e ↦ any_right (f p q x) _ (with_pair-any p q r ps (ground (arith, e, h)) g)
    ]

    with_first-any :
        (p q r : Planet) (ps : List Planet)
        → planet_eq q r ≡ false
        → any (planet_eq q) ps ≡ true
        → any (planet_eq r) ps ≡ true
        → Finds p q r
        → Finds p r q
        → any t (with_first f p ps) ≡ true
    unfolding with_first planet_eq
    with_first-any p q r [] apart hq hr g g' = cc
    with_first-any p q r (x ∷ ps) apart hq hr g g' = elim (Bool-cases (planet_eq q x)) [
      | inl e ↦ any_left (with_pair f p x ps) _ (
          with_pair-any p x r ps (ground (arith, apart, e, hr))
            (subst (λ y. Finds p y r) ((planet_eq_iff q x).0 e) g))
      | inr e ↦ elim (Bool-cases (planet_eq r x)) [
        | inl d ↦ any_left (with_pair f p x ps) _ (
            with_pair-any p x q ps (ground (arith, e, hq))
              (subst (λ y. Finds p y q) ((planet_eq_iff r x).0 d) g'))
        | inr d ↦
            any_right (with_pair f p x ps) _
              (with_first-any p q r ps apart (ground (arith, e, hq)) (ground (arith, d, hr)) g g')
      ]
    ]

    -- Three different planets of the list are met in one of their six orders.
    pub each_triple-any :
        (p q r : Planet) (ps : List Planet)
        → planet_eq p q ≡ false
        → planet_eq p r ≡ false
        → planet_eq q r ≡ false
        → any (planet_eq p) ps ≡ true
        → any (planet_eq q) ps ≡ true
        → any (planet_eq r) ps ≡ true
        → Finds p q r
        → Finds p r q
        → Finds q p r
        → Finds q r p
        → Finds r p q
        → Finds r q p
        → any t (each_triple f ps) ≡ true
    unfolding each_triple planet_eq
    each_triple-any p q r [] pq pr qr hp hq hr g₁ g₂ g₃ g₄ g₅ g₆ = cc
    each_triple-any p q r (x ∷ ps) pq pr qr hp hq hr g₁ g₂ g₃ g₄ g₅ g₆ =
        elim (Bool-cases (planet_eq p x)) [
          | inl e ↦ any_left (with_first f x ps) _ (
              with_first-any x q r ps qr (ground (arith, pq, e, hq)) (ground (arith, pr, e, hr))
                (subst (λ y. Finds y q r) ((planet_eq_iff p x).0 e) g₁)
                (subst (λ y. Finds y r q) ((planet_eq_iff p x).0 e) g₂))
          | inr e ↦ elim (Bool-cases (planet_eq q x)) [
            | inl d ↦ any_left (with_first f x ps) _ (
                with_first-any x p r ps pr (ground (arith, e, hp)) (ground (arith, qr, d, hr))
                  (subst (λ y. Finds y p r) ((planet_eq_iff q x).0 d) g₃)
                  (subst (λ y. Finds y r p) ((planet_eq_iff q x).0 d) g₄))
            | inr d ↦ elim (Bool-cases (planet_eq r x)) [
              | inl b ↦ any_left (with_first f x ps) _ (
                  with_first-any x p q ps pq (ground (arith, e, hp)) (ground (arith, d, hq))
                    (subst (λ y. Finds y p q) ((planet_eq_iff r x).0 b) g₅)
                    (subst (λ y. Finds y q p) ((planet_eq_iff r x).0 b) g₆))
              | inr b ↦ any_right (with_first f x ps) _ (
                  each_triple-any p q r ps pq pr qr (ground (arith, e, hp)) (ground (arith, d, hq))
                    (ground (arith, b, hr)) g₁ g₂ g₃ g₄ g₅ g₆)
            ]
          ]
        ]
