-- ===== src/Core/Patterns/Found.antt =====
-- Every grand trine and every T-square is detected, in some order of its planets.
use zodia.Prelude.{
  ◌≡◌, ◌∙◌, Bool, true, false, none, some, List, [], ◌∷◌, any, ◌&&◌, ◌||◌, arith, nat_eq, eq_refl,
}
use zodia.Core.Planet.{Planet, rank, planet_eq}
use zodia.Core.Aspects.{Aspect, AspectKind, trine, square, opposition, kind_eq}
use zodia.Core.Patterns.{
  ChartPattern, grand_trine, t_square, Lookup, note_aspects, known, t_square_at, patterns_at,
  detect_patterns,
}
use zodia.Core.Patterns.Kinds.{last_kind, known-last_kind, last_kind_comm, seen-last_kind}
use zodia.Core.Patterns.Triples.{Finds, each_triple-any}

-- The grand trine of the three planets, in any order.
abbrev pub is_trine_of : Planet → Planet → Planet → ChartPattern → Bool
is_trine_of p q r (t_square apex opposed) = false
is_trine_of p q r (grand_trine a b c) =
    any (planet_eq p) (a ∷ b ∷ c ∷ [])
    && (any (planet_eq q) (a ∷ b ∷ c ∷ []) && any (planet_eq r) (a ∷ b ∷ c ∷ []))

-- The T-square with this apex over the two planets, in any order.
abbrev pub is_square_of : Planet → Planet → Planet → ChartPattern → Bool
is_square_of apex p q (grand_trine a b c) = false
is_square_of apex p q (t_square x (a, b)) =
    planet_eq apex x && ((planet_eq p a && planet_eq q b) || (planet_eq p b && planet_eq q a))

module _ (lookup : Lookup) (t : ChartPattern → Bool) (a b c : Planet) where
  trine_found :
      known lookup a b ≡ some trine
      → known lookup b c ≡ some trine
      → known lookup a c ≡ some trine
      → t (grand_trine a b c) ≡ true
      → Finds (patterns_at lookup) t a b c
  unfolding patterns_at kind_eq
  trine_found ab bc ac h = rw (patterns_at, ab, bc, ac) (ground (arith, h))

  opposed_first :
      known lookup a b ≡ some opposition
      → known lookup b c ≡ some square
      → known lookup a c ≡ some square
      → t (t_square c (a, b)) ≡ true
      → Finds (patterns_at lookup) t a b c
  unfolding patterns_at t_square_at kind_eq
  opposed_first ab bc ac h = rw (patterns_at, ab, bc, ac) (ground (arith, h))

  opposed_outer :
      known lookup a b ≡ some square
      → known lookup b c ≡ some square
      → known lookup a c ≡ some opposition
      → t (t_square b (a, c)) ≡ true
      → Finds (patterns_at lookup) t a b c
  unfolding patterns_at t_square_at kind_eq
  opposed_outer ab bc ac h = rw (patterns_at, ab, bc, ac) (ground (arith, h))

  opposed_last :
      known lookup a b ≡ some square
      → known lookup b c ≡ some opposition
      → known lookup a c ≡ some square
      → t (t_square a (b, c)) ≡ true
      → Finds (patterns_at lookup) t a b c
  unfolding patterns_at t_square_at kind_eq
  opposed_last ab bc ac h = rw (patterns_at, ab, bc, ac) (ground (arith, h))

module _ {F : Type 0} (aspects : List (Aspect F)) where
  looked :
      (p q : Planet) (k : AspectKind)
      → last_kind aspects p q ≡ some k
      → known (note_aspects aspects (λ key. none) []).0 p q ≡ some k
  looked p q k h = known-last_kind aspects p q ∙ h

  turned :
      (p q : Planet) (k : AspectKind)
      → last_kind aspects p q ≡ some k
      → known (note_aspects aspects (λ key. none) []).0 q p ≡ some k
  turned p q k h = looked q p k (last_kind_comm aspects q p ∙ h)

  -- Three different planets that are trine by the last aspect listed between each two of them are
  -- detected as a grand trine.
  pub detect_patterns-is_trine_of :
      (p q r : Planet)
      → planet_eq p q ≡ false
      → planet_eq p r ≡ false
      → planet_eq q r ≡ false
      → last_kind aspects p q ≡ some trine
      → last_kind aspects q r ≡ some trine
      → last_kind aspects p r ≡ some trine
      → any (is_trine_of p q r) (detect_patterns aspects) ≡ true
  unfolding detect_patterns planet_eq
  detect_patterns-is_trine_of p q r pq pr qr h g f =
      let (lookup, seen) = note_aspects aspects (λ key. none) [] in
      let t = is_trine_of p q r in
      let a = looked p q trine h in
      let a' = turned p q trine h in
      let b = looked q r trine g in
      let b' = turned q r trine g in
      let c = looked p r trine f in
      let c' = turned p r trine f in
      each_triple-any (patterns_at lookup) t p q r seen pq pr qr
        (seen-last_kind aspects _ [] p q trine h) (seen-last_kind aspects _ [] q r trine g)
        (seen-last_kind aspects _ [] r p trine (last_kind_comm aspects r p ∙ f))
        (trine_found lookup t p q r a b c
          (ground (arith, eq_refl (rank p), eq_refl (rank q), eq_refl (rank r))))
        (trine_found lookup t p r q c b' a
          (ground (arith, eq_refl (rank p), eq_refl (rank q), eq_refl (rank r))))
        (trine_found lookup t q p r a' c b
          (ground (arith, eq_refl (rank p), eq_refl (rank q), eq_refl (rank r))))
        (trine_found lookup t q r p b c' a'
          (ground (arith, eq_refl (rank p), eq_refl (rank q), eq_refl (rank r))))
        (trine_found lookup t r p q c' a b'
          (ground (arith, eq_refl (rank p), eq_refl (rank q), eq_refl (rank r))))
        (trine_found lookup t r q p b' a' c'
          (ground (arith, eq_refl (rank p), eq_refl (rank q), eq_refl (rank r))))

  -- Two planets in opposition that both square a third one, all three different, by the last aspect
  -- listed between each two of them, are detected as a T-square with that one as its apex.
  pub detect_patterns-is_square_of :
      (apex p q : Planet)
      → planet_eq apex p ≡ false
      → planet_eq apex q ≡ false
      → planet_eq p q ≡ false
      → last_kind aspects p q ≡ some opposition
      → last_kind aspects apex p ≡ some square
      → last_kind aspects apex q ≡ some square
      → any (is_square_of apex p q) (detect_patterns aspects) ≡ true
  unfolding detect_patterns planet_eq
  detect_patterns-is_square_of x p q xp xq pq h g f =
      let (lookup, seen) = note_aspects aspects (λ key. none) [] in
      let t = is_square_of x p q in
      let a = looked p q opposition h in
      let a' = turned p q opposition h in
      let b = looked x p square g in
      let b' = turned x p square g in
      let c = looked x q square f in
      let c' = turned x q square f in
      each_triple-any (patterns_at lookup) t x p q seen xp xq pq
        (seen-last_kind aspects _ [] x p square g) (seen-last_kind aspects _ [] p q opposition h)
        (seen-last_kind aspects _ [] q p opposition (last_kind_comm aspects q p ∙ h))
        (opposed_last lookup t x p q b a c
          (ground (arith, eq_refl (rank x), eq_refl (rank p), eq_refl (rank q))))
        (opposed_last lookup t x q p c a' b
          (ground (arith, eq_refl (rank x), eq_refl (rank p), eq_refl (rank q))))
        (opposed_outer lookup t p x q b' c a
          (ground (arith, eq_refl (rank x), eq_refl (rank p), eq_refl (rank q))))
        (opposed_first lookup t p q x a c' b'
          (ground (arith, eq_refl (rank x), eq_refl (rank p), eq_refl (rank q))))
        (opposed_outer lookup t q x p c' b a'
          (ground (arith, eq_refl (rank x), eq_refl (rank p), eq_refl (rank q))))
        (opposed_first lookup t q p x a' b' c'
          (ground (arith, eq_refl (rank x), eq_refl (rank p), eq_refl (rank q))))
