-- ===== src/Core/Patterns/Shapes.antt =====
-- What is detected: grand trines and T-squares, and each of them.
use mathlib.Core.Path.{subst}
use zodia.Prelude.{
  ◌≡◌, refl, sym, ap, ◌∙◌, true, Option, none, some, List, [], ◌&&◌, arith, All, All-append,
  Bool-cases, inl, inr, nat_eq,
}
use zodia.Core.Planet.{Planet, planet_eq, planet_eq_iff}
use zodia.Core.Aspects.{Aspect, AspectKind, trine, square, opposition, kind_eq-same}
use zodia.Core.Patterns.{
  ChartPattern, grand_trine, t_square, pair_key, Lookup, note_aspects, is_kind, known, t_square_at,
  patterns_at, detect_patterns,
}
use zodia.Core.Patterns.Kinds.{last_kind, known-last_kind}
use zodia.Core.Patterns.Triples.{All-each_triple}

-- Three planets each trine the other two; two planets opposed and both square the apex.
abbrev pub IsShape : (Planet → Planet → Option AspectKind) → ChartPattern → Type 0
IsShape k (grand_trine p q r) = (k p q ≡ some trine) × ((k q r ≡ some trine) × (k p r ≡ some trine))
IsShape k (t_square apex (a, b)) =
    (k a b ≡ some opposition) × ((k a apex ≡ some square) × (k b apex ≡ some square))

is_kind-some : (k : AspectKind) (o : Option AspectKind) → is_kind k o ≡ true → o ≡ some k
is_kind-some k none h = cc
is_kind-some k (some j) h = ap some (sym (kind_eq-same k j h))

pair_key_comm : (a b : Planet) → pair_key a b ≡ pair_key b a
unfolding pair_key planet_eq
pair_key_comm a b = elim (Bool-cases (planet_eq a b)) [
  | inl e ↦ subst (λ x. pair_key a x ≡ pair_key x a) ((planet_eq_iff a b).0 e) refl
  | inr e ↦ ground (arith, e)
]

module _ (lookup : Lookup) where
  known_comm : (a b : Planet) → known lookup a b ≡ known lookup b a
  unfolding known
  known_comm a b = ap lookup (pair_key_comm a b)

  t_square_at-IsShape :
      (a b apex : Planet) (sq1 sq2 : Option AspectKind)
      → sq1 ≡ known lookup a apex
      → sq2 ≡ known lookup b apex
      → All (IsShape (known lookup)) (t_square_at lookup (a, b) apex sq1 sq2)
  unfolding t_square_at
  t_square_at-IsShape a b apex sq1 sq2 h1 h2 =
      elim (Bool-cases
        (is_kind opposition (known lookup a b) && (is_kind square sq1 && is_kind square sq2))) [
          | inr e ↦ rw e tt
          | inl e ↦ rw e (
            (
              is_kind-some opposition _ (ground (arith, e)),
              (
                sym h1 ∙ is_kind-some square sq1 (ground (arith, e)),
                sym h2 ∙ is_kind-some square sq2 (ground (arith, e)),
              ),
            ),
            tt,
          )
        ]

  patterns_at-IsShape : (p q r : Planet) → All (IsShape (known lookup)) (patterns_at lookup p q r)
  unfolding patterns_at
  patterns_at-IsShape p q r =
      elim (Bool-cases (
        is_kind trine (known lookup p q)
        && (is_kind trine (known lookup q r) && is_kind trine (known lookup p r)))) [
          | inl e ↦ rw e (
            (
              is_kind-some trine _ (ground (arith, e)),
              (is_kind-some trine _ (ground (arith, e)), is_kind-some trine _ (ground (arith, e))),
            ),
            tt,
          )
          | inr e ↦ rw e (
              All-append _ (t_square_at lookup (p, q) r _ _) _
                (t_square_at-IsShape p q r _ _ refl refl)
                (All-append _ (t_square_at lookup (p, r) q _ _) _
                  (t_square_at-IsShape p r q _ _ refl (known_comm q r))
                  (t_square_at-IsShape q r p _ _ (known_comm p q) (known_comm p r))))
        ]

-- Whatever is detected has its shape, by the last aspect listed between each two of its planets.
pub detect_patterns-IsShape :
    {F : Type 0} (aspects : List (Aspect F))
    → All (IsShape (last_kind aspects)) (detect_patterns aspects)
unfolding detect_patterns
detect_patterns-IsShape aspects =
    let (lookup, seen) = note_aspects aspects (λ key. none) [] in
    subst (λ k. All (IsShape k) (detect_patterns aspects)) (λ i p q. known-last_kind aspects p q i)
      (All-each_triple (patterns_at lookup) (IsShape (known lookup)) (patterns_at-IsShape lookup)
        seen)
