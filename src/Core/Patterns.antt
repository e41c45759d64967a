-- ===== src/Core/Patterns.antt =====
-- core/src/patterns.rs: grand trines and T-squares among the aspects of a chart.
use zodia.Prelude.{
  Bool, false, Option, none, some, List, [], ◌∷◌, ◌++◌, any, leb, ◌&&◌, if◌then◌else◌,
}
use zodia.Core.Planet.{Planet, rank, planet_eq}
use zodia.Core.Aspects.{Aspect, AspectKind, trine, square, opposition, kind_eq}
pub mod Kinds
pub mod Triples
pub mod Shapes
pub mod Found

pub data ChartPattern : Type 0 where
  grand_trine : Planet → Planet → Planet → ChartPattern
  t_square : (apex : Planet) (opposed : Planet × Planet) → ChartPattern

unfoldable pub pair_key : Planet → Planet → Planet × Planet
pair_key a b = if leb (rank a) (rank b) then (a, b) else (b, a)

abbrev pub same_key : Planet × Planet → Planet × Planet → Bool
same_key (a, b) (c, d) = planet_eq a c && planet_eq b d

-- `HashMap<(Planet, Planet), AspectKind>`
abbrev pub Lookup : Type 0
Lookup = Planet × Planet → Option AspectKind

abbrev pub inserted : Lookup → Planet × Planet → AspectKind → Lookup
inserted lookup key kind = λ q. if same_key key q then some kind else lookup q

abbrev pub see : List Planet → Planet → List Planet
see seen p = if any (planet_eq p) seen then seen else seen ++ p ∷ []

-- The first loop: what is known of each pair, and the planets in order of appearance.
unfoldable pub note_aspects :
    {F : Type 0} → List (Aspect F) → Lookup → List Planet → Lookup × List Planet
unfolding pair_key
note_aspects [] lookup seen = (lookup, seen)
note_aspects (a ∷ more) lookup seen =
    note_aspects more (inserted lookup (pair_key a.body_a a.body_b) a.kind)
      (see (see seen a.body_a) a.body_b)

abbrev pub is_kind : AspectKind → Option AspectKind → Bool
is_kind k none = false
is_kind k (some j) = kind_eq k j

module _ (lookup : Lookup) where
  abbrev pub known : Planet → Planet → Option AspectKind
  unfolding pair_key
  known a b = lookup (pair_key a b)

  -- One entry of the inner array: the pair that may be opposed, the apex and its two legs.
  abbrev pub t_square_at :
      Planet × Planet → Planet → Option AspectKind → Option AspectKind → List ChartPattern
  unfolding known
  t_square_at (a, b) apex sq1 sq2 =
      if is_kind opposition (known a b) && (is_kind square sq1 && is_kind square sq2)
      then ChartPattern.t_square apex (a, b) ∷ []
      else []

  unfoldable pub patterns_at : Planet → Planet → Planet → List ChartPattern
  unfolding known t_square_at
  patterns_at p1 p2 p3 =
      let ab = known p1 p2 in
      let bc = known p2 p3 in
      let ac = known p1 p3 in
      if is_kind trine ab && (is_kind trine bc && is_kind trine ac)
      then ChartPattern.grand_trine p1 p2 p3 ∷ []
      else t_square_at (p1, p2) p3 ac bc
        ++ (t_square_at (p1, p3) p2 ab bc ++ t_square_at (p2, p3) p1 ab ac)

-- The loops over `i < j < k`.
module _ {A : Type 0} (f : Planet → Planet → Planet → List A) where
  unfoldable pub with_pair : Planet → Planet → List Planet → List A
  with_pair p1 p2 [] = []
  with_pair p1 p2 (p3 ∷ ps) = f p1 p2 p3 ++ with_pair p1 p2 ps

  unfoldable pub with_first : Planet → List Planet → List A
  unfolding with_pair
  with_first p1 [] = []
  with_first p1 (p2 ∷ ps) = with_pair p1 p2 ps ++ with_first p1 ps

  unfoldable pub each_triple : List Planet → List A
  unfolding with_first
  each_triple [] = []
  each_triple (p1 ∷ ps) = with_first p1 ps ++ each_triple ps

unfoldable pub detect_patterns : {F : Type 0} → List (Aspect F) → List ChartPattern
unfolding note_aspects patterns_at each_triple
detect_patterns aspects =
    let (lookup, seen) = note_aspects aspects (λ key. none) [] in
    each_triple (patterns_at lookup) seen
