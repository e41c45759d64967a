-- ===== src/Tests/Patterns.antt =====
-- Tests of the patterns among aspects.
use zodia.Prelude.{◌≡◌, refl, true, List, [], ◌∷◌, any, All}
use zodia.Core.Planet.{sun, moon, mars, jupiter, planet_eq}
use zodia.Core.Aspects.{Aspect, trine, square, opposition, sextile, kind_eq}
use zodia.Core.Patterns.{t_square, detect_patterns}
use zodia.Core.Patterns.Kinds.{last_kind}
use zodia.Core.Patterns.Shapes.{IsShape, detect_patterns-IsShape}
use zodia.Core.Patterns.Found.{
  is_trine_of, is_square_of, detect_patterns-is_trine_of, detect_patterns-is_square_of,
}

-- The Sun opposite the Moon, Mars square both. The first aspect is overwritten by a later one.
abbrev squares : List (Aspect Unit)
squares =
    record { body_a = mars; body_b = moon; kind = sextile; orb = tt }
    ∷ record { body_a = sun; body_b = moon; kind = opposition; orb = tt }
    ∷ record { body_a = mars; body_b = sun; kind = square; orb = tt }
    ∷ record { body_a = moon; body_b = mars; kind = square; orb = tt }
    ∷ []

abbrev trines : List (Aspect Unit)
trines =
    record { body_a = sun; body_b = moon; kind = trine; orb = tt }
    ∷ record { body_a = moon; body_b = jupiter; kind = trine; orb = tt }
    ∷ record { body_a = sun; body_b = jupiter; kind = trine; orb = tt }
    ∷ []

mars_is_apex : detect_patterns squares ≡ t_square mars (moon, sun) ∷ []
unfolding detect_patterns planet_eq kind_eq
mars_is_apex = refl

detect_patterns-IsShape_example : All (IsShape (last_kind squares)) (detect_patterns squares)
detect_patterns-IsShape_example = detect_patterns-IsShape squares

detect_patterns-is_trine_of_example :
    any (is_trine_of jupiter sun moon) (detect_patterns trines) ≡ true
unfolding last_kind planet_eq
detect_patterns-is_trine_of_example =
    detect_patterns-is_trine_of trines jupiter sun moon refl refl refl refl refl refl

detect_patterns-is_square_of_example :
    any (is_square_of mars sun moon) (detect_patterns squares) ≡ true
unfolding last_kind planet_eq
detect_patterns-is_square_of_example =
    detect_patterns-is_square_of squares mars sun moon refl refl refl refl refl refl
