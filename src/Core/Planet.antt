-- ===== src/Core/Planet.antt =====
-- core/src/planet.rs
use zodia.Prelude.{
  ℕ, ◌≡◌, refl, Bool, true, false, Option, none, some, List, [], ◌∷◌, arith, Bytes, codes, ◌==◌,
  bytes_instance, bytes_eq, nat_eq, Eq, if◌then◌else◌, find,
}

pub data Planet : Type 0 where
  sun moon mercury venus mars jupiter saturn uranus neptune pluto : Planet

-- `Planet::all`
abbrev pub all_planets : List Planet
all_planets = sun ∷ moon ∷ mercury ∷ venus ∷ mars ∷ jupiter ∷ saturn ∷ uranus ∷ neptune ∷ pluto ∷ []

-- The declaration order, which the derived `Ord` and `Hash` go by.
abbrev pub rank : Planet → ℕ
rank sun = 0
rank moon = 1
rank mercury = 2
rank venus = 3
rank mars = 4
rank jupiter = 5
rank saturn = 6
rank uranus = 7
rank neptune = 8
rank pluto = 9

abbrev pub planet_name : Planet → Bytes
planet_name sun = codes "sun"
planet_name moon = codes "moon"
planet_name mercury = codes "mercury"
planet_name venus = codes "venus"
planet_name mars = codes "mars"
planet_name jupiter = codes "jupiter"
planet_name saturn = codes "saturn"
planet_name uranus = codes "uranus"
planet_name neptune = codes "neptune"
planet_name pluto = codes "pluto"

-- `Planet::from_name`: its arms in order.
unfoldable pub planet_from_name : Bytes → Option Planet
planet_from_name name =
    if name == codes "sun"
    then some sun
    else if name == codes "moon"
    then some moon
    else if name == codes "mercury"
    then some mercury
    else if name == codes "venus"
    then some venus
    else if name == codes "mars"
    then some mars
    else if name == codes "jupiter"
    then some jupiter
    else if name == codes "saturn"
    then some saturn
    else if name == codes "uranus"
    then some uranus
    else if name == codes "neptune"
    then some neptune
    else if name == codes "pluto"
    then some pluto
    else none

-- A planet's name is read back as that planet.
pub planet_from_name-planet_name : (p : Planet) → planet_from_name (planet_name p) ≡ some p
unfolding planet_from_name bytes_eq
planet_from_name-planet_name sun = refl
planet_from_name-planet_name moon = refl
planet_from_name-planet_name mercury = refl
planet_from_name-planet_name venus = refl
planet_from_name-planet_name mars = refl
planet_from_name-planet_name jupiter = refl
planet_from_name-planet_name saturn = refl
planet_from_name-planet_name uranus = refl
planet_from_name-planet_name neptune = refl
planet_from_name-planet_name pluto = refl

unfoldable pub planet_eq : Planet → Planet → Bool
planet_eq p q = rank p == rank q

pub planet_eq_iff : (p q : Planet) → zodia.Prelude.◌↔◌ (planet_eq p q ≡ true) (p ≡ q)
unfolding planet_eq
planet_eq_iff p q = ground arith

instance abbrev pub planet_instance : Eq Planet
planet_instance = record { equal = planet_eq; decides = planet_eq_iff }

-- `PlanetPositions(HashMap<Planet, f64>)`: the longitude of each body that has one. The value type
-- is a parameter.
abbrev pub PlanetPositions {ℓ} : Type ℓ → Type ℓ
PlanetPositions L = Planet → Option L
