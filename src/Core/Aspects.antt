-- ===== src/Core/Aspects.antt =====
-- core/src/aspects.rs: the aspect kinds.
use zodia.Prelude.{
  ℕ, ◌≡◌, arith, List, [], ◌∷◌, ◌++◌, Bytes, codes, Bool, true, false, if◌then◌else◌, ltb, ◌==◌,
  nat_eq,
}
use zodia.Core.Planet.{Planet, planet_name}

pub data AspectKind : Type 0 where
  conjunction semi_sextile sextile square trine quincunx opposition : AspectKind

-- `ASPECTS`, which `AspectKind::all` returns.
abbrev pub aspects : List AspectKind
aspects = conjunction ∷ semi_sextile ∷ sextile ∷ square ∷ trine ∷ quincunx ∷ opposition ∷ []

-- Degrees.
abbrev pub angle : AspectKind → ℕ
angle conjunction = 0
angle semi_sextile = 30
angle sextile = 60
angle square = 90
angle trine = 120
angle quincunx = 150
angle opposition = 180

abbrev pub default_orb : AspectKind → ℕ
default_orb conjunction = 8
default_orb opposition = 8
default_orb trine = 8
default_orb square = 7
default_orb sextile = 6
default_orb semi_sextile = 3
default_orb quincunx = 3

abbrev pub aspect_name : AspectKind → Bytes
aspect_name conjunction = codes "conjunction"
aspect_name semi_sextile = codes "semi_sextile"
aspect_name sextile = codes "sextile"
aspect_name square = codes "square"
aspect_name trine = codes "trine"
aspect_name quincunx = codes "quincunx"
aspect_name opposition = codes "opposition"

-- `<=` of `str`: lexicographic by bytes.
unfoldable pub bytes_le : Bytes → Bytes → Bool
bytes_le [] ys = true
bytes_le (x ∷ xs) [] = false
bytes_le (x ∷ xs) (y ∷ ys) = if x == y then bytes_le xs ys else ltb x y

unfoldable pub sorted_names : Planet → Planet → Bytes × Bytes
unfolding bytes_le
sorted_names a b =
    if bytes_le (planet_name a) (planet_name b)
    then (planet_name a, planet_name b)
    else (planet_name b, planet_name a)

-- `Aspect::sig` and `SynastryAspect::sig`, which have the same body.
unfoldable pub aspect_sig : Planet → Planet → AspectKind → Bytes
unfolding sorted_names
aspect_sig a b kind =
    let (x, y) = sorted_names a b in x ++ codes "_" ++ aspect_name kind ++ codes "_" ++ y

-- `Aspect`, over the type of its orb.
pub record Aspect (F : Type 0) : Type 0 where
  pub body_a : Planet
  pub body_b : Planet
  pub kind : AspectKind
  pub orb : F

-- The derived equality.
unfoldable pub kind_eq : AspectKind → AspectKind → Bool
kind_eq a b = angle a == angle b

pub kind_eq-same : (a b : AspectKind) → kind_eq a b ≡ true → a ≡ b
unfolding kind_eq
kind_eq-same a b h = ground (arith, h)
