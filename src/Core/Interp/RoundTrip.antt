-- ===== src/Core/Interp/RoundTrip.antt =====
-- Reading a canonical key string back: `parse_interp_sig` after `to_sig`.
use zodia.Prelude.{
  ℕ, zero, suc, ◌%◌, ◌≤◌, ◌<◌, ◌≡◌, refl, ◌∙◌, ap, Bool, true, false, ◌&&◌, Option, none, some,
  Bytes, ◌++◌, ◌==◌, nat_eq, arith, [], ◌∷◌, any, not, eq_iff, bytes_eq,
}
use mathlib.Core.List.{append-nil}
use zodia.Core.Planet.{
  Planet, sun, moon, mercury, venus, mars, jupiter, saturn, uranus, neptune, pluto, planet_eq,
  planet_eq_iff,
}
use zodia.Core.Aspects.{
  AspectKind, conjunction, semi_sextile, sextile, square, trine, quincunx, opposition, angle,
}
use zodia.Core.Interp.{
  InterpKey, natal, synastry, sky_aspect, transit, placement, house_transit, placement_angle,
  to_sig, parse_interp_sig, decimal, parse_u8, sign_names, sign_name_lower, find_sign,
  sign_and_house, split_once, placement_suffix, parse_house, parse_sign_and_house, Angle,
}

decimal_check : ℕ → Bool
unfolding decimal parse_u8
decimal_check h = elim (parse_u8 (decimal h)) [ none ↦ false | some n ↦ n == h ]

-- The test passes at every number under the bound.
in_range : (ℕ → Bool) → ℕ → Bool
in_range test zero = true
in_range test (suc bound) = let rest = in_range test bound in rest && test bound

at_range : (test : ℕ → Bool) (bound k : ℕ) → k < bound → in_range test bound ≡ true → test k ≡ true
unfolding in_range
at_range test zero k lt every = absurd (omega (arith, lt))
at_range test (suc bound) k lt every = ground (arith, at_range test bound k, eq_iff k bound)

decimal_table : in_range decimal_check 256 ≡ true
unfolding in_range decimal_check
decimal_table = refl

parse_u8-decimal : (h : ℕ) → h ≤ 255 → parse_u8 (decimal h) ≡ some h
unfolding decimal_check
parse_u8-decimal h le = ground (arith, at_range decimal_check 256 h (omega arith) decimal_table)

angle-injective : (j k : AspectKind) → angle j ≡ angle k → j ≡ k
angle-injective j k e = ground arith

&&-true : (a b : Bool) → (a && b) ≡ true → (a ≡ true) × (b ≡ true)
&&-true a b h = ground arith

is_transit : Planet → Planet → AspectKind → Option InterpKey → Bool
is_transit t n k (some (transit t' n' k')) =
    planet_eq t' t && (planet_eq n' n && angle k' == angle k)
is_transit t n k _ = false

is_transit_sound :
    (t n : Planet) (k : AspectKind) (r : Option InterpKey)
    → is_transit t n k r ≡ true
    → r ≡ some (transit t n k)
unfolding is_transit
is_transit_sound t n k (some (transit t' n' k')) h =
    let (ht, rest) = &&-true (planet_eq t' t) (planet_eq n' n && angle k' == angle k) h in
    let (hn, hk) = &&-true (planet_eq n' n) (angle k' == angle k) rest in
    cc (
      (planet_eq_iff t' t).0 ht,
      (planet_eq_iff n' n).0 hn,
      angle-injective k' k ((eq_iff (angle k') (angle k)).0 hk),
    )
is_transit_sound t n k _ h = cc

-- The transit keys are few: each is checked.
transit_check : Planet → Planet → AspectKind → Bool
unfolding parse_interp_sig to_sig is_transit planet_eq
transit_check t n k = is_transit t n k (parse_interp_sig (to_sig (transit t n k)))

all_kinds : (AspectKind → Bool) → Bool
all_kinds p =
    p conjunction
    && (p semi_sextile && (p sextile && (p square && (p trine && (p quincunx && p opposition)))))

all_kinds_sound : (p : AspectKind → Bool) (k : AspectKind) → all_kinds p ≡ true → p k ≡ true
unfolding all_kinds
all_kinds_sound p conjunction h = ground arith
all_kinds_sound p k h = ground arith

all_of : (Planet → Bool) → Bool
all_of p =
    p sun
    && (p moon
        && (p mercury
            && (p venus
                && (p mars && (p jupiter && (p saturn && (p uranus && (p neptune && p pluto))))))))

all_of_sound : (p : Planet → Bool) (x : Planet) → all_of p ≡ true → p x ≡ true
unfolding all_of
all_of_sound p sun h = ground arith
all_of_sound p x h = ground arith

transit_table : all_of (λ t. all_of (λ n. all_kinds (transit_check t n))) ≡ true
unfolding all_of all_kinds transit_check
transit_table = refl

parse-transit :
    (t n : Planet) (k : AspectKind)
    → parse_interp_sig (to_sig (transit t n k)) ≡ some (transit t n k)
parse-transit t n k = is_transit_sound t n k (parse_interp_sig (to_sig (transit t n k))) (
    unfold transit_check in
    all_kinds_sound (transit_check t n) k (
      all_of_sound (λ m. all_kinds (transit_check t m)) n
        (all_of_sound (λ s. all_of (λ m. all_kinds (transit_check s m))) t transit_table)))

parse-house_transit :
    (t : Planet) (h : ℕ)
    → h ≤ 255
    → parse_interp_sig (to_sig (house_transit t h)) ≡ some (house_transit t h)
unfolding parse_interp_sig to_sig
parse-house_transit sun h le = rw (parse_u8-decimal h le)
parse-house_transit t h le = rw (parse_u8-decimal h le)

-- The sign names are distinct, hold no `:`, and are found again at their index.
sign_check : ℕ → Bool
sign_check s =
    not (any (λ c. c == b':') (sign_names s))
    && elim (find_sign 12 0 (sign_names s)) [ none ↦ false | some n ↦ n == s ]

sign_table : in_range sign_check 12 ≡ true
unfolding in_range sign_check find_sign bytes_eq
sign_table = refl

find_sign-sign_names : (s : ℕ) → s < 12 → find_sign 12 0 (sign_names s) ≡ some s
unfolding sign_check
find_sign-sign_names s lt = ground (arith, at_range sign_check 12 s lt sign_table)

sign_names_no_colon : (s : ℕ) → s < 12 → any (λ c. c == b':') (sign_names s) ≡ false
unfolding sign_check
sign_names_no_colon s lt = ground (arith, at_range sign_check 12 s lt sign_table)

split_once-append :
    (a b : Bytes) → any (λ c. c == b':') a ≡ false → split_once b':' (a ++ b':' ∷ b) ≡ some (a, b)
unfolding split_once
split_once-append [] b h = refl
split_once-append (c ∷ a) b h = ground (arith, split_once-append a b)

split_once-none : (a : Bytes) → any (λ c. c == b':') a ≡ false → split_once b':' a ≡ none
unfolding split_once
split_once-none [] h = refl
split_once-none (c ∷ a) h = ground (arith, split_once-none a)

sign_and_house-suffix :
    (s : ℕ) (house : Option ℕ)
    → s < 12
    → sign_and_house (sign_names s ++ placement_suffix house)
      ≡ (sign_names s, elim house [ none ↦ none | some h ↦ some (decimal h) ])
unfolding sign_and_house placement_suffix
sign_and_house-suffix s none lt =
    ap sign_and_house (append-nil (sign_names s))
    ∙ rw (sign_and_house, split_once-none (sign_names s) (sign_names_no_colon s lt))
sign_and_house-suffix s (some h) lt =
    rw (sign_and_house, split_once-append (sign_names s) (decimal h) (sign_names_no_colon s lt))

-- The house number, where there is one, is a `u8`.
abbrev pub IsU8 : Option ℕ → Type 0
IsU8 none = Unit
IsU8 (some h) = h ≤ 255

parse_house-suffix :
    (house : Option ℕ)
    → IsU8 house
    → parse_house (elim house [ none ↦ none | some h ↦ some (decimal h) ]) ≡ some house
unfolding parse_house
parse_house-suffix none le = refl
parse_house-suffix (some h) le = rw (parse_u8-decimal h le)

parse-sign_and_house :
    (p : Planet) (sign : ℕ) (house : Option ℕ)
    → IsU8 house
    → parse_sign_and_house p (sign_name_lower sign ++ placement_suffix house)
      ≡ some (placement p (sign % 12) house)
unfolding parse_sign_and_house sign_name_lower
parse-sign_and_house p sign house le = rw (
  sign_and_house-suffix (sign % 12) house (omega arith),
  find_sign-sign_names (sign % 12) (omega arith),
  parse_house-suffix house le,
)

parse-placement :
    (p : Planet) (sign : ℕ) (house : Option ℕ)
    → IsU8 house
    → parse_interp_sig (to_sig (placement p sign house)) ≡ some (placement p (sign % 12) house)
unfolding parse_interp_sig to_sig
parse-placement sun sign house le = parse-sign_and_house sun sign house le
parse-placement p sign house le = parse-sign_and_house p sign house le

-- What a reader of the canonical string can hope to get back.
abbrev pub reparsed : InterpKey → Option InterpKey
reparsed (placement p sign house) = some (placement p (sign % 12) house)
reparsed (placement_angle a sign) = none
reparsed k = some k

abbrev pub HouseIsU8 : InterpKey → Type 0
HouseIsU8 (house_transit t h) = h ≤ 255
HouseIsU8 (placement p sign house) = IsU8 house
HouseIsU8 k = Unit

-- Reading the canonical string of a key whose house number is a `u8` gives the key back, its sign
-- index reduced modulo 12; only the key of an angle is not read back.
pub parse_interp_sig-to_sig :
    (k : InterpKey) → HouseIsU8 k → parse_interp_sig (to_sig k) ≡ reparsed k
unfolding parse_interp_sig to_sig
parse_interp_sig-to_sig (natal s) u = refl
parse_interp_sig-to_sig (synastry s) u = refl
parse_interp_sig-to_sig (sky_aspect s) u = refl
parse_interp_sig-to_sig (transit t n k) u = parse-transit t n k
parse_interp_sig-to_sig (house_transit t h) u = parse-house_transit t h u
parse_interp_sig-to_sig (placement p sign house) u = parse-placement p sign house u
parse_interp_sig-to_sig (placement_angle Angle.ascendant sign) u = refl
parse_interp_sig-to_sig (placement_angle a sign) u = refl
