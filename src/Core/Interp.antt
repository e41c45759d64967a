-- ===== src/Core/Interp.antt =====
-- core/src/interp.rs: interpretation keys, their canonical strings and the parser of these.
pub mod RoundTrip
use zodia.Prelude.{
  ℕ, suc, zero, ◌+◌, ◌-◌, ◌*◌, ◌/◌, ◌%◌, Bool, true, false, ◌&&◌, Option, none, some, List, [], ◌∷◌,
  ◌++◌, Bytes, codes, ◌==◌, nat_eq, bytes_instance, bytes_eq, ltb, leb, if◌then◌else◌, length,
}
use zodia.Core.Planet.{Planet, planet_name, planet_from_name}
use zodia.Core.Aspects.{
  AspectKind, conjunction, semi_sextile, sextile, square, trine, quincunx, opposition, aspect_name,
}

pub data Angle : Type 0 where
  ascendant midheaven : Angle

abbrev pub tag : Angle → Bytes
tag ascendant = codes "asc"
tag midheaven = codes "mc"

pub data InterpKind : Type 0 where
  natal synastry transit sky_aspect house_transit placement placement_angle : InterpKind

pub data InterpKey : Type 0 where
  natal synastry sky_aspect : Bytes → InterpKey
  transit : Planet → Planet → AspectKind → InterpKey
  house_transit : Planet → ℕ → InterpKey
  placement : Planet → ℕ → Option ℕ → InterpKey
  placement_angle : Angle → ℕ → InterpKey

-- `NAMES` of `sign_name_lower`, at an index that is reduced already.
abbrev sign_names : ℕ → Bytes
sign_names zero = codes "aries"
sign_names (suc zero) = codes "taurus"
sign_names (suc (suc zero)) = codes "gemini"
sign_names (suc (suc (suc zero))) = codes "cancer"
sign_names (suc (suc (suc (suc zero)))) = codes "leo"
sign_names (suc (suc (suc (suc (suc zero))))) = codes "virgo"
sign_names (suc (suc (suc (suc (suc (suc zero)))))) = codes "libra"
sign_names (suc (suc (suc (suc (suc (suc (suc zero))))))) = codes "scorpio"
sign_names (suc (suc (suc (suc (suc (suc (suc (suc zero)))))))) = codes "sagittarius"
sign_names (suc (suc (suc (suc (suc (suc (suc (suc (suc zero))))))))) = codes "capricorn"
sign_names (suc (suc (suc (suc (suc (suc (suc (suc (suc (suc zero)))))))))) = codes "aquarius"
sign_names (suc (suc (suc (suc (suc (suc (suc (suc (suc (suc (suc zero))))))))))) = codes "pisces"
sign_names _ = codes "?"

unfoldable pub sign_name_lower : ℕ → Bytes
sign_name_lower idx = sign_names (idx % 12)

-- The decimal digits of a `u8`.
unfoldable pub decimal : ℕ → Bytes
decimal n =
    if ltb n 10
    then (48 + n) ∷ []
    else if ltb n 100
    then (48 + n / 10) ∷ (48 + n % 10) ∷ []
    else (48 + n / 100) ∷ (48 + n / 10 % 10) ∷ (48 + n % 10) ∷ []

placement_suffix : Option ℕ → Bytes
unfolding decimal
placement_suffix none = []
placement_suffix (some h) = codes ":" ++ decimal h

unfoldable pub to_sig : InterpKey → Bytes
unfolding placement_suffix sign_name_lower decimal
to_sig (natal sig) = codes "natal:" ++ sig
to_sig (synastry sig) = codes "synastry:" ++ sig
to_sig (sky_aspect sig) = codes "sky:" ++ sig
to_sig (transit t n kind) =
    codes "transit:"
    ++ (planet_name t ++ (codes "_" ++ (aspect_name kind ++ (codes "_" ++ planet_name n))))
to_sig (house_transit t house) =
    codes "house_transit:" ++ (planet_name t ++ (codes ":" ++ decimal house))
to_sig (placement p sign house) =
    codes "placement:"
    ++ (planet_name p ++ (codes ":" ++ (sign_name_lower sign ++ placement_suffix house)))
to_sig (placement_angle a sign) =
    codes "placement_angle:" ++ (tag a ++ (codes ":" ++ sign_name_lower sign))

abbrev pub kind : InterpKey → InterpKind
kind (natal _) = InterpKind.natal
kind (synastry _) = InterpKind.synastry
kind (sky_aspect _) = InterpKind.sky_aspect
kind (transit _ _ _) = InterpKind.transit
kind (house_transit _ _) = InterpKind.house_transit
kind (placement _ _ _) = InterpKind.placement
kind (placement_angle _ _) = InterpKind.placement_angle

-- `str::split_once(':')` at the byte `sep`.
unfoldable pub split_once : ℕ → Bytes → Option (Bytes × Bytes)
split_once sep [] = none
split_once sep (c ∷ cs) =
    let rest = split_once sep cs in
    if c == sep then some ([], cs) else elim rest [ none ↦ none | some (a, b) ↦ some (c ∷ a, b) ]

-- `str::strip_prefix`
unfoldable pub strip_prefix : Bytes → Bytes → Option Bytes
strip_prefix [] s = some s
strip_prefix (p ∷ ps) [] = none
strip_prefix (p ∷ ps) (c ∷ cs) = let rest = strip_prefix ps cs in if p == c then rest else none

-- `str::find(needle)`, with the text before the first occurrence and the text behind it.
unfoldable pub split_at_first : Bytes → Bytes → Option (Bytes × Bytes)
unfolding strip_prefix
split_at_first needle [] = elim (strip_prefix needle []) [
  | none ↦ none
  | some rest ↦ some ([], rest)
]
split_at_first needle (c ∷ cs) =
    let later = split_at_first needle cs in
    elim (strip_prefix needle (c ∷ cs)) [
      | some rest ↦ some ([], rest)
      | none ↦ elim later [ none ↦ none | some (a, b) ↦ some (c ∷ a, b) ]
    ]

digits : ℕ → Bytes → Option ℕ
digits n [] = some n
digits n (c ∷ cs) =
    let m = n * 10 + (c - 48) in
    let rest = digits m cs in if leb 48 c && (leb c 57 && leb m 255) then rest else none

unsigned : Bytes → Option ℕ
unfolding digits
unsigned [] = none
unsigned (c ∷ cs) = digits 0 (c ∷ cs)

-- `str::parse::<u8>()`: an optional `+`, digits, and an error past 255.
unfoldable pub parse_u8 : Bytes → Option ℕ
unfolding unsigned
parse_u8 [] = none
parse_u8 (c ∷ cs) = if c == b'+' then unsigned cs else unsigned (c ∷ cs)

-- The order in which the parser tries the kinds: `semi_sextile` ahead of `sextile`.
abbrev parse_order : List AspectKind
parse_order = semi_sextile ∷ conjunction ∷ sextile ∷ square ∷ trine ∷ quincunx ∷ opposition ∷ []

needle : AspectKind → Bytes
needle k = codes "_" ++ (aspect_name k ++ codes "_")

infixl 5 ◌>>=◌
abbrev pub ◌>>=◌ {ℓ κ} : {A : Type ℓ} {B : Type κ} → Option A → (A → Option B) → Option B
none >>= f = none
some a >>= f = f a

parse_transit : List AspectKind → Bytes → Option InterpKey
unfolding needle split_at_first planet_from_name
parse_transit [] rest = none
parse_transit (k ∷ ks) rest =
    let later = parse_transit ks rest in
    elim (split_at_first (needle k) rest) [
      | none ↦ later
      | some (a, b) ↦ planet_from_name a >>= λ transiting.
          planet_from_name b >>= λ natal_body. some (transit transiting natal_body k)
    ]

parse_house_transit : Bytes → Option InterpKey
unfolding split_once planet_from_name parse_u8
parse_house_transit rest = do
  (p, h) ← split_once b':' rest
  transiting ← planet_from_name p
  house ← parse_u8 h
  some (house_transit transiting house)

-- `(0..12).find(|&i| sign_name_lower(i) == sign_name)`, from `i` on with `n` values left.
find_sign : ℕ → ℕ → Bytes → Option ℕ
unfolding sign_name_lower
find_sign zero i name = none
find_sign (suc n) i name =
    let later = find_sign n (i + 1) name in if sign_name_lower i == name then some i else later

-- `rest.splitn(3, ':')` behind its first part: the second part and, where there is one, the third.
sign_and_house : Bytes → Bytes × Option Bytes
unfolding split_once
sign_and_house s = elim (split_once b':' s) [ none ↦ (s, none) | some (a, b) ↦ (a, some b) ]

parse_house : Option Bytes → Option (Option ℕ)
unfolding parse_u8
parse_house none = some none
parse_house (some h) = parse_u8 h >>= λ n. some (some n)

pub parse_sign_and_house : Planet → Bytes → Option InterpKey
parse_sign_and_house planet behind = do
  let parts = sign_and_house behind
  sign ← find_sign 12 0 parts.0
  house ← parse_house parts.1
  some (placement planet sign house)

-- Without a second part `parts.next()?` returns `None`.
parse_placement : Bytes → Option InterpKey
unfolding split_once planet_from_name
parse_placement rest = do
  (p, behind) ← split_once b':' rest
  planet ← planet_from_name p
  parse_sign_and_house planet behind

parse_kind : Bytes → Bytes → Option InterpKey
unfolding parse_transit parse_house_transit parse_placement bytes_eq
parse_kind kind rest =
    if kind == codes "natal"
    then some (natal rest)
    else if kind == codes "synastry"
    then some (synastry rest)
    else if kind == codes "sky"
    then some (sky_aspect rest)
    else if kind == codes "transit"
    then parse_transit parse_order rest
    else if kind == codes "house_transit"
    then parse_house_transit rest
    else if kind == codes "placement"
    then parse_placement rest
    else none

unfoldable pub parse_interp_sig : Bytes → Option InterpKey
unfolding split_once parse_kind
parse_interp_sig sig = do (kind, rest) ← split_once b':' sig; parse_kind kind rest
