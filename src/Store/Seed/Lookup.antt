-- ===== src/Store/Seed/Lookup.antt =====
-- Looking up a key finds the entry of its section.
use zodia.Prelude.{
  ◌≡◌, refl, ap, ◌∙◌, Bool, true, false, not, ◌||◌, Option, none, some, [], ◌∷◌, ◌++◌, Bytes, codes,
  ◌==◌, bytes_instance, bytes_eq, nat_eq, eq_refl, if◌then◌else◌, arith, Option-cases, inl, inr,
}
use zodia.Core.Interp.{InterpKey, to_sig}
use zodia.Store.Seed.{Section, BaselineData, BaselineStore, insert, insert_all, from_data, lookup}

-- The text of a section's key; of two entries with one key, the later.
unfoldable pub text_of : Section → Bytes → Option Bytes
text_of [] q = none
text_of ((k, v) ∷ entries) q = elim (text_of entries q) [
  | some w ↦ some w
  | none ↦ if k == q then some v else none
]

-- Somewhere the two texts have different bytes.
abbrev clash : Bytes → Bytes → Bool
clash [] ys = false
clash (x ∷ xs) [] = false
clash (x ∷ xs) (y ∷ ys) = not (x == y) || clash xs ys

bytes_eq-clash : (p q xs ys : Bytes) → clash p q ≡ true → ((p ++ xs) == (q ++ ys)) ≡ false
unfolding bytes_eq
bytes_eq-clash [] q xs ys h = cc
bytes_eq-clash (x ∷ p) [] xs ys h = cc
bytes_eq-clash (x ∷ p) (y ∷ q) xs ys h = ground (arith, h, bytes_eq-clash p q xs ys)

bytes_eq-prefix : (p xs ys : Bytes) → ((p ++ xs) == (p ++ ys)) ≡ (xs == ys)
unfolding bytes_eq
bytes_eq-prefix [] xs ys = refl
bytes_eq-prefix (x ∷ p) xs ys = ground (arith, eq_refl x, bytes_eq-prefix p xs ys)

-- A loop leaves the keys of other sections.
insert_all-other :
    (p : Bytes) (entries : Section) (s : BaselineStore) (q rest : Bytes)
    → clash p q ≡ true
    → (insert_all p entries s).map (q ++ rest) ≡ s.map (q ++ rest)
unfolding insert_all
insert_all-other p [] s q rest h = refl
insert_all-other p ((k, v) ∷ entries) s q rest h =
    insert_all-other p entries (insert s (p ++ k) v) q rest h
    ∙ rw (bytes_eq-clash p q k rest h) refl

insert_all-own :
    (p : Bytes) (entries : Section) (s : BaselineStore) (rest : Bytes)
    → (insert_all p entries s).map (p ++ rest)
      ≡ elim (text_of entries rest) [ some w ↦ some w | none ↦ s.map (p ++ rest) ]
unfolding insert_all text_of
insert_all-own p [] s rest = refl
insert_all-own p ((k, v) ∷ entries) s rest =
    insert_all-own p entries (insert s (p ++ k) v) rest
    ∙ elim (Option-cases (text_of entries rest)) [
      | inl e ↦ rw (e, bytes_eq-prefix p k rest) (here (k == rest))
      | inr (w, e) ↦ rw e refl
    ]
  where
    here :
        (b : Bool)
        → (if b then some v else s.map (p ++ rest))
          ≡ elim (if b then some v else none) [ some w ↦ some w | none ↦ s.map (p ++ rest) ]
    here true = refl
    here false = refl

insert_all-first :
    (p : Bytes) (entries : Section) (s : BaselineStore) (rest : Bytes)
    → s.map (p ++ rest) ≡ none
    → (insert_all p entries s).map (p ++ rest) ≡ text_of entries rest
insert_all-first p entries s rest h =
    insert_all-own p entries s rest
    ∙ elim (Option-cases (text_of entries rest)) [ inl e ↦ rw (e, h) refl | inr (w, e) ↦ rw e refl ]

-- The section that has the texts for keys of this kind, and how their strings begin.
abbrev pub section_of : BaselineData → InterpKey → Section
section_of d (InterpKey.natal sig) = d.natal
section_of d (InterpKey.synastry sig) = d.synastry
section_of d (InterpKey.sky_aspect sig) = []
section_of d (InterpKey.transit t n kind) = d.transit
section_of d (InterpKey.house_transit t house) = d.house_transit
section_of d (InterpKey.placement p sign house) = d.placement
section_of d (InterpKey.placement_angle a sign) = d.placement_angle

abbrev pub prefix_of : InterpKey → Bytes
prefix_of (InterpKey.natal sig) = codes "natal:"
prefix_of (InterpKey.synastry sig) = codes "synastry:"
prefix_of (InterpKey.sky_aspect sig) = codes "sky:"
prefix_of (InterpKey.transit t n kind) = codes "transit:"
prefix_of (InterpKey.house_transit t house) = codes "house_transit:"
prefix_of (InterpKey.placement p sign house) = codes "placement:"
prefix_of (InterpKey.placement_angle a sign) = codes "placement_angle:"

module _ (d : BaselineData) (rest : Bytes) where
  natal_text : (from_data d).map (codes "natal:" ++ rest) ≡ text_of d.natal rest
  unfolding from_data
  natal_text =
      insert_all-other (codes "placement_angle:") d.placement_angle _ (codes "natal:") rest refl
      ∙ insert_all-other (codes "placement:") d.placement _ (codes "natal:") rest refl
      ∙ insert_all-other (codes "house_transit:") d.house_transit _ (codes "natal:") rest refl
      ∙ insert_all-other (codes "transit:") d.transit _ (codes "natal:") rest refl
      ∙ insert_all-other (codes "synastry:") d.synastry _ (codes "natal:") rest refl
      ∙ insert_all-first (codes "natal:") d.natal _ rest (refl)

  synastry_text : (from_data d).map (codes "synastry:" ++ rest) ≡ text_of d.synastry rest
  unfolding from_data
  synastry_text =
      insert_all-other (codes "placement_angle:") d.placement_angle _ (codes "synastry:") rest refl
      ∙ insert_all-other (codes "placement:") d.placement _ (codes "synastry:") rest refl
      ∙ insert_all-other (codes "house_transit:") d.house_transit _ (codes "synastry:") rest refl
      ∙ insert_all-other (codes "transit:") d.transit _ (codes "synastry:") rest refl
      ∙ insert_all-first (codes "synastry:") d.synastry _ rest
          (insert_all-other (codes "natal:") d.natal _ (codes "synastry:") rest refl)

  transit_text : (from_data d).map (codes "transit:" ++ rest) ≡ text_of d.transit rest
  unfolding from_data
  transit_text =
      insert_all-other (codes "placement_angle:") d.placement_angle _ (codes "transit:") rest refl
      ∙ insert_all-other (codes "placement:") d.placement _ (codes "transit:") rest refl
      ∙ insert_all-other (codes "house_transit:") d.house_transit _ (codes "transit:") rest refl
      ∙ insert_all-first (codes "transit:") d.transit _ rest (
          insert_all-other (codes "synastry:") d.synastry _ (codes "transit:") rest refl
          ∙ insert_all-other (codes "natal:") d.natal _ (codes "transit:") rest refl)

  house_transit_text :
      (from_data d).map (codes "house_transit:" ++ rest) ≡ text_of d.house_transit rest
  unfolding from_data
  house_transit_text =
      insert_all-other (codes "placement_angle:") d.placement_angle _ (codes "house_transit:") rest
        refl
      ∙ insert_all-other (codes "placement:") d.placement _ (codes "house_transit:") rest refl
      ∙ insert_all-first (codes "house_transit:") d.house_transit _ rest (
          insert_all-other (codes "transit:") d.transit _ (codes "house_transit:") rest refl
          ∙ insert_all-other (codes "synastry:") d.synastry _ (codes "house_transit:") rest refl
          ∙ insert_all-other (codes "natal:") d.natal _ (codes "house_transit:") rest refl)

  placement_text : (from_data d).map (codes "placement:" ++ rest) ≡ text_of d.placement rest
  unfolding from_data
  placement_text =
      insert_all-other (codes "placement_angle:") d.placement_angle _ (codes "placement:") rest refl
      ∙ insert_all-first (codes "placement:") d.placement _ rest (
          insert_all-other (codes "house_transit:") d.house_transit _ (codes "placement:") rest refl
          ∙ insert_all-other (codes "transit:") d.transit _ (codes "placement:") rest refl
          ∙ insert_all-other (codes "synastry:") d.synastry _ (codes "placement:") rest refl
          ∙ insert_all-other (codes "natal:") d.natal _ (codes "placement:") rest refl)

  placement_angle_text :
      (from_data d).map (codes "placement_angle:" ++ rest) ≡ text_of d.placement_angle rest
  unfolding from_data
  placement_angle_text = insert_all-first (codes "placement_angle:") d.placement_angle _ rest (
      insert_all-other (codes "placement:") d.placement _ (codes "placement_angle:") rest refl
      ∙ insert_all-other (codes "house_transit:") d.house_transit _ (codes "placement_angle:") rest
          refl
      ∙ insert_all-other (codes "transit:") d.transit _ (codes "placement_angle:") rest refl
      ∙ insert_all-other (codes "synastry:") d.synastry _ (codes "placement_angle:") rest refl
      ∙ insert_all-other (codes "natal:") d.natal _ (codes "placement_angle:") rest refl)

  sky_text : (from_data d).map (codes "sky:" ++ rest) ≡ none
  unfolding from_data
  sky_text =
      insert_all-other (codes "placement_angle:") d.placement_angle _ (codes "sky:") rest refl
      ∙ insert_all-other (codes "placement:") d.placement _ (codes "sky:") rest refl
      ∙ insert_all-other (codes "house_transit:") d.house_transit _ (codes "sky:") rest refl
      ∙ insert_all-other (codes "transit:") d.transit _ (codes "sky:") rest refl
      ∙ insert_all-other (codes "synastry:") d.synastry _ (codes "sky:") rest refl
      ∙ insert_all-other (codes "natal:") d.natal _ (codes "sky:") rest refl

-- The text that is looked up for a key is the one that its section has for what the key's string
-- says behind the section's prefix; there is none for an aspect in the sky.
pub lookup-from_data :
    (d : BaselineData) (key : InterpKey) (rest : Bytes)
    → to_sig key ≡ prefix_of key ++ rest
    → lookup (from_data d) key ≡ text_of (section_of d key) rest
unfolding lookup text_of
lookup-from_data d (InterpKey.natal sig) rest h = ap (from_data d).map h ∙ natal_text d rest
lookup-from_data d (InterpKey.synastry sig) rest h = ap (from_data d).map h ∙ synastry_text d rest
lookup-from_data d (InterpKey.sky_aspect sig) rest h = ap (from_data d).map h ∙ sky_text d rest
lookup-from_data d (InterpKey.transit t n kind) rest h =
    ap (from_data d).map h ∙ transit_text d rest
lookup-from_data d (InterpKey.house_transit t house) rest h =
    ap (from_data d).map h ∙ house_transit_text d rest
lookup-from_data d (InterpKey.placement p sign house) rest h =
    ap (from_data d).map h ∙ placement_text d rest
lookup-from_data d (InterpKey.placement_angle a sign) rest h =
    ap (from_data d).map h ∙ placement_angle_text d rest
