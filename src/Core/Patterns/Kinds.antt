-- ===== src/Core/Patterns/Kinds.antt =====
-- What the lookup table knows: the kind of the last aspect between two planets.
use zodia.Prelude.{
  ◌≡◌, refl, sym, ◌∙◌, inl, inr, Bool, true, false, Option, none, some, List, [], ◌∷◌, any, ◌&&◌,
  ◌||◌, if◌then◌else◌, arith, nat_eq, eq_refl, Option-cases, Bool-cases,
}
use mathlib.Core.Path.{subst}
use zodia.Sql.Rows.{any-append}
use zodia.Core.Planet.{Planet, rank, planet_eq, planet_eq_iff}
use zodia.Core.Aspects.{Aspect, AspectKind}
use zodia.Core.Patterns.{pair_key, same_key, Lookup, inserted, see, note_aspects, known}

module _ {F : Type 0} where
  -- The aspect is one between the two planets.
  abbrev pub joins : Aspect F → Planet → Planet → Bool
  joins a p q =
      (planet_eq a.body_a p && planet_eq a.body_b q)
      || (planet_eq a.body_a q && planet_eq a.body_b p)

  -- The kind of the last aspect between the two planets.
  unfoldable pub last_kind : List (Aspect F) → Planet → Planet → Option AspectKind
  last_kind [] p q = none
  last_kind (a ∷ more) p q = elim (last_kind more p q) [
    | some k ↦ some k
    | none ↦ if joins a p q then some a.kind else none
  ]

  same_key-joins :
      (a : Aspect F) (p q : Planet)
      → same_key (pair_key a.body_a a.body_b) (pair_key p q) ≡ joins a p q
  unfolding pair_key planet_eq
  same_key-joins a p q = ground arith

  known-note_aspects :
      (more : List (Aspect F)) (lookup : Lookup) (seen : List Planet) (p q : Planet)
      → known (note_aspects more lookup seen).0 p q
        ≡ elim (last_kind more p q) [ some k ↦ some k | none ↦ known lookup p q ]
  unfolding note_aspects last_kind
  known-note_aspects [] lookup seen p q = refl
  known-note_aspects (a ∷ more) lookup seen p q =
      known-note_aspects more (inserted lookup (pair_key a.body_a a.body_b) a.kind)
        (see (see seen a.body_a) a.body_b) p q
      ∙ elim (Option-cases (last_kind more p q)) [
        | inl e ↦ rw (e, same_key-joins a p q) (one_more (joins a p q))
        | inr (k, e) ↦ rw e refl
      ]
    where
      one_more :
          (b : Bool)
          → (if b then some a.kind else known lookup p q)
            ≡ elim (if b then some a.kind else none) [ some k ↦ some k | none ↦ known lookup p q ]
      one_more true = refl
      one_more false = refl

  -- The lookup table of the loop, from the empty one.
  pub known-last_kind :
      (aspects : List (Aspect F)) (p q : Planet)
      → known (note_aspects aspects (λ key. none) []).0 p q ≡ last_kind aspects p q
  unfolding known
  known-last_kind aspects p q =
      known-note_aspects aspects (λ key. none) [] p q
      ∙ elim (Option-cases (last_kind aspects p q)) [ inl e ↦ rw e refl | inr (k, e) ↦ rw e refl ]

  pub last_kind_comm :
      (aspects : List (Aspect F)) (p q : Planet) → last_kind aspects p q ≡ last_kind aspects q p
  unfolding last_kind
  last_kind_comm [] p q = refl
  last_kind_comm (a ∷ more) p q = elim (Option-cases (last_kind more p q)) [
    | inl e ↦ rw (e, sym (last_kind_comm more p q) ∙ e, swapped) refl
    | inr (k, e) ↦ rw (e, sym (last_kind_comm more p q) ∙ e) refl
  ]
    where
      swapped : joins a p q ≡ joins a q p
      swapped = ground arith

see-kept :
    (seen : List Planet) (x p : Planet)
    → any (planet_eq p) seen ≡ true
    → any (planet_eq p) (see seen x) ≡ true
see-kept seen x p h = ground (arith, h, any-append (planet_eq p) seen (x ∷ []))

see-seen : (seen : List Planet) (x : Planet) → any (planet_eq x) (see seen x) ≡ true
unfolding planet_eq
see-seen seen x = ground (arith, any-append (planet_eq x) seen (x ∷ []), eq_refl (rank x))

module _ {F : Type 0} where
  seen_kept :
      (more : List (Aspect F)) (lookup : Lookup) (seen : List Planet) (p : Planet)
      → any (planet_eq p) seen ≡ true
      → any (planet_eq p) (note_aspects more lookup seen).1 ≡ true
  unfolding note_aspects
  seen_kept [] lookup seen p h = h
  seen_kept (a ∷ more) lookup seen p h =
      seen_kept more _ _ p (see-kept (see seen a.body_a) a.body_b p (see-kept seen a.body_a p h))

  -- A planet of an aspect is among those seen.
  ends_seen :
      (seen : List Planet) (a : Aspect F) (p q : Planet)
      → joins a p q ≡ true
      → any (planet_eq p) (see (see seen a.body_a) a.body_b) ≡ true
  ends_seen seen a p q h = elim (Bool-cases (planet_eq a.body_a p)) [
    | inl e ↦
        subst (λ x. any (planet_eq x) (see (see seen a.body_a) a.body_b) ≡ true)
          ((planet_eq_iff a.body_a p).0 e)
          (see-kept (see seen a.body_a) a.body_b a.body_a (see-seen seen a.body_a))
    | inr e ↦
        subst (λ x. any (planet_eq x) (see (see seen a.body_a) a.body_b) ≡ true)
          ((planet_eq_iff a.body_b p).0 (ground (arith, e, h)))
          (see-seen (see seen a.body_a) a.body_b)
  ]

  pub seen-last_kind :
      (more : List (Aspect F)) (lookup : Lookup) (seen : List Planet) (p q : Planet)
      (k : AspectKind)
      → last_kind more p q ≡ some k
      → any (planet_eq p) (note_aspects more lookup seen).1 ≡ true
  unfolding note_aspects last_kind
  seen-last_kind [] lookup seen p q k h = cc
  seen-last_kind (a ∷ more) lookup seen p q k h = elim (Option-cases (last_kind more p q)) [
    | inr (j, e) ↦ seen-last_kind more _ _ p q j e
    | inl e ↦ elim (Bool-cases (joins a p q)) [
      | inl f ↦ seen_kept more _ _ p (ends_seen seen a p q f)
      | inr f ↦ absurd (absent (sym (rw (e, f) refl) ∙ h))
    ]
  ]
    where
      absent : ◌≡◌ {A = Option AspectKind} none (some k) → ⊥
      absent g = cc
