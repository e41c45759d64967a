-- ===== src/Doc/Ring.antt =====
-- Laws of the ring of block authors.
use zodia.Prelude.{
  ℕ, ◌+◌, ◌*◌, ◌≤◌, ◌<◌, ◌≡◌, ◌↔◌, refl, sym, ap, ◌∙◌, inl, inr, true, some, List, [], ◌∷◌, ◌++◌,
  arith, ltb, nat_eq, eq_iff, length, length-append, append_nil, append_one, last?, Bool-cases,
  Option-cases, drop, suc, Bool, if◌then◌else◌, ◌-◌, false, ◌==◌,
}
use mathlib.Core.List.{Memᴰ}
use mathlib.Core.List.Memᴰ.{head, tail}
use zodia.Doc.{ring_size, RingEntry, evict, from_entries, push, contains, newest, veto_authorised}

counted :
    (b : Bool) (n : ℕ) → ltb ring_size (suc n) ≡ b → (if b then suc (n - 5) else 0) ≡ suc n - 5
counted true n h = ground (arith, h)
counted false n h = ground (arith, h)

module _ {ℓ} {A : Type ℓ} where
  pub length-evict-le : (xs : List A) → length (evict xs) ≤ ring_size
  unfolding evict
  length-evict-le [] = omega arith
  length-evict-le (x ∷ xs) = ground (arith, length-evict-le xs)

  -- The last `n` elements.
  unfoldable pub last_entries : ℕ → List A → List A
  last_entries n xs = drop (length xs - n) xs

  pub evict-last : (xs : List A) → evict xs ≡ last_entries 5 xs
  unfolding evict last_entries
  evict-last [] = refl
  evict-last (x ∷ xs) = elim (Bool-cases (ltb ring_size (length (x ∷ xs)))) [
    | inl long ↦
        rw (evict, long) (evict-last xs ∙ ap (λ k. drop k (x ∷ xs)) (counted true (length xs) long))
    | inr short ↦ rw (evict, short) (ap (λ k. drop k (x ∷ xs)) (counted false (length xs) short))
  ]

  -- What fits is kept.
  pub evict-short : (xs : List A) → length xs ≤ ring_size → evict xs ≡ xs
  unfolding evict
  evict-short [] h = refl
  evict-short (x ∷ xs) h = ground arith

  evict-long : (x : A) (xs : List A) → ring_size < length (x ∷ xs) → evict (x ∷ xs) ≡ evict xs
  unfolding evict
  evict-long x xs h = ground arith

  -- Evicting early and late comes to the same.
  pub evict-append : (xs : List A) (e : A) → evict (evict xs ++ e ∷ []) ≡ evict (xs ++ e ∷ [])
  evict-append [] e = unfold evict in refl
  evict-append (x ∷ xs) e = elim (Bool-cases (ltb ring_size (length (x ∷ xs)))) [
    | inl long ↦
        ap (λ ys. evict (ys ++ e ∷ [])) (evict-long x xs (ground (arith, long)))
        ∙ evict-append xs e
        ∙ sym (evict-long x (xs ++ e ∷ []) (ground (arith, long, length-append xs (e ∷ []))))
    | inr short ↦ ap (λ ys. evict (ys ++ e ∷ [])) (evict-short (x ∷ xs) (ground (arith, short)))
  ]

  pub last-snoc : (xs : List A) (e : A) → last? (xs ++ e ∷ []) ≡ some e
  last-snoc [] e = refl
  last-snoc (x ∷ []) e = refl
  last-snoc (x ∷ y ∷ ys) e = last-snoc (y ∷ ys) e

  pub last-evict : (xs : List A) (e : A) → last? (evict (xs ++ e ∷ [])) ≡ some e
  last-evict [] e = unfold evict in refl
  last-evict (x ∷ xs) e = elim (Bool-cases (ltb ring_size (length (x ∷ xs ++ e ∷ [])))) [
    | inl long ↦ ap last? (evict-long x (xs ++ e ∷ []) (ground (arith, long))) ∙ last-evict xs e
    | inr short ↦
        ap last? (evict-short (x ∷ xs ++ e ∷ []) (ground (arith, short))) ∙ last-snoc (x ∷ xs) e
  ]

-- Pushing the entries one after the other.
unfoldable pub push_all : List RingEntry → List RingEntry → List RingEntry
unfolding push
push_all ring [] = ring
push_all ring (e ∷ es) = push_all (push ring e) es

evict-push_all : (xs es : List RingEntry) → push_all (evict xs) es ≡ evict (xs ++ es)
unfolding push_all push
evict-push_all xs [] = ap evict (sym (append_nil xs))
evict-push_all xs (e ∷ es) =
    ap (λ r. push_all r es) (evict-append xs e)
    ∙ evict-push_all (xs ++ e ∷ []) es
    ∙ ap evict (append_one xs e es)

-- A ring that was filled by single pushes is the ring built from all its entries at once, has at
-- most `RING_SIZE` entries, and holds the last pushed entry as its newest.
pub push_all-from_entries :
    (es : List RingEntry) (e : RingEntry)
    → (push_all [] (es ++ e ∷ []) ≡ from_entries (es ++ e ∷ []))
      × ((length (push_all [] (es ++ e ∷ [])) ≤ ring_size)
          × (newest (push_all [] (es ++ e ∷ [])) ≡ some e))
unfolding from_entries newest
push_all-from_entries es e =
    let same = evict-push_all [] (es ++ e ∷ []) in
    (same, (rw same (length-evict-le (es ++ e ∷ [])), rw same (last-evict es e)))

pub veto_authorised-newest :
    (ring : List RingEntry) (revoker target edited now : ℕ)
    → (veto_authorised ring revoker target edited now ≡ true) ↔ (
        (contains ring revoker ≡ true)
        × ((now ≤ edited + 7 * 86400)
            × ((e : RingEntry) × ((newest ring ≡ some e) × (e.edit_op_id ≡ target)))))
unfolding veto_authorised
veto_authorised-newest ring revoker target edited now = (to, from)
  where
    to :
        veto_authorised ring revoker target edited now ≡ true
        → (contains ring revoker ≡ true)
          × ((now ≤ edited + 7 * 86400)
              × ((e : RingEntry) × ((newest ring ≡ some e) × (e.edit_op_id ≡ target))))
    to h = elim (Option-cases (newest ring)) [
      | inl n ↦ ground (arith, n)
      | inr (e, n) ↦ (
        ground arith,
        (ground (arith, n), (e, (n, ground (arith, n, eq_iff e.edit_op_id target)))),
      )
    ]

    from :
        (contains ring revoker ≡ true)
          × ((now ≤ edited + 7 * 86400)
              × ((e : RingEntry) × ((newest ring ≡ some e) × (e.edit_op_id ≡ target))))
        → veto_authorised ring revoker target edited now ≡ true
    from (c, (w, (e, (n, t)))) = ground (arith, c, w, n, eq_iff e.edit_op_id target)

contains-Mem :
    (ring : List RingEntry) (author : ℕ)
    → contains ring author ≡ true
    → (x : RingEntry) × (Memᴰ x ring × (x.author ≡ author))
unfolding contains
contains-Mem [] author h = cc
contains-Mem (e ∷ ring) author h = elim (Bool-cases (e.author == author)) [
  | inl f ↦ (e, (head refl, (eq_iff e.author author).0 f))
  | inr f ↦ let (x, (m, a)) = contains-Mem ring author (ground (arith, f, h)) in (x, (tail m, a))
]

Mem-contains :
    (ring : List RingEntry) (author : ℕ) (x : RingEntry)
    → Memᴰ x ring
    → x.author ≡ author
    → contains ring author ≡ true
unfolding contains
Mem-contains [] author x m a = elim m [ ]
Mem-contains (e ∷ ring) author x (head p) a =
    ground (arith, eq_iff e.author author, ap (λ y. y.author) (sym p) ∙ a)
Mem-contains (e ∷ ring) author x (tail m) a = ground (arith, Mem-contains ring author x m a)

newest-split :
    (ring : List RingEntry) (e : RingEntry)
    → newest ring ≡ some e
    → (older : List RingEntry) × (ring ≡ older ++ e ∷ [])
unfolding newest
newest-split [] e h = cc
newest-split (x ∷ []) e h = ([], cc)
newest-split (x ∷ y ∷ ys) e h =
    let (older, split) = newest-split (y ∷ ys) e h in (x ∷ older, ap (λ zs. x ∷ zs) split)

-- A veto is authorised exactly where some entry of the ring is the revoker's, at most seven days
-- have passed since the edit, and the last entry of the ring, behind all older ones, is of the edit.
pub veto_authorised_iff :
    (ring : List RingEntry) (revoker target edited now : ℕ)
    → (veto_authorised ring revoker target edited now ≡ true) ↔ (
        ((x : RingEntry) × (Memᴰ x ring × (x.author ≡ revoker)))
        × ((now ≤ edited + 604800)
            × ((older : List RingEntry) × (e : RingEntry) × ((ring ≡ older ++ e ∷ [])
                  × (e.edit_op_id ≡ target)))))
unfolding newest
veto_authorised_iff ring revoker target edited now =
    let both = veto_authorised-newest ring revoker target edited now in
    (
      λ h.
          let (c, (w, (e, (n, t)))) = both.0 h in
          let (older, split) = newest-split ring e n in
          (contains-Mem ring revoker c, (omega (arith, w), (older, e, (split, t)))),
      λ ((x, (m, a)), (w, (older, e, (split, t)))). both.1 (
        Mem-contains ring revoker x m a,
        (omega (arith, w), (e, (rw split (last-snoc older e), t))),
      ),
    )
