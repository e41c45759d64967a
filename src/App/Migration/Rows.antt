-- ===== src/App/Migration/Rows.antt =====
-- Which rows of the store the migration reads: the texts on a key, and the keys with rows.
use mathlib.Core.List.{Memᴰ}
use zodia.Prelude.{
  ◌≡◌, refl, sym, ap, ◌∙◌, Bool, true, false, not, ◌&&◌, ◌||◌, none, some, List, [], ◌∷◌, Bytes,
  any, arith, ◌==◌, bytes_instance, bytes_eq_iff, if◌then◌else◌, Bool-cases, Option-cases, inl, inr,
  map, select, leb,
}
use zodia.Sql.{order_by}
use zodia.Sql.Rows.{All-Mem, All-imp, any-select, select-agree}
use zodia.Store.{Interp, Db}
use zodia.Store.Interps.Queries.{
  distinct, distinct_interp_keys, authored_for, to_authored, authored_rows_for_key,
}

-- The row is a text on the key that no one revoked: not a baseline text and not an answer.
unfoldable pub is_text_on : Bytes → Interp → Bool
is_text_on key r = elim r.parent_log_id [
  | some parent ↦ false
  | none ↦ if r.is_baseline || r.revoked then false else r.interp_key == key
]

unfoldable pub has_author : Interp → Bool
has_author r = elim r.author_pk [ none ↦ false | some pk ↦ true ]

-- The texts on a key that have an author, the oldest first.
unfoldable pub texts_on : Db → Bytes → List Bytes
unfolding is_text_on has_author
texts_on db key =
    map (λ r. r.body)
      (select has_author (
        order_by (λ a b. leb a.received_at b.received_at)
          (select (is_text_on key) db.interpretations)))

-- Some row of the key is neither a baseline text nor revoked.
unfoldable pub has_rows : Db → Bytes → Bool
has_rows db key =
    any (λ r. if r.is_baseline || r.revoked then false else r.interp_key == key) db.interpretations

bodies :
    (rs : List Interp) → map (λ r. r.0) (to_authored rs) ≡ map (λ r. r.body) (select has_author rs)
unfolding has_author select
bodies [] = refl
bodies (r ∷ rs) = elim (Option-cases r.author_pk) [
  | inl e ↦ rw (e, has_author) (bodies rs)
  | inr (pk, e) ↦ rw (e, has_author) (ap (λ ts. r.body ∷ ts) (bodies rs))
]

authored_for-is_text_on : (key : Bytes) (r : Interp) → authored_for key r ≡ is_text_on key r
unfolding is_text_on
authored_for-is_text_on key r = elim (Option-cases r.parent_log_id) [
  | inl e ↦ rw (e, is_text_on) (ground arith)
  | inr (p, e) ↦ rw (e, is_text_on) (ground arith)
]

pub authored_rows_for_key-texts_on :
    (db : Db) (key : Bytes) → map (λ r. r.0) (authored_rows_for_key db key) ≡ texts_on db key
unfolding authored_rows_for_key texts_on
authored_rows_for_key-texts_on db key =
    bodies _
    ∙ ap
        (λ rs.
          map (λ r. r.body)
            (select has_author (order_by (λ a b. leb a.received_at b.received_at) rs)))
        (select-agree (authored_for key) (is_text_on key) db.interpretations (
          All-imp (λ r. Memᴰ r db.interpretations) (λ r. authored_for key r ≡ is_text_on key r)
            (λ r m. authored_for-is_text_on key r) db.interpretations (All-Mem db.interpretations)))

any-agree :
    {A : Type 0} (p q : A → Bool) → ((x : A) → p x ≡ q x) → (xs : List A) → any p xs ≡ any q xs
any-agree p q h [] = refl
any-agree p q h (x ∷ xs) = ground (arith, h x, any-agree p q h xs)

any-map :
    {A B : Type 0} (f : A → B) (q : B → Bool) (xs : List A)
    → any q (map f xs) ≡ any (λ x. q (f x)) xs
any-map f q [] = refl
any-map f q (x ∷ xs) = ap (λ b. q (f x) || b) (any-map f q xs)

other : (j k x : Bytes) → (k == j) ≡ false → (not (x == k) && x == j) ≡ (x == j)
other j k x h = elim (Bool-cases (x == j)) [
  | inl e ↦ elim (Bool-cases (x == k)) [
    | inl f ↦ absurd (
        ground
          (arith, h, (bytes_eq_iff k j).1 (sym ((bytes_eq_iff x k).0 f) ∙ (bytes_eq_iff x j).0 e)))
    | inr f ↦ ground (arith, e, f)
  ]
  | inr e ↦ ground (arith, e)
]

any-distinct :
    (j : Bytes) (ks : List Bytes) → any (λ k. k == j) (distinct ks) ≡ any (λ k. k == j) ks
unfolding distinct
any-distinct j [] = refl
any-distinct j (k ∷ ks) = elim (Bool-cases (k == j)) [
  | inl e ↦ ground (arith, e)
  | inr e ↦
      ap (λ b. (k == j) || b)
        (any-select (λ x. x == j) (λ x. not (x == k)) (distinct ks)
          ∙ any-agree _ _ (λ x. other j k x e) (distinct ks)
          ∙ any-distinct j ks)
]

pub any-distinct_interp_keys :
    (db : Db) (j : Bytes) → any (λ k. k == j) (distinct_interp_keys db) ≡ has_rows db j
unfolding distinct_interp_keys has_rows
any-distinct_interp_keys db j =
    any-distinct j _
    ∙ any-map (λ r. r.interp_key) (λ k. k == j) _
    ∙ any-select (λ r. r.interp_key == j) (λ r. not r.is_baseline && not r.revoked)
        db.interpretations
    ∙ any-agree _ _ (λ r. ground arith) db.interpretations
