-- ===== src/Store/Feed/Unread.antt =====
-- The notification bell: unread events that target the local identity, and what marks them read.
use zodia.Prelude.{
  ℕ, ◌≡◌, refl, sym, ap, ◌∙◌, inl, inr, Bool, true, false, not, ◌&&◌, ◌||◌, List, [], ◌∷◌, ◌++◌,
  is_value, is_other, ◌==◌, nat_eq, eq_iff, eq_refl, Bool-cases, arith, any, select, map, All,
  length, length-append, append_one, append_nil,
}
use zodia.Sql.{insert_or_ignore}
use zodia.Sql.Insert.{same_key, any-insert_or_ignore}
use zodia.Sql.Rows.{any-append, opened, passed}
use zodia.Store.{Db, Interp, Affirmation, FeedRead}
use zodia.Store.Feed.{
  read_key, is_event_read, read_all, bulk_mark_read, join, is_response, affirms_on, responses_on,
  feed_targeting_unread_count, feed_targeting_unread_ids,
}

length-map : {A B : Type 0} (f : A → B) (xs : List A) → length (map f xs) ≡ length xs
length-map f [] = refl
length-map f (x ∷ xs) = omega (arith, length-map f xs)

-- The number on the bell is the number of events that a click on it marks as read.
feed_targeting_unread_count-ids :
    (db : Db) (me : ℕ)
    → feed_targeting_unread_count db me ≡ length (feed_targeting_unread_ids db me)
unfolding feed_targeting_unread_count feed_targeting_unread_ids
feed_targeting_unread_count-ids db me = omega (
  arith,
  length-append (map (λ p. p.0.log_id) (affirms_on db me))
      (map (λ p. p.0.log_id) (responses_on db me)),
  length-map (λ (p : Affirmation × Interp). p.0.log_id) (affirms_on db me),
  length-map (λ (p : Interp × Interp). p.0.log_id) (responses_on db me),
)

read-old :
    (id j : ℕ) (t : List FeedRead)
    → (id == j) ≡ true
    → any (λ r. r.event_id == id) t ≡ any (λ r. r.event_id == j) t
read-old id j t h = rw ((eq_iff id j).0 h) refl

any-read_all :
    (t : List FeedRead) (ids : List ℕ) (now j : ℕ)
    → any (λ r. r.event_id == j) (read_all t ids now).0
      ≡ (any (λ r. r.event_id == j) t || any (λ id. id == j) ids)
unfolding read_all
any-read_all t [] now j = ground arith
any-read_all t (id ∷ ids) now j =
    let row : FeedRead = record { event_id = id; read_at = now } in
    ground (
      arith,
      any-read_all (insert_or_ignore (same_key read_key) row t).0 ids now j,
      any-insert_or_ignore (same_key read_key) (λ r. r.event_id == j) row t,
      read-old id j t,
    )

-- A bulk mark reads the given events, and leaves all others as they are.
pub is_event_read-bulk_mark_read :
    (db : Db) (ids : List ℕ) (now j : ℕ)
    → is_event_read (bulk_mark_read db ids now).0 j
      ≡ (is_event_read db j || any (λ id. id == j) ids)
unfolding is_event_read bulk_mark_read
is_event_read-bulk_mark_read db [] now j = ground arith
is_event_read-bulk_mark_read db (id ∷ ids) now j = any-read_all db.feed_read (id ∷ ids) now j

-- What every selected row's id is listed for is not selected once the listed ids are read.
nothing_left :
    {A : Type 0} (f : A → ℕ) (passes : A → Bool → Bool) (read read' : ℕ → Bool) (ids : List ℕ)
    → ((x : A) → passes x true ≡ false)
    → ((j : ℕ) → read' j ≡ (read j || any (λ id. id == j) ids))
    → (xs : List A)
    → All (λ x. any (λ id. id == f x) ids ≡ true) (select (λ x. passes x (read (f x))) xs)
    → select (λ x. passes x (read' (f x))) xs ≡ []
unfolding select
nothing_left f passes read read' ids off agree [] h = refl
nothing_left f passes read read' ids off agree (x ∷ xs) h = elim (Bool-cases (read' (f x))) [
  | inl now ↦ rw (now, off x) (nothing_left f passes read read' ids off agree xs (tail h))
  | inr still ↦
      let unread : read (f x) ≡ false = ground (arith, still, agree (f x)) in
      elim (Bool-cases (passes x (read (f x)))) [
        | inl e ↦
            ground (arith, (opened x xs (λ y. passes y (read (f y))) _ e h).0, still, agree (f x))
        | inr e ↦
            let out : passes x (read' (f x)) ≡ false = ap (passes x) (still ∙ sym unread) ∙ e in
            rw out (nothing_left f passes read read' ids off agree xs (tail h))
      ]
]
  where
    tail :
        All (λ y. any (λ id. id == f y) ids ≡ true) (select (λ y. passes y (read (f y))) (x ∷ xs))
        → All (λ y. any (λ id. id == f y) ids ≡ true) (select (λ y. passes y (read (f y))) xs)
    tail h = elim (Bool-cases (passes x (read (f x)))) [
      | inl e ↦ (opened x xs (λ y. passes y (read (f y))) _ e h).1
      | inr e ↦ passed x xs (λ y. passes y (read (f y))) _ e h
    ]

covered :
    {A : Type 0} (f : A → ℕ) (xs : List A) (ids before after : List ℕ)
    → ids ≡ (before ++ map f xs) ++ after
    → All (λ x. any (λ id. id == f x) ids ≡ true) xs
covered f [] ids before after h = tt
covered f (x ∷ xs) ids before after h = (
  ground (
    arith,
    ap (any (λ id. id == f x)) h,
    any-append (λ id. id == f x) (before ++ f x ∷ map f xs) after,
    any-append (λ id. id == f x) before (f x ∷ map f xs),
    eq_refl (f x),
  ),
  covered f xs ids (before ++ f x ∷ []) after
      (h ∙ ap (λ ys. ys ++ after) (sym (append_one before (f x) (map f xs)))),
)

read_only :
    (db : Db) (ids : List ℕ) (now : ℕ)
    → (bulk_mark_read db ids now).0 ≡ record db { feed_read = (read_all db.feed_read ids now).0 }
unfolding bulk_mark_read read_all
read_only db [] now = refl
read_only db (id ∷ ids) now = refl

marked : Db → List ℕ → ℕ → Db
marked db ids now = record db { feed_read = (read_all db.feed_read ids now).0 }

is_event_read-marked :
    (db : Db) (ids : List ℕ) (now j : ℕ)
    → is_event_read (marked db ids now) j ≡ (is_event_read db j || any (λ id. id == j) ids)
unfolding is_event_read marked
is_event_read-marked db ids now j = any-read_all db.feed_read ids now j

module _ (db : Db) (me now : ℕ) where
  ids : List ℕ
  ids = feed_targeting_unread_ids db me

  affirms_left : affirms_on (marked db ids now) me ≡ []
  unfolding affirms_on marked ids feed_targeting_unread_ids
  affirms_left =
      nothing_left (λ (p : Affirmation × Interp). p.0.log_id)
        (λ p read. is_value p.1.author_pk me && (not (p.0.author_pk == me) && not read))
        (is_event_read db) (is_event_read (marked db ids now)) ids (λ p. ground arith)
        (is_event_read-marked db ids now)
        (join (λ a i. i.log_id == a.interp_log_id) db.affirmations db.interpretations)
        (covered (λ (p : Affirmation × Interp). p.0.log_id) (affirms_on db me) ids []
          (map (λ (p : Interp × Interp). p.0.log_id) (responses_on db me)) refl)

  responses_left : responses_on (marked db ids now) me ≡ []
  unfolding responses_on marked ids feed_targeting_unread_ids
  responses_left =
      nothing_left (λ (p : Interp × Interp). p.0.log_id)
        (λ p read.
          is_response p.0 && (is_value p.1.author_pk me && (is_other p.0.author_pk me && not read)))
        (is_event_read db) (is_event_read (marked db ids now)) ids (λ p. ground arith)
        (is_event_read-marked db ids now)
        (join (λ r p. is_value r.parent_log_id p.log_id) db.interpretations db.interpretations)
        (covered (λ (p : Interp × Interp). p.0.log_id) (responses_on db me) ids
          (map (λ (p : Affirmation × Interp). p.0.log_id) (affirms_on db me)) []
          (sym (append_nil _)))

  none_left : feed_targeting_unread_count (marked db ids now) me ≡ 0
  unfolding feed_targeting_unread_count
  none_left = rw (affirms_left, responses_left, feed_targeting_unread_count) refl

-- Once the unread events that target an identity have been marked in bulk, none is left unread.
pub feed_targeting_unread_count-bulk_mark_read :
    (db : Db) (me now : ℕ)
    → feed_targeting_unread_count (bulk_mark_read db (feed_targeting_unread_ids db me) now).0 me ≡ 0
unfolding marked ids
feed_targeting_unread_count-bulk_mark_read db me now =
    rw (read_only db (feed_targeting_unread_ids db me) now) (none_left db me now)
