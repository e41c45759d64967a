-- ===== src/Store/Feed.antt =====
-- store/src/lib.rs: the feed's rows, its read marks and its metadata. `now` is `unix_secs()`.
pub mod Unread
pub mod Recent
use zodia.Prelude.{
  ℕ, ◌+◌, Bool, true, false, not, ◌&&◌, Option, none, some, List, [], ◌∷◌, ◌++◌, Bytes, codes, ◌==◌,
  nat_eq, bytes_instance, is_value, is_other, ltb, leb, if◌then◌else◌, any, select, map, take,
  length,
}
use zodia.Sql.{insert_or_ignore, upsert, delete, count, order_by}
use zodia.Sql.Insert.{at_key, same_key}
use zodia.Store.{Db, Interp, Affirmation, FeedRead, FeedMeta}

pub data FeedRowKind : Type 0 where
  authored : FeedRowKind
  response : FeedRowKind
  affirm : FeedRowKind

pub record FeedRow : Type 0 where
  pub event_id : ℕ
  pub kind : FeedRowKind
  pub interp_key : Bytes
  pub body : Bytes
  pub author_pk : Option ℕ
  pub parent_log_id : Option ℕ
  pub target_log_id : Option ℕ
  pub ts : ℕ
  pub author_is_me : Bool

abbrev pub is_response : Interp → Bool
is_response r = elim r.parent_log_id [ none ↦ false | some p ↦ true ]

abbrev pub interp_event : ℕ → FeedRowKind → Interp → FeedRow
interp_event me kind r = record {
  event_id = r.log_id;
  kind = kind;
  interp_key = r.interp_key;
  body = r.body;
  author_pk = r.author_pk;
  parent_log_id = r.parent_log_id;
  target_log_id = none;
  ts = r.received_at;
  author_is_me = is_value r.author_pk me;
}

abbrev pub affirm_event : ℕ → Affirmation × Interp → FeedRow
affirm_event me (a, i) = record {
  event_id = a.log_id;
  kind = affirm;
  interp_key = i.interp_key;
  body = i.body;
  author_pk = some a.author_pk;
  parent_log_id = none;
  target_log_id = some a.interp_log_id;
  ts = a.created_at;
  author_is_me = a.author_pk == me;
}

-- `a JOIN b ON on`
unfoldable pub join : {A B : Type 0} → (A → B → Bool) → List A → List B → List (A × B)
join on [] ys = []
join on (x ∷ xs) ys = map (λ y. (x, y)) (select (on x) ys) ++ join on xs ys

-- ORDER BY ts DESC
abbrev pub later : FeedRow → FeedRow → Bool
later a b = leb b.ts a.ts

abbrev pub newest : ℕ → List FeedRow → List FeedRow
newest limit rows = take limit (order_by later rows)

-- The three SELECTs under the UNION ALL, without their LIMIT.
unfoldable pub authored_events : Db → ℕ → List FeedRow
authored_events db me =
    map (interp_event me authored)
      (select (λ r. not r.is_baseline && (not (is_response r) && not r.revoked)) db.interpretations)

unfoldable pub response_events : Db → ℕ → List FeedRow
response_events db me =
    map (interp_event me response)
      (select (λ r. not r.is_baseline && (is_response r && not r.revoked)) db.interpretations)

unfoldable pub affirm_events : Db → ℕ → List FeedRow
unfolding join
affirm_events db me = map (affirm_event me) (
    select (λ p. not p.1.revoked)
      (join (λ a i. i.log_id == a.interp_log_id) db.affirmations db.interpretations))

unfoldable pub recent_feed_rows : Db → ℕ → ℕ → List FeedRow
unfolding authored_events response_events affirm_events
recent_feed_rows db me limit = newest limit (
    newest limit (authored_events db me)
    ++ newest limit (response_events db me)
    ++ newest limit (affirm_events db me))

abbrev pub read_key : FeedRead → ℕ
read_key r = r.event_id

unfoldable pub mark_event_read : Db → ℕ → ℕ → Db
unfolding upsert
mark_event_read db event_id now = record db {
  feed_read =
      (upsert (same_key read_key) (λ old. some (record old { read_at = now }))
        (record { event_id = event_id; read_at = now }) db.feed_read).0;
}

unfoldable pub mark_event_unread : Db → ℕ → Db
unfolding delete
mark_event_unread db event_id = record db {
  feed_read = (delete (λ r. r.event_id == event_id) db.feed_read).0;
}

unfoldable pub is_event_read : Db → ℕ → Bool
is_event_read db event_id = any (λ r. r.event_id == event_id) db.feed_read

unfoldable pub read_all : List FeedRead → List ℕ → ℕ → List FeedRead × ℕ
unfolding insert_or_ignore
read_all t [] now = (t, 0)
read_all t (id ∷ ids) now =
    let (t', one) =
      insert_or_ignore (same_key read_key) (record { event_id = id; read_at = now }) t in
    let (t'', more) = read_all t' ids now in (t'', one + more)

-- An empty list returns early.
unfoldable pub bulk_mark_read : Db → List ℕ → ℕ → Db × ℕ
unfolding read_all
bulk_mark_read db [] now = (db, 0)
bulk_mark_read db (id ∷ ids) now =
    let (t, inserted) = read_all db.feed_read (id ∷ ids) now in
    (record db { feed_read = t }, inserted)

abbrev pub meta_key : FeedMeta → Bytes
meta_key r = r.key

unfoldable pub set_feed_meta : Db → Bytes → Bytes → Db
unfolding upsert
set_feed_meta db key value = record db {
  feed_meta =
      (upsert (same_key meta_key) (λ old. some (record old { value = value }))
        (record { key = key; value = value }) db.feed_meta).0;
}

unfoldable pub get_feed_meta : Db → Bytes → Option Bytes
get_feed_meta db key = elim (at_key meta_key key db.feed_meta) [
  | none ↦ none
  | some r ↦ some r.value
]

unfoldable pub collab_doc_migration_done : Db → Bool
unfolding get_feed_meta
collab_doc_migration_done db = elim (get_feed_meta db (codes "collab_doc_migration_v1")) [
  | none ↦ false
  | some v ↦ true
]

unfoldable pub mark_collab_doc_migration_done : Db → Db
unfolding set_feed_meta
mark_collab_doc_migration_done db = set_feed_meta db (codes "collab_doc_migration_v1") (codes "1")

-- The joined rows that both queries on unread events range over.
unfoldable pub affirms_on : Db → ℕ → List (Affirmation × Interp)
unfolding join is_event_read
affirms_on db me =
    select
      (λ p.
        is_value p.1.author_pk me
        && (not (p.0.author_pk == me) && not (is_event_read db p.0.log_id)))
      (join (λ a i. i.log_id == a.interp_log_id) db.affirmations db.interpretations)

unfoldable pub responses_on : Db → ℕ → List (Interp × Interp)
unfolding join is_event_read
responses_on db me =
    select
      (λ p.
        is_response p.0
        && (is_value p.1.author_pk me
            && (is_other p.0.author_pk me && not (is_event_read db p.0.log_id))))
      (join (λ r p. is_value r.parent_log_id p.log_id) db.interpretations db.interpretations)

unfoldable pub feed_targeting_unread_count : Db → ℕ → ℕ
unfolding affirms_on responses_on
feed_targeting_unread_count db me = length (affirms_on db me) + length (responses_on db me)

unfoldable pub feed_targeting_unread_ids : Db → ℕ → List ℕ
unfolding affirms_on responses_on
feed_targeting_unread_ids db me =
    map (λ p. p.0.log_id) (affirms_on db me) ++ map (λ p. p.0.log_id) (responses_on db me)
