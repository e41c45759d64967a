-- ===== src/Store/Interps/Queries.antt =====
-- store/src/lib.rs: the queries on interpretations, what is shown for a key and what is shared.
use zodia.Prelude.{
  ℕ, Bool, true, false, not, ◌&&◌, Option, none, some, List, [], ◌∷◌, Bytes, ◌==◌, nat_eq,
  bytes_instance, leb, if◌then◌else◌, is_value, any, find, select, map, take,
}
use zodia.Core.Interp.{InterpKey, to_sig}
use zodia.Sql.{count, order_by}
use zodia.Store.{Interp, Db}
use zodia.Store.Interps.{affirmation_count}

-- ORDER BY is_baseline ASC, (affirmations) DESC
abbrev pub ranks_before : Db → Interp → Interp → Bool
ranks_before db a b =
    if a.is_baseline
    then (if b.is_baseline
        then leb (affirmation_count db b.log_id) (affirmation_count db a.log_id)
        else false)
    else (if b.is_baseline
        then true
        else leb (affirmation_count db b.log_id) (affirmation_count db a.log_id))

abbrev pub first {ℓ} : {A : Type ℓ} → List A → Option A
first [] = none
first (x ∷ xs) = some x

abbrev pub shown_for : Bytes → Interp → Bool
shown_for key r = r.interp_key == key && not r.revoked

-- `SELECT body ... ORDER BY ... LIMIT 1`, with the whole row.
unfoldable pub top_row : Db → InterpKey → Option Interp
top_row db key =
    first (order_by (ranks_before db) (select (shown_for (to_sig key)) db.interpretations))

unfoldable pub top_body : Db → InterpKey → Option Bytes
unfolding top_row
top_body db key = elim (top_row db key) [ none ↦ none | some r ↦ some r.body ]

-- `InterpRow`
pub record InterpRow : Type 0 where
  pub log_id : ℕ
  pub body : Bytes
  pub author_pk : Option ℕ
  pub received_at : ℕ
  pub is_baseline : Bool
  pub affirmation_count : ℕ

unfoldable pub to_interp_row : Db → Interp → InterpRow
to_interp_row db r = record {
  log_id = r.log_id;
  body = r.body;
  author_pk = r.author_pk;
  received_at = r.received_at;
  is_baseline = r.is_baseline;
  affirmation_count = affirmation_count db r.log_id;
}

unfoldable pub all_for_key : Db → InterpKey → List InterpRow
unfolding to_interp_row
all_for_key db key =
    map (to_interp_row db)
      (order_by (ranks_before db) (select (shown_for (to_sig key)) db.interpretations))

unfoldable pub responses_for : Db → ℕ → List InterpRow
unfolding to_interp_row
responses_for db parent_log_id = map (to_interp_row db) (
    order_by (λ a b. leb a.received_at b.received_at)
      (select (λ r. is_value r.parent_log_id parent_log_id) db.interpretations))

pub record CommunityEntry : Type 0 where
  pub interp_key : Bytes
  pub body : Bytes
  pub author_pk : ℕ
  pub author_sig : ℕ

abbrev pub is_signed : Interp → Bool
is_signed r = elim r.author_sig [ none ↦ false | some s ↦ true ]

abbrev pub shared_for : List Bytes → Interp → Bool
shared_for keys r =
    not r.is_baseline && (is_signed r && (not r.revoked && any (λ k. r.interp_key == k) keys))

-- The rows behind `community_for_keys`.
unfoldable pub community_rows : Db → List Bytes → ℕ → List Interp
community_rows db keys limit = take limit (
    order_by (λ a b. leb (affirmation_count db b.log_id) (affirmation_count db a.log_id))
      (select (shared_for keys) db.interpretations))

-- A signed row has an author; the decoder copies both columns into arrays.
abbrev pub to_entry : Interp → CommunityEntry
to_entry r = record {
  interp_key = r.interp_key;
  body = r.body;
  author_pk = elim r.author_pk [ none ↦ 0 | some pk ↦ pk ];
  author_sig = elim r.author_sig [ none ↦ 0 | some s ↦ s ];
}

unfoldable pub community_for_keys : Db → List Bytes → ℕ → List CommunityEntry
unfolding community_rows
community_for_keys db [] limit = []
community_for_keys db (k ∷ ks) limit = map to_entry (community_rows db (k ∷ ks) limit)

pub record RecentInterp : Type 0 where
  pub interp_key : Bytes
  pub body : Bytes
  pub received_at : ℕ

abbrev to_recent : Interp → RecentInterp
to_recent r = record { interp_key = r.interp_key; body = r.body; received_at = r.received_at }

unfoldable pub recent_community_interps : Db → ℕ → List RecentInterp
recent_community_interps db limit = map to_recent (
    take limit (
      order_by (λ a b. leb b.received_at a.received_at)
        (select (λ r. not r.is_baseline && is_signed r) db.interpretations)))

unfoldable pub community_count : Db → ℕ
unfolding count
community_count db = count (λ r. not r.is_baseline) db.interpretations

unfoldable pub interp_key_and_author : Db → ℕ → Option (Bytes × Option ℕ)
interp_key_and_author db log_id = elim (find (λ r. r.log_id == log_id) db.interpretations) [
  | none ↦ none
  | some r ↦ some (r.interp_key, r.author_pk)
]

unfoldable pub distinct : List Bytes → List Bytes
distinct [] = []
distinct (k ∷ ks) = let rest = distinct ks in k ∷ select (λ j. not (j == k)) rest

unfoldable pub distinct_interp_keys : Db → List Bytes
unfolding distinct
distinct_interp_keys db =
    distinct (
      map (λ r. r.interp_key) (select (λ r. not r.is_baseline && not r.revoked) db.interpretations))

abbrev pub authored_for : Bytes → Interp → Bool
authored_for key r =
    r.interp_key == key
    && (not r.is_baseline
        && (not r.revoked && elim r.parent_log_id [ none ↦ true | some p ↦ false ]))

-- Body, author and time of each row. An author that is NULL is decoded to an empty vector, and the
-- row is left out.
abbrev pub to_authored : List Interp → List (Bytes × (ℕ × ℕ))
to_authored [] = []
to_authored (r ∷ rs) =
    let rest = to_authored rs in
    elim r.author_pk [ none ↦ rest | some pk ↦ (r.body, (pk, r.received_at)) ∷ rest ]

-- Oldest first.
unfoldable pub authored_rows_for_key : Db → Bytes → List (Bytes × (ℕ × ℕ))
authored_rows_for_key db key = to_authored (
    order_by (λ a b. leb a.received_at b.received_at)
      (select (authored_for key) db.interpretations))
