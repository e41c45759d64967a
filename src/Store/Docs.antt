-- ===== src/Store/Docs.antt =====
-- store/src/lib.rs: the collaborative documents' snapshots, author rings and affirmations.
-- `now` is `unix_secs()`. A transaction is its statements in order.
pub mod Rings
pub mod Votes
pub mod Snapshots
use zodia.Prelude.{
  ℕ, suc, Bool, true, false, not, ◌&&◌, Option, none, some, List, [], ◌∷◌, ◌++◌, Bytes, codes, ◌==◌,
  nat_eq, bytes_instance, ltb, leb, if◌then◌else◌, any, find, select, map,
}
use zodia.Sql.{insert_or_ignore, upsert, update, delete, count, order_by}
use zodia.Sql.Insert.{at_key}
use zodia.Store.{Db, FeedMeta, InterpDoc, BlockAuthor, DocAffirm}
use zodia.Doc.{evict}

abbrev pub doc_key : InterpDoc → Bytes
doc_key d = d.interp_key

unfoldable pub doc_load : Db → Bytes → Option Bytes
doc_load db interp_key = elim (at_key doc_key interp_key db.interp_docs) [
  | none ↦ none
  | some d ↦ some d.loro_snapshot
]

-- The row of `doc_save`, its other columns NULL, and its DO UPDATE clause.
abbrev pub saved_row : Bytes → Bytes → ℕ → ℕ → InterpDoc
saved_row interp_key snapshot snapshot_rev now = record {
  interp_key = interp_key;
  loro_snapshot = snapshot;
  snapshot_rev = snapshot_rev;
  updated_at = now;
  prior_snapshot = none;
  last_edit_op_id = none;
  last_edit_ts = none;
  last_edit_author = none;
  last_edit_blocks = none;
}

abbrev pub saved_over : Bytes → ℕ → ℕ → InterpDoc → InterpDoc
saved_over snapshot snapshot_rev now old = record old {
  loro_snapshot = snapshot;
  snapshot_rev = snapshot_rev;
  updated_at = now;
}

unfoldable pub doc_save : Db → Bytes → Bytes → ℕ → ℕ → Db
unfolding upsert
doc_save db interp_key snapshot snapshot_rev now = record db {
  interp_docs =
      (upsert (λ a b. doc_key a == doc_key b)
        (λ old. some (saved_over snapshot snapshot_rev now old))
        (saved_row interp_key snapshot snapshot_rev now) db.interp_docs).0;
}

-- The edit that `doc_save_with_history` records beside the snapshot.
pub record LastEdit : Type 0 where
  pub op_id : ℕ
  pub ts : ℕ
  pub author : ℕ
  pub blocks : Bytes

abbrev pub history_row : Bytes → Bytes → ℕ → Option Bytes → LastEdit → ℕ → InterpDoc
history_row interp_key snapshot snapshot_rev prior edit now =
    record (saved_row interp_key snapshot snapshot_rev now) {
      prior_snapshot = prior;
      last_edit_op_id = some edit.op_id;
      last_edit_ts = some edit.ts;
      last_edit_author = some edit.author;
      last_edit_blocks = some edit.blocks;
    }

-- Every column but the key is overwritten.
abbrev pub history_over : InterpDoc → InterpDoc → InterpDoc
history_over row old = record row { interp_key = old.interp_key }

unfoldable pub doc_save_with_history : Db → Bytes → Bytes → ℕ → Option Bytes → LastEdit → ℕ → Db
unfolding upsert
doc_save_with_history db interp_key snapshot snapshot_rev prior edit now =
    let row = history_row interp_key snapshot snapshot_rev prior edit now in
    record db {
      interp_docs =
          (upsert (λ a b. doc_key a == doc_key b) (λ old. some (history_over row old)) row
            db.interp_docs).0;
    }

pub record DocMeta : Type 0 where
  pub prior_snapshot : Option Bytes
  pub last_edit_op_id : Option ℕ
  pub last_edit_ts : Option ℕ
  pub last_edit_author : Option ℕ
  pub last_edit_blocks : Option Bytes

abbrev pub to_meta : InterpDoc → DocMeta
to_meta d = record {
  prior_snapshot = d.prior_snapshot;
  last_edit_op_id = d.last_edit_op_id;
  last_edit_ts = d.last_edit_ts;
  last_edit_author = d.last_edit_author;
  last_edit_blocks = d.last_edit_blocks;
}

unfoldable pub doc_load_meta : Db → Bytes → Option DocMeta
doc_load_meta db interp_key = elim (at_key doc_key interp_key db.interp_docs) [
  | none ↦ none
  | some d ↦ some (to_meta d)
]

abbrev pub of_block : Bytes → ℕ → BlockAuthor → Bool
of_block interp_key block_id r = r.interp_key == interp_key && r.block_id == block_id

-- SELECT MAX(position)
unfoldable pub max_position : List BlockAuthor → Option ℕ
max_position [] = none
max_position (r ∷ rs) = elim (max_position rs) [
  | none ↦ some r.position
  | some p ↦ (if ltb p r.position then some r.position else some p)
]

-- Pop the newest ring entry of a block.
unfoldable pub pop_ring : List BlockAuthor → Bytes → ℕ → List BlockAuthor
unfolding delete
pop_ring t interp_key block_id = elim (max_position (select (of_block interp_key block_id) t)) [
  | none ↦ t
  | some p ↦ (delete (λ r. of_block interp_key block_id r && r.position == p) t).0
]

unfoldable pub pop_rings : List BlockAuthor → Bytes → List ℕ → List BlockAuthor
unfolding pop_ring
pop_rings t interp_key [] = t
pop_rings t interp_key (b ∷ bs) = pop_rings (pop_ring t interp_key b) interp_key bs

abbrev pub restored : Bytes → ℕ → ℕ → InterpDoc → InterpDoc
restored snapshot snapshot_rev now d = record d {
  loro_snapshot = snapshot;
  snapshot_rev = snapshot_rev;
  updated_at = now;
  prior_snapshot = none;
  last_edit_op_id = none;
  last_edit_ts = none;
  last_edit_author = none;
  last_edit_blocks = none;
}

abbrev pub prior_of : Option InterpDoc → Option Bytes
prior_of none = none
prior_of (some d) = d.prior_snapshot

unfoldable pub doc_rollback : Db → Bytes → ℕ → List ℕ → ℕ → Db × Bool
unfolding update pop_rings
doc_rollback db interp_key snapshot_rev affected_blocks now =
    elim (prior_of (at_key doc_key interp_key db.interp_docs)) [
      | none ↦ (db, false)
      | some prior ↦ (
        record db {
          interp_docs =
              (update (λ d. doc_key d == interp_key) (restored prior snapshot_rev now)
                db.interp_docs).0;
          doc_block_authors = pop_rings db.doc_block_authors interp_key affected_blocks;
        },
        true,
      )
    ]

unfoldable pub doc_has_contributor : Db → Bytes → ℕ → Bool
doc_has_contributor db interp_key author_pk =
    any (λ r. r.interp_key == interp_key && r.author_pk == author_pk) db.doc_block_authors

-- An entry of `block_ring_get`: author, operation, time, and whether a model drafted it.
pub record BlockEntry : Type 0 where
  pub author : ℕ
  pub edit_op_id : ℕ
  pub edited_at : ℕ
  pub ai_generated : Bool

abbrev pub to_block_entry : BlockAuthor → BlockEntry
to_block_entry r = record {
  author = r.author_pk;
  edit_op_id = r.edit_op_id;
  edited_at = r.edited_at;
  ai_generated = r.ai_generated;
}

abbrev pub by_position : BlockAuthor → BlockAuthor → Bool
by_position a b = leb a.position b.position

unfoldable pub ring_of : List BlockAuthor → Bytes → ℕ → List BlockEntry
ring_of t interp_key block_id =
    map to_block_entry (order_by by_position (select (of_block interp_key block_id) t))

unfoldable pub block_ring_get : Db → Bytes → ℕ → List BlockEntry
unfolding ring_of
block_ring_get db interp_key block_id = ring_of db.doc_block_authors interp_key block_id

-- The entries with their positions from `n` on.
unfoldable pub numbered : Bytes → ℕ → ℕ → List BlockEntry → List BlockAuthor
numbered interp_key block_id n [] = []
numbered interp_key block_id n (e ∷ es) =
    record {
      interp_key = interp_key;
      block_id = block_id;
      position = n;
      author_pk = e.author;
      edit_op_id = e.edit_op_id;
      edited_at = e.edited_at;
      ai_generated = e.ai_generated;
    }
    ∷ numbered interp_key block_id (suc n) es

-- The plain INSERTs cannot clash: the block's rows have just been deleted.
unfoldable pub push_ring : List BlockAuthor → Bytes → ℕ → BlockEntry → List BlockAuthor
unfolding evict delete ring_of numbered
push_ring t interp_key block_id entry =
    let entries = evict (ring_of t interp_key block_id ++ entry ∷ []) in
    (delete (of_block interp_key block_id) t).0 ++ numbered interp_key block_id 0 entries

unfoldable pub block_ring_push : Db → Bytes → ℕ → BlockEntry → Db
unfolding push_ring
block_ring_push db interp_key block_id entry = record db {
  doc_block_authors = push_ring db.doc_block_authors interp_key block_id entry;
}

unfoldable pub doc_has_ai_generated_content : Db → Bytes → Bool
doc_has_ai_generated_content db interp_key =
    any (λ r. r.interp_key == interp_key && r.ai_generated) db.doc_block_authors

-- PRIMARY KEY (interp_key, target_rev, voter_pk)
abbrev pub is_vote : Bytes → ℕ → ℕ → DocAffirm → Bool
is_vote interp_key target_rev voter_pk r =
    r.interp_key == interp_key && (r.target_rev == target_rev && r.voter_pk == voter_pk)

abbrev pub same_vote : DocAffirm → DocAffirm → Bool
same_vote a b = is_vote b.interp_key b.target_rev b.voter_pk a

abbrev pub vote_row : Bytes → ℕ → ℕ → ℕ → DocAffirm
vote_row interp_key target_rev voter_pk now = record {
  interp_key = interp_key;
  target_rev = target_rev;
  voter_pk = voter_pk;
  affirmed_at = now;
}

unfoldable pub doc_affirm_rev : Db → Bytes → ℕ → ℕ → ℕ → Db × Bool
unfolding insert_or_ignore
doc_affirm_rev db interp_key target_rev voter_pk now =
    let (t, affected) =
      insert_or_ignore same_vote (vote_row interp_key target_rev voter_pk now) db.doc_affirms in
    (record db { doc_affirms = t }, ltb 0 affected)

unfoldable pub doc_retract_affirm : Db → Bytes → ℕ → ℕ → Db × Bool
unfolding delete
doc_retract_affirm db interp_key target_rev voter_pk =
    let (t, affected) = delete (is_vote interp_key target_rev voter_pk) db.doc_affirms in
    (record db { doc_affirms = t }, ltb 0 affected)

unfoldable pub doc_has_affirmed : Db → Bytes → ℕ → ℕ → Bool
doc_has_affirmed db interp_key target_rev voter_pk =
    any (is_vote interp_key target_rev voter_pk) db.doc_affirms

unfoldable pub doc_affirm_count : Db → Bytes → ℕ → ℕ
unfolding count
doc_affirm_count db interp_key target_rev =
    count (λ r. r.interp_key == interp_key && r.target_rev == target_rev) db.doc_affirms
