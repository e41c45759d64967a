-- ===== src/App/Migration.antt =====
-- app/src/app.rs: the migration of interpretations to documents (`migrate_interps_to_docs`). One
-- reading of the clock stands for those of all saves.
use zodia.Prelude.{
  ℕ, Bool, false, Option, none, some, List, [], ◌∷◌, ◌++◌, Bytes, bytes_of, codes, if◌then◌else◌,
}
use zodia.Core.Interp.{parse_interp_sig}
use zodia.Store.{Db}
use zodia.Store.Docs.{doc_save, block_ring_push, BlockEntry}
use zodia.Store.Feed.{collab_doc_migration_done, mark_collab_doc_migration_done}
use zodia.Store.Interps.Queries.{distinct_interp_keys, authored_rows_for_key}
use zodia.Store.Seed.{BaselineStore, lookup}
use zodia.Doc.Document.{Crdt, empty, snapshot, body_block_id}
use zodia.Doc.LocalEdits.{TextCrdt, Edit, set_body, publish_local}
pub mod Documents
pub mod Rows
pub mod Texts

-- Text, author and time.
abbrev pub Row : Type 0
Row = Bytes × (ℕ × ℕ)

abbrev pub add_text : Bytes → Bytes → Bytes
add_text [] text = text
add_text (x ∷ body) text = (x ∷ body) ++ (10 ∷ 10 ∷ text)

abbrev pub add_rows : Bytes → List Row → Bytes
add_rows body [] = body
add_rows body ((text, by) ∷ rows) = add_rows (add_text body text) rows

unfoldable pub seed_text : BaselineStore → Bytes → Bytes
unfolding lookup
seed_text baseline key = elim (parse_interp_sig key) [
  | none ↦ []
  | some parsed ↦ elim (lookup baseline parsed) [ none ↦ [] | some base ↦ base ]
]

module _ {D : Type 0} (loro : Crdt D) (text : TextCrdt D) (baseline : BaselineStore) (me : ℕ) where
  -- The snapshot and the revision of a new document with the text, where each step succeeds.
  unfoldable pub new_document : Bytes → Option (Bytes × ℕ)
  unfolding empty set_body publish_local snapshot
  new_document [] = none
  new_document (x ∷ body) = elim (set_body loro text (empty loro me) (x ∷ body)) [
    | none ↦ none
    | some doc ↦ elim (publish_local loro text doc) [
      | none ↦ none
      | some (committed, edit) ↦ elim (snapshot loro committed) [
        | none ↦ none
        | some snap ↦ some (snap, edit.rev)
      ]
    ]
  ]

  abbrev pub migration_entry : Row → BlockEntry
  migration_entry (body, (author, ts)) = record {
    author = author;
    edit_op_id = loro.blake3 (codes "migration-edit" ++ (bytes_of 32 author ++ body));
    edited_at = ts;
    ai_generated = false;
  }

  unfoldable pub attribute : Db → Bytes → List Row → Db
  unfolding block_ring_push
  attribute db key [] = db
  attribute db key (row ∷ rows) =
      attribute (block_ring_push db key body_block_id (migration_entry row)) key rows

  abbrev pub stored_as : Db → Bytes → List Row → ℕ → Option (Bytes × ℕ) → Db
  unfolding doc_save attribute
  stored_as db key rows now none = db
  stored_as db key rows now (some (snap, rev)) = attribute (doc_save db key snap rev now) key rows

  -- The loop's body.
  unfoldable pub migrate_key : Db → Bytes → ℕ → Db
  unfolding seed_text new_document stored_as
  migrate_key db key now =
      let rows = authored_rows_for_key db key in
      stored_as db key rows now (new_document (add_rows (seed_text baseline key) rows))

  unfoldable pub migrate_keys : Db → List Bytes → ℕ → Db
  unfolding migrate_key
  migrate_keys db [] now = db
  migrate_keys db (key ∷ keys) now = migrate_keys (migrate_key db key now) keys now

  unfoldable pub migrate_interps_to_docs : Db → ℕ → Db
  unfolding migrate_keys collab_doc_migration_done mark_collab_doc_migration_done
      distinct_interp_keys
  migrate_interps_to_docs db now =
      if collab_doc_migration_done db
      then db
      else if loro.is_key me
      then mark_collab_doc_migration_done (migrate_keys db (distinct_interp_keys db) now)
      else db
