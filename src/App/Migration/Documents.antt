-- ===== src/App/Migration/Documents.antt =====
-- What the migration stores: at each key of the list the document that it makes for it.
use zodia.Prelude.{
  ℕ, ◌≡◌, refl, ap, ◌∙◌, Bool, true, false, ◌||◌, Option, none, some, List, [], ◌∷◌, Bytes, any,
  arith, ◌==◌, bytes_instance, bytes_eq, bytes_eq_iff, if◌then◌else◌, Bool-cases, inl, inr, codes,
}
use zodia.Sql.Insert.{at_key-upsert_always}
use zodia.Store.{Db}
use zodia.Store.Docs.{doc_load, doc_save, block_ring_push}
use zodia.Store.Docs.Snapshots.{doc_save_lem}
use zodia.Store.Feed.{
  meta_key, get_feed_meta, set_feed_meta, collab_doc_migration_done, mark_collab_doc_migration_done,
}
use zodia.Store.Interps.Queries.{authored_rows_for_key}
use zodia.Store.Seed.{BaselineStore}
use zodia.Doc.Document.{Crdt}
use zodia.Doc.LocalEdits.{TextCrdt}
use zodia.App.Migration.{
  Row, add_rows, seed_text, new_document, attribute, stored_as, migrate_key, migrate_keys,
}

pub mark-done : (db : Db) → collab_doc_migration_done (mark_collab_doc_migration_done db) ≡ true
unfolding collab_doc_migration_done mark_collab_doc_migration_done get_feed_meta set_feed_meta
    bytes_eq
mark-done db =
    rw
      (
        collab_doc_migration_done,
        get_feed_meta,
        mark_collab_doc_migration_done,
        set_feed_meta,
        at_key-upsert_always meta_key (λ old. record old { value = codes "1" }) (λ r. refl)
            (record { key = codes "collab_doc_migration_v1"; value = codes "1" })
            (codes "collab_doc_migration_v1") db.feed_meta,
      )
      refl

pub mark-doc_load :
    (db : Db) (j : Bytes) → doc_load (mark_collab_doc_migration_done db) j ≡ doc_load db j
unfolding doc_load mark_collab_doc_migration_done set_feed_meta
mark-doc_load db j = refl

module _ {D : Type 0} (loro : Crdt D) (text : TextCrdt D) (baseline : BaselineStore) (me : ℕ) where
  -- The document that the migration makes for a key.
  abbrev pub made : Db → Bytes → Option (Bytes × ℕ)
  made db key =
      new_document loro text baseline me
        (add_rows (seed_text baseline key) (authored_rows_for_key db key))

  -- The snapshot of a key that was migrated.
  abbrev pub snapshot_of : Option (Bytes × ℕ) → Option Bytes → Option Bytes
  snapshot_of none old = old
  snapshot_of (some (snap, rev)) old = some snap

  both :
      (b c : Bool) (o : Option (Bytes × ℕ)) (x y z : Option Bytes)
      → y ≡ (if b then snapshot_of o x else x)
      → z ≡ (if c then snapshot_of o y else y)
      → z ≡ (if b || c then snapshot_of o x else x)
  both true true none x y z p q = q ∙ p
  both true true (some s) x y z p q = q
  both true false o x y z p q = q ∙ p
  both false true none x y z p q = q ∙ p
  both false true (some s) x y z p q = q
  both false false o x y z p q = q ∙ p

  at_key :
      (db : Db) (key j : Bytes)
      → (if key == j then snapshot_of (made db key) (doc_load db j) else doc_load db j)
        ≡ (if key == j then snapshot_of (made db j) (doc_load db j) else doc_load db j)
  at_key db key j = elim (Bool-cases (key == j)) [
    | inl e ↦ rw e (ap (λ k. snapshot_of (made db k) (doc_load db j)) ((bytes_eq_iff key j).0 e))
    | inr e ↦ rw e refl
  ]

  made-same :
      (db db' : Db) (key : Bytes)
      → db'.interpretations ≡ db.interpretations
      → made db' key ≡ made db key
  unfolding authored_rows_for_key
  made-same db db' key h = λ i. made (record db { interpretations = h i }) key

  attribute-keeps :
      (key : Bytes) (rows : List Row) (db : Db)
      → ((attribute loro text baseline me db key rows).interpretations ≡ db.interpretations)
        × ((attribute loro text baseline me db key rows).interp_docs ≡ db.interp_docs)
  unfolding attribute block_ring_push
  attribute-keeps key [] db = (refl, refl)
  attribute-keeps key (row ∷ rows) db = attribute-keeps key rows _

  attribute-doc_load :
      (db : Db) (key : Bytes) (rows : List Row) (j : Bytes)
      → doc_load (attribute loro text baseline me db key rows) j ≡ doc_load db j
  unfolding doc_load
  attribute-doc_load db key rows j =
      λ i. doc_load (record db { interp_docs = (attribute-keeps key rows db).1 i }) j

  stored_as_lem :
      (db : Db) (key : Bytes) (rows : List Row) (now : ℕ) (o : Option (Bytes × ℕ)) (j : Bytes)
      → (doc_load (stored_as loro text baseline me db key rows now o) j
          ≡ (if key == j then snapshot_of o (doc_load db j) else doc_load db j))
        × ((stored_as loro text baseline me db key rows now o).interpretations ≡ db.interpretations)
  unfolding stored_as doc_save
  stored_as_lem db key rows now none j = (ground arith, refl)
  stored_as_lem db key rows now (some (snap, rev)) j = (
    attribute-doc_load (doc_save db key snap rev now) key rows j
        ∙ (doc_save_lem db key snap rev now j).0,
    (attribute-keeps key rows (doc_save db key snap rev now)).0,
  )

  -- What the loop's body leaves at each key.
  migrate_key_lem :
      (db : Db) (key : Bytes) (now : ℕ) (j : Bytes)
      → (doc_load (migrate_key loro text baseline me db key now) j
          ≡ (if key == j then snapshot_of (made db key) (doc_load db j) else doc_load db j))
        × ((migrate_key loro text baseline me db key now).interpretations ≡ db.interpretations)
  unfolding migrate_key
  migrate_key_lem db key now j =
      stored_as_lem db key (authored_rows_for_key db key) now (made db key) j

  -- The documents after the loop: at a key of the list the one that was made, where one was.
  pub migrate_keys_lem :
      (keys : List Bytes) (db : Db) (now : ℕ) (j : Bytes)
      → (doc_load (migrate_keys loro text baseline me db keys now) j ≡ (
          if any (λ k. k == j) keys
          then snapshot_of (made db j) (doc_load db j)
          else doc_load db j))
        × ((migrate_keys loro text baseline me db keys now).interpretations ≡ db.interpretations)
  unfolding migrate_keys
  migrate_keys_lem [] db now j = (refl, refl)
  migrate_keys_lem (key ∷ keys) db now j =
      let next = migrate_key loro text baseline me db key now in
      let (here, kept) = migrate_key_lem db key now j in
      let (there, kept_there) = migrate_keys_lem keys next now j in
      (
        both (key == j) (any (λ k. k == j) keys) (made db j) (doc_load db j) (doc_load next j)
            (doc_load (migrate_keys loro text baseline me next keys now) j) (here ∙ at_key db key j)
            (there
              ∙ ap
                  (λ o.
                    if any (λ k. k == j) keys
                    then snapshot_of o (doc_load next j)
                    else doc_load next j)
                  (made-same db next j kept)),
        kept_there ∙ kept,
      )
