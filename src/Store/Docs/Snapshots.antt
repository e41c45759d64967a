-- ===== src/Store/Docs/Snapshots.antt =====
-- The documents' snapshots in `interp_docs`: what a save, a save with history and a rollback leave.
use zodia.Prelude.{
  ℕ, ◌<◌, ◌≡◌, refl, ap, ◌∙◌, inl, inr, Bool, true, false, Option, none, some, List, [], ◌∷◌, Bytes,
  if◌then◌else◌, ◌==◌, nat_eq, bytes_instance, eq_refl, Option-cases, arith, length,
}
use zodia.Sql.{update}
use zodia.Sql.Insert.{at_key, at_key-upsert_always, overwritten, at_key-update, assigned}
use zodia.Store.{InterpDoc, Db}
use zodia.Store.Docs.{
  saved_row, saved_over, history_over, doc_key, doc_load, doc_save, doc_save_with_history, LastEdit,
  history_row, DocMeta, doc_load_meta, to_meta, doc_rollback, restored, prior_of, BlockEntry,
  block_ring_get, block_ring_push, pop_rings,
}
use zodia.Store.Docs.Rings.{pop_ring-push_ring}

abbrev pub doc_at : Db → Bytes → Option InterpDoc
doc_at db k = at_key doc_key k db.interp_docs

-- The metadata of a document that no edit can be rolled back on.
abbrev pub no_history : DocMeta
no_history = record {
  prior_snapshot = none;
  last_edit_op_id = none;
  last_edit_ts = none;
  last_edit_author = none;
  last_edit_blocks = none;
}

-- The metadata that a save with history leaves.
abbrev pub history : Option Bytes → LastEdit → DocMeta
history prior edit = record {
  prior_snapshot = prior;
  last_edit_op_id = some edit.op_id;
  last_edit_ts = some edit.ts;
  last_edit_author = some edit.author;
  last_edit_blocks = some edit.blocks;
}

doc_at-doc_save :
    (db : Db) (k snapshot : Bytes) (rev now : ℕ) (j : Bytes)
    → doc_at (doc_save db k snapshot rev now) j ≡ (
        if k == j
        then some (
            overwritten doc_key
              (saved_over snapshot rev now)
              (saved_row k snapshot rev now)
              (doc_at db j))
        else doc_at db j)
unfolding doc_save
doc_at-doc_save db k snapshot rev now j =
    at_key-upsert_always doc_key (saved_over snapshot rev now) (λ r. refl)
      (saved_row k snapshot rev now) j db.interp_docs

doc_at-doc_save_with_history :
    (db : Db) (k snapshot : Bytes) (rev : ℕ) (prior : Option Bytes) (edit : LastEdit) (now : ℕ)
    (j : Bytes)
    → doc_at (doc_save_with_history db k snapshot rev prior edit now) j ≡ (
        if k == j
        then some (
            overwritten doc_key
              (history_over (history_row k snapshot rev prior edit now))
              (history_row k snapshot rev prior edit now)
              (doc_at db j))
        else doc_at db j)
unfolding doc_save_with_history
doc_at-doc_save_with_history db k snapshot rev prior edit now j =
    let row = history_row k snapshot rev prior edit now in
    at_key-upsert_always doc_key (history_over row) (λ r. refl) row j db.interp_docs

-- A plain save stores the snapshot at its key, keeps the rollback metadata of a document that is
-- there already and gives a new one none, and touches no other document.
pub doc_save_lem :
    (db : Db) (k snapshot : Bytes) (rev now : ℕ) (j : Bytes)
    → (doc_load (doc_save db k snapshot rev now) j
        ≡ (if k == j then some snapshot else doc_load db j))
      × (doc_load_meta (doc_save db k snapshot rev now) j ≡ (
          if k == j
          then elim (doc_load_meta db j) [ none ↦ some no_history | some m ↦ some m ]
          else doc_load_meta db j))
unfolding doc_load doc_load_meta
doc_save_lem db k snapshot rev now j =
    let at = doc_at-doc_save db k snapshot rev now j in
    elim (Option-cases (doc_at db j)) [
      | inl e ↦ (ground (arith, at, e), ground (arith, at, e))
      | inr (d, e) ↦ (ground (arith, at, e), ground (arith, at, e))
    ]

-- A save with history stores the snapshot and all the rollback metadata at its key, whatever was
-- there, and touches no other document.
pub doc_save_with_history_lem :
    (db : Db) (k snapshot : Bytes) (rev : ℕ) (prior : Option Bytes) (edit : LastEdit) (now : ℕ)
    (j : Bytes)
    → (doc_load (doc_save_with_history db k snapshot rev prior edit now) j
        ≡ (if k == j then some snapshot else doc_load db j))
      × (doc_load_meta (doc_save_with_history db k snapshot rev prior edit now) j
          ≡ (if k == j then some (history prior edit) else doc_load_meta db j))
unfolding doc_load doc_load_meta
doc_save_with_history_lem db k snapshot rev prior edit now j =
    let at = doc_at-doc_save_with_history db k snapshot rev prior edit now j in
    elim (Option-cases (doc_at db j)) [
      | inl e ↦ (ground (arith, at, e), ground (arith, at, e))
      | inr (d, e) ↦ (ground (arith, at, e), ground (arith, at, e))
    ]

-- The store after an edit with history of one block.
abbrev pub edited : Db → Bytes → Bytes → ℕ → Option Bytes → LastEdit → ℕ → ℕ → BlockEntry → Db
edited db k snapshot rev prior edit now b entry =
    block_ring_push (doc_save_with_history db k snapshot rev prior edit now) k b entry

-- The store after a rollback that found a prior snapshot.
abbrev pub rolled_back : Db → Bytes → ℕ → List ℕ → ℕ → Bytes → Db
rolled_back db k rev bs now prior = record db {
  interp_docs = (update (λ d. doc_key d == k) (restored prior rev now) db.interp_docs).0;
  doc_block_authors = pop_rings db.doc_block_authors k bs;
}

pub rollback-runs :
    (db : Db) (k : Bytes) (rev : ℕ) (bs : List ℕ) (now : ℕ) (prior : Bytes)
    → prior_of (doc_at db k) ≡ some prior
    → doc_rollback db k rev bs now ≡ (rolled_back db k rev bs now prior, true)
unfolding doc_rollback
rollback-runs db k rev bs now prior h = rw (h, doc_rollback) refl

pub rollback-refused :
    (db : Db) (k : Bytes) (rev : ℕ) (bs : List ℕ) (now : ℕ)
    → prior_of (doc_at db k) ≡ none
    → doc_rollback db k rev bs now ≡ (db, false)
unfolding doc_rollback
rollback-refused db k rev bs now h = rw (h, doc_rollback) refl

module _ (db : Db) (k snapshot : Bytes) (rev : ℕ) (prior : Bytes) (edit : LastEdit) (now b : ℕ)
    (entry : BlockEntry) (back later : ℕ) where
  after : Db
  after = edited db k snapshot rev (some prior) edit now b entry

  has_prior : prior_of (doc_at after k) ≡ some prior
  unfolding after block_ring_push doc_save_with_history
  has_prior = elim (Option-cases (doc_at db k)) [
    | inl e ↦ ground (arith, e, eq_refl k, at k)
    | inr (d, e) ↦ ground (arith, e, eq_refl k, at k)
  ]
    where
      at :
          (j : Bytes)
          → doc_at after j ≡ (
              if k == j
              then some (
                  overwritten doc_key
                    (history_over (history_row k snapshot rev (some prior) edit now))
                    (history_row k snapshot rev (some prior) edit now)
                    (doc_at db j))
              else doc_at db j)
      at j = doc_at-doc_save_with_history db k snapshot rev (some prior) edit now j

  back_at :
      doc_at (rolled_back after k back (b ∷ []) later prior) k
      ≡ assigned doc_key (restored prior back later) (doc_at after k)
  unfolding after
  back_at = at_key-update doc_key (restored prior back later) (λ r. refl) k after.interp_docs

  restored_at :
      (o : Option InterpDoc)
      → prior_of o ≡ some prior
      → (d : InterpDoc) × ((assigned doc_key (restored prior back later) o ≡ some d)
          × ((d.loro_snapshot ≡ prior) × (to_meta d ≡ no_history)))
  restored_at none h = ground (arith, h)
  restored_at (some d) h = (restored prior back later d, (refl, (refl, refl)))

  undone_db : Db
  undone_db = rolled_back after k back (b ∷ []) later prior

  now_at :
      (d : InterpDoc) × ((doc_at undone_db k ≡ some d)
        × ((d.loro_snapshot ≡ prior) × (to_meta d ≡ no_history)))
  unfolding undone_db
  now_at =
      let (d, (at, facts)) = restored_at (doc_at after k) has_prior in (d, (back_at ∙ at, facts))

  undone_load : doc_load undone_db k ≡ some prior
  unfolding doc_load
  undone_load = rw (now_at.1.0, doc_load) (ap some now_at.1.1.0)

  undone_meta : doc_load_meta undone_db k ≡ some no_history
  unfolding doc_load_meta
  undone_meta = rw (now_at.1.0, doc_load_meta) (ap some now_at.1.1.1)

  undone_prior : prior_of (doc_at undone_db k) ≡ none
  undone_prior = rw (now_at.1.0) (ap (λ (m : DocMeta). m.prior_snapshot) now_at.1.1.1)

  undone_rings :
      (j : Bytes) (a : ℕ)
      → length (block_ring_get db k b) < 5
      → block_ring_get undone_db j a ≡ block_ring_get db j a
  unfolding undone_db block_ring_get after block_ring_push doc_save_with_history pop_rings
  undone_rings j a room = pop_ring-push_ring k b db.doc_block_authors entry j a room

  -- A rollback of the edit.
  abbrev pub undone : Db × Bool
  undone =
      doc_rollback (edited db k snapshot rev (some prior) edit now b entry) k back (b ∷ []) later

  undone_is : undone ≡ (undone_db, true)
  unfolding undone_db after
  undone_is = rollback-runs after k back (b ∷ []) later prior has_prior

  -- An edit with history of one block whose ring had room, followed by a rollback of it: the
  -- rollback reports that it ran, the document holds the prior snapshot again and records no edit,
  -- a block of any document has the ring that it had before the edit, and a second rollback
  -- changes nothing and says so.
  pub doc_rollback-edited :
      (j : Bytes) (a : ℕ)
      → length (block_ring_get db k b) < 5
      → (undone.1 ≡ true)
        × ((doc_load undone.0 k ≡ some prior)
            × ((doc_load_meta undone.0 k ≡ some no_history)
                × ((block_ring_get undone.0 j a ≡ block_ring_get db j a)
                    × (doc_rollback undone.0 k back (b ∷ []) later ≡ (undone.0, false)))))
  doc_rollback-edited j a room = rw undone_is (
    refl,
    (
      undone_load,
      (
        undone_meta,
        (undone_rings j a room, rollback-refused undone_db k back (b ∷ []) later undone_prior),
      ),
    ),
  )
