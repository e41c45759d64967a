-- ===== src/App/Migration/Texts.antt =====
-- What the migrated documents say, and what a second migration finds to do.
use mathlib.Core.Path.{subst}
use zodia.Prelude.{
  ℕ, ◌≡◌, ◌≢◌, ◌⊎◌, inl, inr, refl, sym, ap, ◌∙◌, Bool, true, false, none, some, List, [], ◌∷◌,
  ◌++◌, Bytes, any, ◌==◌, bytes_instance, if◌then◌else◌, map, codes,
}
use zodia.Core.Interp.{to_sig, parse_interp_sig}
use zodia.Store.{Db}
use zodia.Store.Docs.{doc_load}
use zodia.Store.Feed.{collab_doc_migration_done, mark_collab_doc_migration_done}
use zodia.Store.Interps.Queries.{distinct_interp_keys, authored_rows_for_key}
use zodia.Store.Seed.{BaselineStore, lookup}
use zodia.Doc.Document.{Crdt, InterpDoc, empty, from_snapshot, snapshot, current_rev, peer_id_from}
use zodia.Doc.LocalEdits.{TextCrdt, IsTextCrdt, body_text, set_body, publish_local}
use zodia.App.Migration.{
  Row, add_rows, seed_text, new_document, migrate_keys, migrate_interps_to_docs,
}
use zodia.App.Migration.Rows.{
  texts_on, has_rows, authored_rows_for_key-texts_on, any-distinct_interp_keys,
}
use zodia.App.Migration.Documents.{made, snapshot_of, migrate_keys_lem, mark-done, mark-doc_load}

-- The texts from the first that is not empty on.
unfoldable pub from_first : List Bytes → List Bytes
from_first [] = []
from_first ([] ∷ texts) = from_first texts
from_first ((x ∷ xs) ∷ texts) = (x ∷ xs) ∷ texts

-- The texts with a blank line between each two.
unfoldable pub paragraphs : List Bytes → Bytes
paragraphs [] = []
paragraphs (t ∷ []) = t
paragraphs (t ∷ u ∷ texts) = t ++ (codes "\n\n" ++ paragraphs (u ∷ texts))

-- The baseline text of a key, and nothing where the key's string is not one or has no text.
unfoldable pub baseline_text : BaselineStore → Bytes → Bytes
baseline_text baseline key = elim (parse_interp_sig key) [
  | none ↦ []
  | some k ↦ elim (baseline.map (to_sig k)) [ none ↦ [] | some t ↦ t ]
]

-- The baseline text and then the texts on the key.
unfoldable pub key_text : BaselineStore → Db → Bytes → Bytes
unfolding from_first paragraphs baseline_text
key_text baseline db key = paragraphs (from_first (baseline_text baseline key ∷ texts_on db key))

append_assoc : (a b d : Bytes) → (a ++ b) ++ d ≡ a ++ (b ++ d)
append_assoc [] b d = refl
append_assoc (x ∷ a) b d = ap (λ ys. x ∷ ys) (append_assoc a b d)

paragraphs-glued :
    (a t : Bytes) (texts : List Bytes)
    → paragraphs ((a ++ (10 ∷ 10 ∷ t)) ∷ texts) ≡ a ++ (10 ∷ 10 ∷ paragraphs (t ∷ texts))
unfolding paragraphs
paragraphs-glued a t [] = refl
paragraphs-glued a t (u ∷ texts) = append_assoc a (10 ∷ 10 ∷ t) (10 ∷ 10 ∷ paragraphs (u ∷ texts))

add_rows-paragraphs :
    (body : Bytes) (rows : List Row)
    → add_rows body rows ≡ paragraphs (from_first (body ∷ map (λ r. r.0) rows))
unfolding paragraphs from_first
add_rows-paragraphs [] [] = refl
add_rows-paragraphs [] ((t, by) ∷ rows) = add_rows-paragraphs t rows
add_rows-paragraphs (x ∷ body) [] = refl
add_rows-paragraphs (x ∷ body) ((t, by) ∷ rows) =
    add_rows-paragraphs ((x ∷ body) ++ (10 ∷ 10 ∷ t)) rows
    ∙ paragraphs-glued (x ∷ body) t (map (λ r. r.0) rows)

module _ {D : Type 0} (loro : Crdt D) (text : TextCrdt D) (baseline : BaselineStore) (me : ℕ) where
  -- The bytes restore a document with the text.
  abbrev pub Says : Bytes → Bytes → Type 0
  Says bytes t =
      (doc : InterpDoc D) × ((from_snapshot loro me bytes ≡ some doc)
        × (body_text loro text doc ≡ t))

  made-key_text :
      (db : Db) (key : Bytes)
      → made loro text baseline me db key
        ≡ new_document loro text baseline me (key_text baseline db key)
  unfolding key_text baseline_text seed_text lookup
  made-key_text db key = ap (new_document loro text baseline me) (
      add_rows-paragraphs (seed_text baseline key) (authored_rows_for_key db key)
      ∙ ap (λ ts. paragraphs (from_first (baseline_text baseline key ∷ ts)))
          (authored_rows_for_key-texts_on db key))

  new_document-Says :
      (law : IsTextCrdt loro text) (x : ℕ) (body : Bytes)
      → (bytes : Bytes) × (rev : ℕ) × ((new_document loro text baseline me (x ∷ body)
            ≡ some (bytes, rev))
          × Says bytes (x ∷ body))
  unfolding new_document set_body publish_local snapshot empty from_snapshot body_text
  new_document-Says law x body =
      let peer = peer_id_from me in
      let clear = law.new_empty peer in
      let (d, (ins, says)) = law.inserted (loro.set_peer_id loro.new_doc peer) (x ∷ body) clear in
      let (update, ups) = law.updates d in
      let (bytes, (snap, (e, (imported, same)))) = law.restored d peer in
      (
        bytes,
        current_rev loro (record { inner = text.commit d; local_peer = peer }),
        (
          rw (new_document, set_body, clear, ins, publish_local, ups, snapshot, snap) refl,
          (
            record { inner = e; local_peer = peer },
            (rw (from_snapshot, imported) refl, same ∙ says),
          ),
        ),
      )

  -- What the migration makes of the document of a key.
  abbrev pub IsMigrated : Db → Db → Bytes → Type 0
  unfolding key_text
  IsMigrated db db' j =
      ((has_rows db j ≡ true)
        × ((key_text baseline db j ≢ [])
            × ((bytes : Bytes) × ((doc_load db' j ≡ some bytes)
                  × Says bytes (key_text baseline db j)))))
      ⊎ (((has_rows db j ≡ false) ⊎ (key_text baseline db j ≡ []))
          × (doc_load db' j ≡ doc_load db j))

  made-IsMigrated :
      (law : IsTextCrdt loro text) (db db' : Db) (j : Bytes) (b : Bool) (is_b : has_rows db j ≡ b)
      (t : Bytes) (is_t : key_text baseline db j ≡ t)
      → doc_load db' j ≡ (
          if b
          then snapshot_of loro text baseline me
              (new_document loro text baseline me t)
              (doc_load db j)
          else doc_load db j)
      → IsMigrated db db' j
  unfolding new_document IsMigrated
  made-IsMigrated law db db' j false is_b t is_t h = inr (inl is_b, h)
  made-IsMigrated law db db' j true is_b [] is_t h = inr (inr is_t, h)
  made-IsMigrated law db db' j true is_b (x ∷ body) is_t h =
      let (bytes, rev, (new, says)) = new_document-Says law x body in
      inl (
        is_b,
        (
          λ e. cc,
          (
            bytes,
            (
              h ∙ ap (λ o. snapshot_of loro text baseline me o (doc_load db j)) new,
              subst (λ t. Says bytes t) (sym is_t) says,
            ),
          ),
        ),
      )

  -- Let loro keep the laws of `IsTextCrdt`, let the migration not be done before, and let
  -- ed25519-dalek accept the application's key. After `migrate_interps_to_docs`, each key with a row
  -- that is neither a baseline text nor revoked, and with a text, has a snapshot that restores a
  -- document whose body is that text: the baseline text of the key and then the bodies of its rows
  -- with an author that are neither baseline texts nor revoked nor answers, the oldest first, those
  -- at the front that are empty left out, with a blank line between each two. The snapshot of every
  -- other key is the one from before, or still none. A second migration, at any time, changes
  -- nothing.
  pub migrate_interps_to_docs_lem :
      (law : IsTextCrdt loro text) (db : Db) (now later : ℕ) (j : Bytes)
      → collab_doc_migration_done db ≡ false
      → loro.is_key me ≡ true
      → IsMigrated db (migrate_interps_to_docs loro text baseline me db now) j
        × (migrate_interps_to_docs loro text baseline me
              (migrate_interps_to_docs loro text baseline me db now)
              later
            ≡ migrate_interps_to_docs loro text baseline me db now)
  unfolding migrate_interps_to_docs
  migrate_interps_to_docs_lem law db now later j new key =
      let keys = distinct_interp_keys db in
      let all = migrate_keys loro text baseline me db keys now in
      let is : migrate_interps_to_docs loro text baseline me db now
          ≡ mark_collab_doc_migration_done all =
        rw (migrate_interps_to_docs, new, key) refl in
      (
        made-IsMigrated law db _ j (any (λ k. k == j) keys) (sym (any-distinct_interp_keys db j))
            (key_text baseline db j) refl
            (ap (λ d. doc_load d j) is
              ∙ mark-doc_load all j
              ∙ (migrate_keys_lem loro text baseline me keys db now j).0
              ∙ ap
                  (λ o.
                    if any (λ k. k == j) keys
                    then snapshot_of loro text baseline me o (doc_load db j)
                    else doc_load db j)
                  (made-key_text db j)),
        ap (λ d. migrate_interps_to_docs loro text baseline me d later) is
            ∙ rw (migrate_interps_to_docs, mark-done all) refl
            ∙ sym is,
      )
