-- ===== src/Doc/LocalEdits.antt =====
-- doc/src/lib.rs: the local edits of an `InterpDoc`.
use zodia.Prelude.{◌≡◌, ℕ, Option, none, some, List, [], ◌∷◌, Bytes, ltb, if◌then◌else◌}
use zodia.Doc.Document.{Crdt, InterpDoc, body_block_id, current_rev}

-- What local edits take from loro: the text of a document under `BODY_KEY`, and its commits.
pub record TextCrdt (D : Type 0) : Type 0 where
  -- the text itself
  pub get_text : D → Bytes
  pub len_unicode : D → ℕ
  pub delete : D → ℕ → ℕ → Option D
  pub insert : D → ℕ → Bytes → Option D
  pub commit : D → D
  -- `export(ExportMode::all_updates())`
  pub export_updates : D → Option Bytes

-- What loro documents: a new document has no text, a text inserted into none is the text, commits
-- and exports succeed, and a snapshot is imported with the text that it was taken of.
pub record IsTextCrdt {D : Type 0} (loro : Crdt D) (text : TextCrdt D) : Type 0 where
  pub new_empty : (peer : ℕ) → text.len_unicode (loro.set_peer_id loro.new_doc peer) ≡ 0
  pub inserted :
      (d : D) (new : Bytes)
      → text.len_unicode d ≡ 0
      → (d' : D) × ((text.insert d 0 new ≡ some d') × (text.get_text d' ≡ new))
  pub updates : (d : D) → (update : Bytes) × (text.export_updates (text.commit d) ≡ some update)
  pub restored :
      (d : D) (peer : ℕ)
      → (bytes : Bytes) × ((loro.export_snapshot (text.commit d) ≡ some bytes)
          × ((e : D) × ((loro.import_bytes (loro.set_peer_id loro.new_doc peer) bytes ≡ some e)
                × (text.get_text e ≡ text.get_text d))))

pub record Edit : Type 0 where
  pub update_bytes : Bytes
  pub affected_blocks : List ℕ
  pub rev : ℕ

module _ {D : Type 0} (loro : Crdt D) (text : TextCrdt D) where
  abbrev pub cleared : D → Option D
  cleared d = if ltb 0 (text.len_unicode d) then text.delete d 0 (text.len_unicode d) else some d

  abbrev pub written : D → Bytes → Option D
  written d [] = some d
  written d (x ∷ xs) = text.insert d 0 (x ∷ xs)

  unfoldable pub body_text : InterpDoc D → Bytes
  body_text doc = text.get_text doc.inner

  -- The document with the new body; an error leaves one that the callers drop.
  unfoldable pub set_body : InterpDoc D → Bytes → Option (InterpDoc D)
  set_body doc new = elim (cleared doc.inner) [
    | none ↦ none
    | some d ↦ elim (written d new) [ none ↦ none | some d' ↦ some (record doc { inner = d' }) ]
  ]

  unfoldable pub publish_local : InterpDoc D → Option (InterpDoc D × Edit)
  unfolding current_rev
  publish_local doc =
      let committed = record doc { inner = text.commit doc.inner } in
      elim (text.export_updates committed.inner) [
        | none ↦ none
        | some update ↦ some (
          committed,
          record {
            update_bytes = update;
            affected_blocks = body_block_id ∷ [];
            rev = current_rev loro committed;
          },
        )
      ]
