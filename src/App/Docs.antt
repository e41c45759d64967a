-- ===== src/App/Docs.antt =====
-- app/src/app.rs: edits of collaborative documents (`apply_doc_edit`) and their vetoes
-- (`apply_doc_veto`).
pub mod Vetoes
pub mod Refusals
use zodia.Prelude.{
  ℕ, Bool, true, false, not, ◌&&◌, ◌||◌, Option, none, some, List, [], ◌∷◌, Bytes, ◌==◌, nat_eq,
  if◌then◌else◌, is_value, any, map,
}
use zodia.App.Blocks.{encode_blocks, decode_blocks}
use zodia.Doc.Document.{Crdt, InterpDoc, empty, from_snapshot, apply_remote, snapshot, current_rev}
use zodia.Doc.{RingEntry, from_entries, veto_authorised}
use zodia.Store.{Db}
use zodia.Store.Docs.{
  doc_load, doc_save_with_history, LastEdit, DocMeta, doc_load_meta, doc_rollback, BlockEntry,
  block_ring_get, block_ring_push,
}

-- A `StateEvent::DocEdited`, as the handler passes it on.
pub record DocEdit : Type 0 where
  pub interp_key : Bytes
  pub update : Bytes
  pub editor_pk : ℕ
  pub edit_op_id : ℕ
  pub edit_ts : ℕ
  pub affected_blocks : List ℕ
  pub ai_generated : Bool

abbrev pub ring_entry : BlockEntry → RingEntry
ring_entry e = record { author = e.author; edit_op_id = e.edit_op_id; edited_at = e.edited_at }

unfoldable pub push_rings : Db → Bytes → List ℕ → BlockEntry → Db
unfolding block_ring_push
push_rings db key [] entry = db
push_rings db key (b ∷ bs) entry = push_rings (block_ring_push db key b entry) key bs entry

module _ {D : Type 0} (loro : Crdt D) where
  unfoldable pub load_or_create : Option Bytes → ℕ → Option (InterpDoc D)
  load_or_create none me = some (empty loro me)
  load_or_create (some bytes) me = from_snapshot loro me bytes

  -- The new snapshot and revision, or nothing where a step of the CRDT fails.
  unfoldable pub edit_document : Option Bytes → ℕ → Bytes → Option (Bytes × ℕ)
  unfolding load_or_create
  edit_document prior me update = elim (load_or_create prior me) [
    | none ↦ none
    | some doc ↦ elim (apply_remote loro doc update) [
      | none ↦ none
      | some (doc', touched) ↦ elim (snapshot loro doc') [
        | none ↦ none
        | some bytes ↦ some (bytes, current_rev loro doc')
      ]
    ]
  ]

  abbrev pub last_edit : DocEdit → LastEdit
  last_edit e = record {
    op_id = e.edit_op_id;
    ts = e.edit_ts;
    author = e.editor_pk;
    blocks = encode_blocks e.affected_blocks;
  }

  abbrev pub edit_entry : DocEdit → ℕ → BlockEntry
  edit_entry e now = record {
    author = e.editor_pk;
    edit_op_id = e.edit_op_id;
    edited_at = now;
    ai_generated = e.ai_generated;
  }

  -- The ring is not pushed for one's own edit.
  unfoldable pub record_edit : Db → DocEdit → ℕ → ℕ → Option Bytes → Option (Bytes × ℕ) → Db
  unfolding doc_save_with_history push_rings
  record_edit db e me now prior none = db
  record_edit db e me now prior (some (snapshot, rev)) =
      let saved = doc_save_with_history db e.interp_key snapshot rev prior (last_edit e) now in
      if e.editor_pk == me
      then saved
      else push_rings saved e.interp_key e.affected_blocks (edit_entry e now)

  -- Every failure is logged and leaves the store. `me` falls back to the editor's key.
  unfoldable pub apply_doc_edit : Db → DocEdit → ℕ → ℕ → Db
  unfolding edit_document record_edit
  apply_doc_edit db e me now =
      if not (loro.is_key e.editor_pk)
      then db
      else record_edit db e me now (doc_load db e.interp_key) (
          edit_document (doc_load db e.interp_key) (if loro.is_key me then me else e.editor_pk)
            e.update)

  -- The revoker is in the ring of one of the blocks, in time, and the edit is the newest there.
  unfoldable pub authorised_on : Db → Bytes → List ℕ → ℕ → ℕ → ℕ → ℕ → Bool
  unfolding block_ring_get
  authorised_on db key blocks by target edit_ts now_ts =
      any
        (λ b.
          veto_authorised (from_entries (map ring_entry (block_ring_get db key b))) by target
            edit_ts now_ts)
        blocks

  abbrev pub honoured : Bytes → ℕ → ℕ → Db × Bool → Db × Option (Bytes × (ℕ × ℕ))
  honoured key author target (db, true) = (db, some (key, (author, target)))
  honoured key author target (db, false) = (db, none)

  -- The steps after the authority check.
  unfoldable pub roll_back :
      Db → Bytes → ℕ → List ℕ → Option Bytes → ℕ → ℕ → ℕ → Db × Option (Bytes × (ℕ × ℕ))
  roll_back db key target blocks none by author now = (db, none)
  roll_back db key target blocks (some prior) by author now =
      if not (loro.is_key by) then (db, none) else elim (from_snapshot loro by prior) [
        | none ↦ (db, none)
        | some restored ↦
            honoured key author target (doc_rollback db key (current_rev loro restored) blocks now)
      ]

  unfoldable pub veto_blocks : DocMeta → List ℕ
  veto_blocks meta = elim meta.last_edit_blocks [
    | none ↦ decode_blocks []
    | some bytes ↦ decode_blocks bytes
  ]

  unfoldable pub veto_edit :
      Db → Bytes → DocMeta → ℕ → ℕ → ℕ → ℕ → ℕ → Db × Option (Bytes × (ℕ × ℕ))
  unfolding roll_back veto_blocks authorised_on
  veto_edit db key meta target by edit_ts edit_author now_ts =
      let blocks = veto_blocks meta in
      if not (authorised_on db key blocks by target edit_ts now_ts)
      then (db, none)
      else roll_back db key target blocks meta.prior_snapshot by edit_author now_ts

  -- The checks of the edit's metadata.
  unfoldable pub veto_meta : Db → Bytes → Option DocMeta → ℕ → ℕ → ℕ → Db × Option (Bytes × (ℕ × ℕ))
  unfolding veto_edit
  veto_meta db key none target by now_ts = (db, none)
  veto_meta db key (some meta) target by now_ts =
      if not (is_value meta.last_edit_op_id target) then (db, none) else elim meta.last_edit_ts [
        | none ↦ (db, none)
        | some edit_ts ↦ elim meta.last_edit_author [
          | none ↦ (db, none)
          | some author ↦ veto_edit db key meta target by edit_ts author now_ts
        ]
      ]

  -- `now_ts` is also the store's clock. Where no block is decoded nothing is authorised, which is
  -- the source's early return.
  unfoldable pub apply_doc_veto : Db → ℕ → ℕ → Option Bytes → ℕ → Db × Option (Bytes × (ℕ × ℕ))
  unfolding veto_meta
  apply_doc_veto db target by none now_ts = (db, none)
  apply_doc_veto db target by (some key) now_ts =
      veto_meta db key (doc_load_meta db key) target by now_ts
