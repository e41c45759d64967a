-- ===== src/App/Events/Tables.antt =====
-- The calls of the store and of the handler that leave the tables of interpretations and
-- affirmations as they are.
use zodia.Prelude.{
  ℕ, ◌≡◌, refl, ◌∙◌, Bool, true, false, Option, none, some, List, [], ◌∷◌, Bytes, Bool-cases,
  Option-cases, inl, inr, ◌==◌, nat_eq, is_value, bytes_instance,
}
use zodia.Doc.Document.{Crdt, from_snapshot, current_rev}
use zodia.Store.{Db}
use zodia.Sql.Insert.{at_key}
use zodia.Store.Docs.{
  doc_key, doc_load_meta, doc_save_with_history, block_ring_push, BlockEntry, doc_affirm_rev,
  doc_retract_affirm, doc_rollback, DocMeta, prior_of,
}
use zodia.Store.Peers.{set_peer_display_name_if_newer}
use zodia.App.Docs.{
  DocEdit, push_rings, apply_doc_edit, record_edit, apply_doc_veto, veto_meta, veto_edit, roll_back,
  honoured, edit_entry, last_edit, authorised_on, veto_blocks,
}

-- The two tables of interpretations and affirmations are the same.
pub record SameTables (db db' : Db) : Type 0 where
  pub interpretations_same : db'.interpretations ≡ db.interpretations
  pub affirmations_same : db'.affirmations ≡ db.affirmations

abbrev pub unchanged : (db : Db) → SameTables db db
unchanged db = record { interpretations_same = refl; affirmations_same = refl }

pub SameTables-trans : {a b c : Db} → SameTables a b → SameTables b c → SameTables a c
SameTables-trans s t = record {
  interpretations_same = t.interpretations_same ∙ s.interpretations_same;
  affirmations_same = t.affirmations_same ∙ s.affirmations_same;
}

pub push_rings-SameTables :
    (db : Db) (key : Bytes) (blocks : List ℕ) (entry : BlockEntry)
    → SameTables db (push_rings db key blocks entry)
unfolding push_rings block_ring_push
push_rings-SameTables db key [] entry = unchanged db
push_rings-SameTables db key (b ∷ bs) entry =
    SameTables-trans (record { interpretations_same = refl; affirmations_same = refl })
      (push_rings-SameTables (block_ring_push db key b entry) key bs entry)

pub doc_rollback-SameTables :
    (db : Db) (key : Bytes) (rev : ℕ) (blocks : List ℕ) (now : ℕ)
    → SameTables db (doc_rollback db key rev blocks now).0
unfolding doc_rollback
doc_rollback-SameTables db key rev blocks now =
    elim (Option-cases (prior_of (at_key doc_key key db.interp_docs))) [
      | inl e ↦ rw (doc_rollback, e) (unchanged db)
      | inr (prior, e) ↦
          rw (doc_rollback, e) (record { interpretations_same = refl; affirmations_same = refl })
    ]

pub set_peer_display_name_if_newer-SameTables :
    (db : Db) (pk : ℕ) (name : Bytes) (ts : ℕ)
    → SameTables db (set_peer_display_name_if_newer db pk name ts).0
unfolding set_peer_display_name_if_newer
set_peer_display_name_if_newer-SameTables db pk name ts = record {
  interpretations_same = refl;
  affirmations_same = refl;
}

pub doc_affirm_rev-SameTables :
    (db : Db) (key : Bytes) (rev voter now : ℕ)
    → SameTables db (doc_affirm_rev db key rev voter now).0
unfolding doc_affirm_rev
doc_affirm_rev-SameTables db key rev voter now = record {
  interpretations_same = refl;
  affirmations_same = refl;
}

pub doc_retract_affirm-SameTables :
    (db : Db) (key : Bytes) (rev voter : ℕ) → SameTables db (doc_retract_affirm db key rev voter).0
unfolding doc_retract_affirm
doc_retract_affirm-SameTables db key rev voter = record {
  interpretations_same = refl;
  affirmations_same = refl;
}

module _ {D : Type 0} (loro : Crdt D) where
  pub record_edit-SameTables :
      (db : Db) (e : DocEdit) (me now : ℕ) (prior : Option Bytes) (out : Option (Bytes × ℕ))
      → SameTables db (record_edit loro db e me now prior out)
  unfolding record_edit doc_save_with_history
  record_edit-SameTables db e me now prior none = unchanged db
  record_edit-SameTables db e me now prior (some (snapshot, rev)) =
      elim (Bool-cases (e.editor_pk == me)) [
        | inl h ↦ rw h (record { interpretations_same = refl; affirmations_same = refl })
        | inr h ↦ rw h (
            SameTables-trans (record { interpretations_same = refl; affirmations_same = refl })
              (push_rings-SameTables
                (doc_save_with_history db e.interp_key snapshot rev prior (last_edit loro e) now)
                e.interp_key e.affected_blocks (edit_entry loro e now)))
      ]

  pub apply_doc_edit-SameTables :
      (db : Db) (e : DocEdit) (me now : ℕ) → SameTables db (apply_doc_edit loro db e me now)
  unfolding apply_doc_edit
  apply_doc_edit-SameTables db e me now = elim (Bool-cases (loro.is_key e.editor_pk)) [
    | inr h ↦ rw (apply_doc_edit, h) (unchanged db)
    | inl h ↦ rw (apply_doc_edit, h) (record_edit-SameTables db e me now _ _)
  ]

  pub honoured-SameTables :
      (db : Db) (key : Bytes) (author target : ℕ) (r : Db × Bool)
      → SameTables db r.0
      → SameTables db (honoured loro key author target r).0
  honoured-SameTables db key author target (db', true) s = s
  honoured-SameTables db key author target (db', false) s = s

  pub roll_back-SameTables :
      (db : Db) (key : Bytes) (target : ℕ) (blocks : List ℕ) (prior : Option Bytes)
      (by author now : ℕ)
      → SameTables db (roll_back loro db key target blocks prior by author now).0
  unfolding roll_back
  roll_back-SameTables db key target blocks none by author now = unchanged db
  roll_back-SameTables db key target blocks (some prior) by author now =
      elim (Bool-cases (loro.is_key by)) [
        | inr h ↦ rw (roll_back, h) (unchanged db)
        | inl h ↦ elim (Option-cases (from_snapshot loro by prior)) [
          | inl e ↦ rw (roll_back, h, e) (unchanged db)
          | inr (doc, e) ↦
              rw (roll_back, h, e)
                (honoured-SameTables db key author target _
                  (doc_rollback-SameTables db key (current_rev loro doc) blocks now))
        ]
      ]

  pub veto_edit-SameTables :
      (db : Db) (key : Bytes) (meta : DocMeta) (target by edit_ts author now : ℕ)
      → SameTables db (veto_edit loro db key meta target by edit_ts author now).0
  unfolding veto_edit
  veto_edit-SameTables db key meta target by edit_ts author now =
      elim (Bool-cases (authorised_on loro db key (veto_blocks loro meta) by target edit_ts now)) [
        | inr h ↦ rw (veto_edit, h) (unchanged db)
        | inl h ↦ rw (veto_edit, h) (roll_back-SameTables db key target _ _ by author now)
      ]

  pub veto_meta-SameTables :
      (db : Db) (key : Bytes) (o : Option DocMeta) (target by now : ℕ)
      → SameTables db (veto_meta loro db key o target by now).0
  unfolding veto_meta
  veto_meta-SameTables db key none target by now = unchanged db
  veto_meta-SameTables db key (some meta) target by now =
      elim (Bool-cases (is_value meta.last_edit_op_id target)) [
        | inr h ↦ rw (veto_meta, h) (unchanged db)
        | inl h ↦ elim (Option-cases meta.last_edit_ts) [
          | inl e ↦ rw (veto_meta, h, e) (unchanged db)
          | inr (ts, e) ↦ elim (Option-cases meta.last_edit_author) [
            | inl f ↦ rw (veto_meta, h, e, f) (unchanged db)
            | inr (author, f) ↦
                rw (veto_meta, h, e, f) (veto_edit-SameTables db key meta target by ts author now)
          ]
        ]
      ]

  pub apply_doc_veto-SameTables :
      (db : Db) (target by : ℕ) (key : Bytes) (now : ℕ)
      → SameTables db (apply_doc_veto loro db target by (some key) now).0
  unfolding apply_doc_veto
  apply_doc_veto-SameTables db target by key now =
      veto_meta-SameTables db key (doc_load_meta db key) target by now
