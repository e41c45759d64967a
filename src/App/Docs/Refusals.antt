-- ===== src/App/Docs/Refusals.antt =====
-- Vetoes that are not honoured.
use zodia.Prelude.{
  ℕ, ◌≡◌, refl, inl, inr, false, Option, none, some, List, [], ◌∷◌, Bytes, All, arith, map, last?,
  length, ltb, ◌==◌, nat_eq, eq_iff, eq_refl, is_value, Bool-cases, Option-cases,
}
use zodia.Sql.Rows.{All-select}
use zodia.Sql.Order.{All-order_by}
use zodia.Doc.{RingEntry, evict, from_entries, newest, veto_authorised}
use zodia.Doc.Ring.{veto_authorised-newest}
use zodia.Store.{Db, BlockAuthor}
use zodia.Store.Docs.{
  doc_load_meta, doc_save_with_history, block_ring_get, ring_of, of_block, by_position,
  to_block_entry, DocMeta, prior_of,
}
use zodia.Store.Docs.Snapshots.{doc_at, rollback-refused, rollback-runs}
use zodia.Doc.Document.{Crdt, from_snapshot, current_rev}
use zodia.App.Docs.{
  DocEdit, ring_entry, record_edit, apply_doc_edit, authorised_on, roll_back, veto_blocks,
  veto_edit, veto_meta, apply_doc_veto,
}

-- A refused veto leaves the store as it was.
abbrev Refuses : Db → Db × Option (Bytes × (ℕ × ℕ)) → Type 0
Refuses db r = r.1 ≡ none → r.0 ≡ db

module _ {D : Type 0} (loro : Crdt D) where
  roll_back-Refuses :
      (db : Db) (key : Bytes) (target : ℕ) (blocks : List ℕ) (prior : Option Bytes)
      (by author now : ℕ)
      → Refuses db (roll_back loro db key target blocks prior by author now)
  unfolding roll_back
  roll_back-Refuses db key target blocks none by author now = λ h. refl
  roll_back-Refuses db key target blocks (some prior) by author now =
      elim (Bool-cases (loro.is_key by)) [
        | inr e ↦ rw e (λ h. refl)
        | inl e ↦ elim (Option-cases (from_snapshot loro by prior)) [
          | inl f ↦ rw (e, f, roll_back) (λ h. refl)
          | inr (restored, f) ↦ elim (Option-cases (prior_of (doc_at db key))) [
            | inl g ↦
                rw
                  (
                    e,
                    f,
                    roll_back,
                    rollback-refused db key (current_rev loro restored) blocks now g,
                  )
                  (λ h. refl)
            | inr (p, g) ↦
                rw
                  (e, f, roll_back, rollback-runs db key (current_rev loro restored) blocks now p g)
                  (λ h. cc)
          ]
        ]
      ]

  veto_edit-Refuses :
      (db : Db) (key : Bytes) (meta : DocMeta) (target by edit_ts author now : ℕ)
      → Refuses db (veto_edit loro db key meta target by edit_ts author now)
  unfolding veto_edit
  veto_edit-Refuses db key meta target by edit_ts author now =
      elim (Bool-cases (authorised_on loro db key (veto_blocks loro meta) by target edit_ts now)) [
        | inr e ↦ rw e (λ h. refl)
        | inl e ↦ rw e (
            roll_back-Refuses db key target (veto_blocks loro meta) meta.prior_snapshot by author
              now)
      ]

  veto_meta-Refuses :
      (db : Db) (key : Bytes) (meta : Option DocMeta) (target by now : ℕ)
      → Refuses db (veto_meta loro db key meta target by now)
  unfolding veto_meta
  veto_meta-Refuses db key none target by now = λ h. refl
  veto_meta-Refuses db key (some meta) target by now =
      elim (Bool-cases (is_value meta.last_edit_op_id target)) [
        | inr e ↦ rw e (λ h. refl)
        | inl e ↦ elim (Option-cases meta.last_edit_ts) [
          | inl f ↦ rw (e, f, veto_meta) (λ h. refl)
          | inr (ts, f) ↦ elim (Option-cases meta.last_edit_author) [
            | inl g ↦ rw (e, f, g, veto_meta) (λ h. refl)
            | inr (author, g) ↦
                rw (e, f, g, veto_meta) (veto_edit-Refuses db key meta target by ts author now)
          ]
        ]
      ]

  -- A veto that is not honoured leaves the store as it was, for whichever of its reasons.
  pub apply_doc_veto-refused :
      (db : Db) (target by : ℕ) (hint : Option Bytes) (now : ℕ)
      → (apply_doc_veto loro db target by hint now).1 ≡ none
      → (apply_doc_veto loro db target by hint now).0 ≡ db
  unfolding apply_doc_veto
  apply_doc_veto-refused db target by none now = λ h. refl
  apply_doc_veto-refused db target by (some key) now =
      veto_meta-Refuses db key (doc_load_meta db key) target by now

-- No entry of the ring carries the operation.
abbrev Lacks : ℕ → RingEntry → Type 0
Lacks op e = (e.edit_op_id == op) ≡ false

newest-Lacks :
    (op : ℕ) (rs : List RingEntry) (e : RingEntry)
    → All (Lacks op) rs
    → last? rs ≡ some e
    → (e.edit_op_id == op) ≡ false
newest-Lacks op [] e h n = cc
newest-Lacks op (r ∷ []) e h n = ground (arith, h.0, n)
newest-Lacks op (r ∷ s ∷ rs) e h n = newest-Lacks op (s ∷ rs) e h.1 n

evict-Lacks : (op : ℕ) (rs : List RingEntry) → All (Lacks op) rs → All (Lacks op) (evict rs)
unfolding evict
evict-Lacks op [] h = tt
evict-Lacks op (r ∷ rs) h = elim (Bool-cases (ltb 5 (length (r ∷ rs)))) [
  | inl e ↦ rw e (evict-Lacks op rs h.1)
  | inr e ↦ rw e h
]

entries-lack :
    (op : ℕ) (rs : List BlockAuthor)
    → All (λ r. (r.edit_op_id == op) ≡ false) rs
    → All (Lacks op) (map ring_entry (map to_block_entry rs))
entries-lack op [] h = tt
entries-lack op (r ∷ rs) h = (h.0, entries-lack op rs h.1)

module _ {D : Type 0} (loro : Crdt D) (db : Db) (op : ℕ)
    (fresh : All (λ r. (r.edit_op_id == op) ≡ false) db.doc_block_authors) where
  ring-Lacks : (key : Bytes) (b : ℕ) → All (Lacks op) (map ring_entry (block_ring_get db key b))
  unfolding block_ring_get ring_of
  ring-Lacks key b =
      entries-lack op _
        (All-order_by by_position _ _ (All-select _ (of_block key b) db.doc_block_authors fresh))

  unauthorised :
      (key : Bytes) (b by ts now : ℕ)
      → veto_authorised (from_entries (map ring_entry (block_ring_get db key b))) by op ts now
        ≡ false
  unfolding newest from_entries
  unauthorised key b by ts now =
      elim (Bool-cases
        (veto_authorised (from_entries (map ring_entry (block_ring_get db key b))) by op ts now)) [
          | inr e ↦ e
          | inl e ↦
              let facts =
                (veto_authorised-newest (from_entries (map ring_entry (block_ring_get db key b))) by
                    op ts now).0
                  e in
              let found = facts.1.1 in
              ground (
                arith,
                newest-Lacks op _ found.0 (evict-Lacks op _ (ring-Lacks key b)) found.1.0,
                found.1.1,
                eq_iff found.0.edit_op_id op,
              )
        ]

  none_authorised :
      (key : Bytes) (bs : List ℕ) (by ts now : ℕ)
      → authorised_on loro db key bs by op ts now ≡ false
  unfolding authorised_on
  none_authorised key [] by ts now = refl
  none_authorised key (b ∷ bs) by ts now =
      rw (unauthorised key b by ts now) (none_authorised key bs by ts now)

  unvetoed :
      (key : Bytes) (meta : Option DocMeta) (by now : ℕ)
      → veto_meta loro db key meta op by now ≡ (db, none)
  unfolding veto_meta veto_edit
  unvetoed key none by now = refl
  unvetoed key (some meta) by now = elim (Bool-cases (is_value meta.last_edit_op_id op)) [
    | inr e ↦ rw e refl
    | inl e ↦ elim (Option-cases meta.last_edit_ts) [
      | inl f ↦ rw (e, f, veto_meta) refl
      | inr (ts, f) ↦ elim (Option-cases meta.last_edit_author) [
        | inl g ↦ rw (e, f, g, veto_meta) refl
        | inr (author, g) ↦
            rw (e, f, g, veto_meta)
              (rw (none_authorised key (veto_blocks loro meta) by ts now, veto_edit) refl)
      ]
    ]
  ]

own_record-rings :
    {D : Type 0} (loro : Crdt D) (db : Db) (e : DocEdit) (now : ℕ) (prior : Option Bytes)
    (new : Option (Bytes × ℕ))
    → (record_edit loro db e e.editor_pk now prior new).doc_block_authors ≡ db.doc_block_authors
unfolding record_edit doc_save_with_history
own_record-rings loro db e now prior none = refl
own_record-rings loro db e now prior (some (snapshot, rev)) = rw (eq_refl e.editor_pk) refl

own_edit-rings :
    {D : Type 0} (loro : Crdt D) (db : Db) (e : DocEdit) (now : ℕ)
    → (apply_doc_edit loro db e e.editor_pk now).doc_block_authors ≡ db.doc_block_authors
unfolding apply_doc_edit
own_edit-rings loro db e now = elim (Bool-cases (loro.is_key e.editor_pk)) [
  | inr f ↦ rw f refl
  | inl f ↦ rw f (own_record-rings loro db e now _ _)
]

-- Where no ring carries the operation of an edit of the local identity itself, the store on which
-- the edit is applied refuses every veto of it and stays as the edit left it, whoever vetoes and
-- whenever.
pub apply_doc_veto-own_edit :
    {D : Type 0} (loro : Crdt D) (db : Db) (e : DocEdit) (now by later : ℕ) (hint : Option Bytes)
    → All (λ r. (r.edit_op_id == e.edit_op_id) ≡ false) db.doc_block_authors
    → apply_doc_veto loro (apply_doc_edit loro db e e.editor_pk now) e.edit_op_id by hint later
      ≡ (apply_doc_edit loro db e e.editor_pk now, none)
unfolding apply_doc_veto
apply_doc_veto-own_edit loro db e now by later none fresh = refl
apply_doc_veto-own_edit loro db e now by later (some key) fresh =
    unvetoed loro (apply_doc_edit loro db e e.editor_pk now) e.edit_op_id
      (rw (own_edit-rings loro db e now) fresh) key _ by later
